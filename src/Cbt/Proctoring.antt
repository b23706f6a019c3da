-- ===== src/Cbt/Proctoring.antt =====
-- backend/cbt/proctoring.py: signals and captures of an attempt, and the flag that they raise.
-- The tables of proctoring stand beside the others. The texts of reasons are left out.
pub mod Flagging
pub mod Review
pub mod Advisory
pub mod Unreadable
use senet.Prelude.{
  ℕ, ◌+◌, ◌*◌, Bool, true, false, ◌&&◌, Option, none, some, List, [], ◌∷◌, ◌++◌, String, ◌==◌, leb,
  count, filter, first, save, if◌then◌else◌,
}
use senet.Prelude.Text.{Text}
use senet.Prelude.Int.{pos}
use senet.Exec.{Result, ok, err, value_error, Exec, pure, ◌>>=◌, ◌>>◌}
use senet.Accounts.{User}
use senet.Cbt.{Scalar, null, integer, boolean, string, Value, scalar, list, ExamAttempt}
use senet.Database.{Db}

-- `ProctorEventType`
pub data ProctorEventType : Type 0 where
  tab_switch focus_loss focus_regain fullscreen_exit : ProctorEventType
  copy_attempt paste_attempt heartbeat : ProctorEventType

abbrev proctor_event_type_index : ProctorEventType → ℕ
proctor_event_type_index tab_switch = 0
proctor_event_type_index focus_loss = 1
proctor_event_type_index focus_regain = 2
proctor_event_type_index fullscreen_exit = 3
proctor_event_type_index copy_attempt = 4
proctor_event_type_index paste_attempt = 5
proctor_event_type_index heartbeat = 6

abbrev pub eq_event_type : ProctorEventType → ProctorEventType → Bool
eq_event_type a b = proctor_event_type_index a == proctor_event_type_index b

-- `detail`: an object with its `duration_seconds`, or anything else
pub data Detail : Type 0 where
  no_object : Detail
  object : Option Value → Detail

pub record ProctorEvent : Type 0 where
  pub id : ℕ
  pub institution_id : ℕ
  pub attempt_id : ℕ
  pub event_type : ProctorEventType
  pub client_timestamp : ℕ
  pub detail : Detail

pub record WebcamCapture : Type 0 where
  pub id : ℕ
  pub institution_id : ℕ
  pub attempt_id : ℕ
  pub is_clip : Bool
  pub media : ℕ
  pub original_filename : Text
  pub captured_at : ℕ
  pub expires_at : ℕ
  pub is_anomalous : Bool
  pub anomaly_reason : Text

-- `CheatingFlagStatus`
pub data CheatingFlagStatus : Type 0 where
  raised dismissed escalated : CheatingFlagStatus

abbrev pub is_raised : CheatingFlagStatus → Bool
is_raised raised = true
is_raised _ = false

pub record Reason : Type 0 where
  pub code : String
  pub counted : ℕ
  pub threshold : ℕ

pub record CheatingFlag : Type 0 where
  pub id : ℕ
  pub institution_id : ℕ
  pub attempt_id : ℕ
  pub flag_status : CheatingFlagStatus
  pub auto_raised : Bool
  pub reasons : List Reason
  pub reviewed_by : Option ℕ
  pub reviewed_at : Option ℕ
  pub review_notes : Text
  pub escalated_to : Option ℕ
  pub raised_at : ℕ

-- the tasks that proctoring queues
pub data ProctorNotice : Type 0 where
  cheating_flag flag_escalation : ℕ → ProctorNotice

pub record ProctorDb : Type 0 where
  pub tables : Db
  pub users : List User
  pub events : List ProctorEvent
  pub captures : List WebcamCapture
  pub flags : List CheatingFlag
  pub proctor_outbox : List ProctorNotice

-- What the interpreter provides on floats: `float(value)`, `+`, the comparison with a whole number
-- and `int`. `none` is a raise.
pub record Floats : Type 1 where
  pub Float : Type 0
  pub zero_float : Float
  pub to_float : Value → Option Float
  pub plus : Float → Float → Float
  pub at_least : Float → ℕ → Bool
  pub truncated : Float → Option ℕ

-- `_thresholds`: the defaults, or what the settings have in their place
pub record Thresholds : Type 0 where
  pub tab_switches : ℕ
  pub focus_losses : ℕ
  pub focus_loss_seconds : ℕ
  pub fullscreen_exits : ℕ
  pub clipboard_uses : ℕ
  pub webcam_anomalies : ℕ

abbrev pub default_thresholds : Thresholds
default_thresholds = record {
  tab_switches = 3;
  focus_losses = 3;
  focus_loss_seconds = 60;
  fullscreen_exits = 2;
  clipboard_uses = 1;
  webcam_anomalies = 1;
}

abbrev pub of_event_type : ℕ → ProctorEventType → ProctorEvent → Bool
of_event_type attempt kind e = e.attempt_id == attempt && eq_event_type e.event_type kind

-- whether `value or 0` is 0
abbrev pub is_falsy : Option Value → Bool
is_falsy none = true
is_falsy (some (scalar null)) = true
is_falsy (some (scalar (integer (pos n)))) = n == 0
is_falsy (some (scalar (boolean b))) = if b then false else true
is_falsy (some (scalar (string []))) = true
is_falsy (some (list t [])) = true
is_falsy _ = false

abbrev seconds_of_value : (floats : Floats) → Option Value → Option floats.Float
seconds_of_value floats none = some floats.zero_float
seconds_of_value floats (some v) = floats.to_float v

-- `float(detail.get("duration_seconds") or 0)`
abbrev pub seconds_of : (floats : Floats) → Detail → Option floats.Float
seconds_of floats no_object = some floats.zero_float
seconds_of floats (object v) = seconds_of_value floats (if is_falsy v then none else v)
