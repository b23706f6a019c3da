-- ===== src/Cbt/Proctoring/Flagging.antt =====
-- Recording of signals and the evaluation that raises a flag, of backend/cbt/proctoring.py.
use senet.Prelude.{
  ℕ, ◌+◌, ◌*◌, Bool, true, ◌&&◌, Option, none, some, List, [], ◌∷◌, ◌++◌, String, ◌==◌, leb, count,
  filter, first, save, if◌then◌else◌,
}
use senet.Prelude.Text.{Text}
use senet.Exec.{value_error, Exec, pure, gets, or_raise, modify, ◌>>=◌, ◌>>◌}
use senet.Cbt.{ExamAttempt}
use senet.Cbt.Proctoring.{
  ProctorEventType, tab_switch, focus_loss, fullscreen_exit, copy_attempt, paste_attempt, Detail,
  ProctorEvent, WebcamCapture, raised, is_raised, Reason, CheatingFlag, cheating_flag, ProctorDb,
  Floats, Thresholds, of_event_type, seconds_of,
}
use senet.Database.{Db}

abbrev pub trip : String → ℕ → ℕ → List Reason
trip code n threshold =
    if leb threshold n then record { code = code; counted = n; threshold = threshold } ∷ [] else []

abbrev long_reason : ℕ → Option ℕ → Option (List Reason)
long_reason threshold none = none
long_reason threshold (some n) =
    some (record { code = "extended_focus_loss"; counted = n; threshold = threshold } ∷ [])

abbrev pub is_anomaly : ℕ → WebcamCapture → Bool
is_anomaly attempt c = c.attempt_id == attempt && c.is_anomalous

abbrev pub flag_of : ℕ → CheatingFlag → Bool
flag_of attempt f = f.attempt_id == attempt

abbrev pub flag_key : CheatingFlag → ℕ
flag_key f = f.id

abbrev pub new_flag : ExamAttempt → List Reason → ℕ → ℕ → CheatingFlag
new_flag attempt reasons id now = record {
  id = id;
  institution_id = attempt.institution_id;
  attempt_id = attempt.id;
  flag_status = raised;
  auto_raised = true;
  reasons = reasons;
  reviewed_by = none;
  reviewed_at = none;
  review_notes = [];
  escalated_to = none;
  raised_at = now;
}

-- a first flag, or new reasons on one that no reviewer has decided
unfoldable pub raise_flag : ExamAttempt → List Reason → Option CheatingFlag → ProctorDb → ProctorDb
raise_flag attempt reasons none db =
    let flag = new_flag attempt reasons db.tables.next_id db.tables.now in
    record db {
      tables = record db.tables { next_id = db.tables.next_id + 1 };
      flags = db.flags ++ flag ∷ [];
      proctor_outbox = db.proctor_outbox ++ cheating_flag flag.id ∷ [];
    }
raise_flag attempt reasons (some flag) db =
    if is_raised flag.flag_status
    then record db { flags = save flag_key (record flag { reasons = reasons }) db.flags }
    else db

abbrev pub flag_for : ExamAttempt → List Reason → ProctorDb → ProctorDb
flag_for attempt [] db = db
flag_for attempt (r ∷ rs) db = raise_flag attempt (r ∷ rs) (first (flag_of attempt.id) db.flags) db

abbrev pub event_row : ExamAttempt → ProctorEventType → ℕ → Detail → ℕ → ProctorEvent
event_row attempt kind client_timestamp detail id = record {
  id = id;
  institution_id = attempt.institution_id;
  attempt_id = attempt.id;
  event_type = kind;
  client_timestamp = client_timestamp;
  detail = detail;
}

abbrev pub add_event : ProctorEvent → ProctorDb → ProctorDb
add_event event db = record db {
  tables = record db.tables { next_id = db.tables.next_id + 1 };
  events = db.events ++ event ∷ [];
}

-- `timedelta(days=1)`
abbrev day : ℕ
day = 86400000000

abbrev pub add_capture : WebcamCapture → ProctorDb → ProctorDb
add_capture capture db = record db {
  tables = record db.tables { next_id = db.tables.next_id + 1 };
  captures = db.captures ++ capture ∷ [];
}

-- what the request gives of a capture; `media` stands for the stored upload
pub record Upload : Type 0 where
  pub upload_media : ℕ
  pub upload_name : Text
  pub upload_is_clip : Bool
  pub taken_at : ℕ
  pub anomalous : Bool
  pub why_anomalous : Text

abbrev pub capture_row : ℕ → ExamAttempt → Upload → Db → WebcamCapture
capture_row retention_days attempt u db = record {
  id = db.next_id;
  institution_id = attempt.institution_id;
  attempt_id = attempt.id;
  is_clip = u.upload_is_clip;
  media = u.upload_media;
  original_filename = u.upload_name;
  captured_at = u.taken_at;
  expires_at = db.now + retention_days * day;
  is_anomalous = u.anomalous;
  anomaly_reason = u.why_anomalous;
}

module _ (floats : Floats) where
  abbrev pub add_seconds : Option floats.Float → Option floats.Float → Option floats.Float
  add_seconds (some a) (some b) = some (floats.plus a b)
  add_seconds _ _ = none

  -- the seconds of the events put to `acc` in their order; `none` where one cannot be read
  abbrev pub sum_seconds : Option floats.Float → List ProctorEvent → Option floats.Float
  sum_seconds acc [] = acc
  sum_seconds acc (e ∷ es) = sum_seconds (add_seconds acc (seconds_of floats e.detail)) es

  abbrev pub focus_seconds : ℕ → ProctorDb → Option floats.Float
  focus_seconds attempt db =
      sum_seconds (some floats.zero_float) (filter (of_event_type attempt focus_loss) db.events)

  abbrev pub trip_seconds : ℕ → floats.Float → Option (List Reason)
  trip_seconds threshold seconds =
      if floats.at_least seconds threshold
      then long_reason threshold (floats.truncated seconds)
      else some []

  -- `_tripped_reasons`
  unfoldable pub tripped_reasons : Thresholds → ℕ → Exec ProctorDb (List Reason)
  tripped_reasons limits attempt = do
    db ← gets (λ db. db)
    let counted : ProctorEventType → ℕ = λ kind. count (of_event_type attempt kind) db.events
    seconds ← or_raise (focus_seconds attempt db) value_error
    long ← or_raise (trip_seconds limits.focus_loss_seconds seconds) value_error
    pure (
        trip "repeated_tab_switch" (counted tab_switch) limits.tab_switches
        ++ (trip "repeated_focus_loss" (counted focus_loss) limits.focus_losses
            ++ (long
                ++ (trip "fullscreen_exit" (counted fullscreen_exit) limits.fullscreen_exits
                    ++ (trip "clipboard_activity" (counted copy_attempt + counted paste_attempt)
                          limits.clipboard_uses
                        ++ trip "webcam_anomaly" (count (is_anomaly attempt) db.captures)
                            limits.webcam_anomalies)))))

  unfoldable pub evaluate_attempt_for_cheating :
      Thresholds → ExamAttempt → Exec ProctorDb (Unit {0})
  unfolding tripped_reasons raise_flag
  evaluate_attempt_for_cheating limits attempt = do
    reasons ← tripped_reasons limits attempt.id
    modify (flag_for attempt reasons)

  unfoldable pub record_event :
      Thresholds → ExamAttempt → ProctorEventType → ℕ → Detail → Exec ProctorDb ProctorEvent
  unfolding evaluate_attempt_for_cheating
  record_event limits attempt kind client_timestamp detail = do
    event ← gets (λ db. event_row attempt kind client_timestamp detail db.tables.next_id)
    modify (add_event event)
    evaluate_attempt_for_cheating limits attempt
    pure event

  -- the institution of the attempt says for how many days a capture is kept
  unfoldable pub create_webcam_capture :
      Thresholds → ℕ → ExamAttempt → Upload → Exec ProctorDb WebcamCapture
  unfolding evaluate_attempt_for_cheating
  create_webcam_capture limits retention_days attempt u = do
    capture ← gets (λ db. capture_row retention_days attempt u db.tables)
    modify (add_capture capture)
    if u.anomalous then evaluate_attempt_for_cheating limits attempt else pure tt
    pure capture
