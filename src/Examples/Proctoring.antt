-- ===== src/Examples/Proctoring.antt =====
-- The theorems on proctoring at one attempt, whose student sends a duration that is no number.
use senet.Prelude.{ℕ, ◌+◌, leb, Option, none, some, List, [], ◌∷◌, ◌≡◌, refl, here, first}
use senet.Prelude.Text.{text}
use senet.Prelude.Int.{pos}
use senet.Cbt.{Value, scalar, integer, string}
use senet.Cbt.Proctoring.{
  focus_loss, tab_switch, object, no_object, ProctorEvent, ProctorDb, Floats, default_thresholds,
}
use senet.Cbt.Proctoring.Flagging.{flag_of}
use senet.Cbt.Proctoring.Advisory.{
  ProctorCall, records, IsAdvice, perform_calls, perform_calls-IsAdvice,
}
use senet.Cbt.Proctoring.Unreadable.{unreadable_never_flagged}
use senet.Examples.Cbt.{attempt, db}

abbrev read_number : Value → Option ℕ
read_number (scalar (integer (pos n))) = some n
read_number _ = none

-- whole seconds for floats
abbrev seconds : Floats
seconds = record {
  Float = ℕ;
  zero_float = 0;
  to_float = read_number;
  plus = λ a b. a + b;
  at_least = λ a n. leb n a;
  truncated = λ a. some a;
}

abbrev bad_event : ProctorEvent
bad_event = record {
  id = 36;
  institution_id = 1;
  attempt_id = 34;
  event_type = focus_loss;
  client_timestamp = 2;
  detail = object (some (scalar (string (text "x"))));
}

abbrev proctored : List ProctorEvent → ProctorDb
proctored events = record {
  tables = db attempt;
  users = [];
  events = events;
  captures = [];
  flags = [];
  proctor_outbox = [];
}

-- three switches of the tab, which reach a threshold
abbrev switches : List ProctorCall
switches =
    records attempt tab_switch 3 no_object
    ∷ records attempt tab_switch 4 no_object
    ∷ records attempt tab_switch 5 no_object
    ∷ []

perform_calls-IsAdvice_example :
    IsAdvice (proctored []) (perform_calls seconds default_thresholds switches (proctored []))
perform_calls-IsAdvice_example =
    perform_calls-IsAdvice seconds default_thresholds switches (proctored [])

unreadable_never_flagged_example :
    first
      (flag_of 34)
      (perform_calls seconds default_thresholds switches (proctored (bad_event ∷ []))).flags
    ≡ none
unreadable_never_flagged_example =
    unreadable_never_flagged seconds default_thresholds 34 bad_event switches
      (proctored (bad_event ∷ [])) here refl refl refl
