-- ===== src/Cbt/Proctoring/Advisory.antt =====
-- Proctoring is advice: what its calls, in any order, leave alone.
use senet.Prelude.{
  ℕ, ◌+◌, Bool, true, false, Option, none, some, List, [], ◌∷◌, ◌++◌, ◌≡◌, refl, sym, ap, ◌∙◌,
  if◌then◌else◌, if_ind,
}
use mathlib.Core.Path.{subst}
use mathlib.Core.List.{append_assoc, append-nil}
use senet.Prelude.Text.{Text}
use senet.Exec.{
  Error, value_error, does_not_exist, Exec, pure, check, or_raise, continue_keeps, ◌>>=◌, ◌>>◌,
}
use senet.Accounts.{User}
use senet.Cbt.{Exam, ExamAttempt}
use senet.Cbt.Access.{can_manage_exam}
use senet.Cbt.Proctoring.{
  is_raised, ProctorEventType, Detail, ProctorEvent, WebcamCapture, Reason, CheatingFlag, ProctorDb,
  Floats, Thresholds,
}
use senet.Cbt.Proctoring.Flagging.{
  tripped_reasons, raise_flag, flag_for, evaluate_attempt_for_cheating, add_event, event_row,
  record_event, Upload, add_capture, capture_row, create_webcam_capture, focus_seconds,
  trip_seconds,
}
use senet.Cbt.Proctoring.Review.{require_reviewer, dismiss_flag, escalate_flag, flagged_exam}
use senet.Database.{Db}

-- One call of proctoring, with its arguments; attempts and flags are the caller's copies.
pub data ProctorCall : Type 0 where
  records : ExamAttempt → ProctorEventType → ℕ → Detail → ProctorCall
  captures_webcam : ℕ → ExamAttempt → Upload → ProctorCall
  dismisses : User → CheatingFlag → Text → ProctorCall
  escalates : User → CheatingFlag → Text → ProctorCall

module _ (floats : Floats) (limits : Thresholds) where
  -- the tables after the call, whether it returned or raised
  abbrev pub perform : ProctorCall → ProctorDb → ProctorDb
  perform (records attempt kind time detail) db =
      (record_event floats limits attempt kind time detail db).1
  perform (captures_webcam days attempt upload) db =
      (create_webcam_capture floats limits days attempt upload db).1
  perform (dismisses actor flag notes) db = (dismiss_flag actor flag notes db).1
  perform (escalates actor flag notes) db = (escalate_flag actor flag notes db).1

  abbrev pub perform_calls : List ProctorCall → ProctorDb → ProctorDb
  perform_calls [] db = db
  perform_calls (call ∷ calls) db = perform_calls calls (perform call db)

-- `after` has the tables of `before` but for the supply of keys, and has only added events and
-- captures
pub record IsAdvice (before after : ProctorDb) : Type 0 where
  pub untouched : after.tables ≡ record before.tables { next_id = after.tables.next_id }
  pub later_events : (more : List ProctorEvent) × (after.events ≡ before.events ++ more)
  pub later_captures : (more : List WebcamCapture) × (after.captures ≡ before.captures ++ more)

module _ (a : ProctorDb) where
  same-IsAdvice :
      (b c : ProctorDb)
      → c.tables ≡ record b.tables { next_id = c.tables.next_id }
      → c.events ≡ b.events
      → c.captures ≡ b.captures
      → IsAdvice a b
      → IsAdvice a c
  same-IsAdvice b c t e k h = record {
    untouched = t ∙ ap (λ (d : Db). record d { next_id = c.tables.next_id }) h.untouched;
    later_events = (h.later_events.0, e ∙ h.later_events.1);
    later_captures = (h.later_captures.0, k ∙ h.later_captures.1);
  }

  raise-IsAdvice :
      (attempt : ExamAttempt) (reasons : List Reason) (o : Option CheatingFlag) (db : ProctorDb)
      → IsAdvice a db
      → IsAdvice a (raise_flag attempt reasons o db)
  unfolding raise_flag
  raise-IsAdvice attempt reasons none db h = same-IsAdvice db _ refl refl refl h
  raise-IsAdvice attempt reasons (some flag) db h =
      if_ind (IsAdvice a) (is_raised flag.flag_status) (λ _. same-IsAdvice db _ refl refl refl h)
        (λ _. h)

  flag_for-IsAdvice :
      (attempt : ExamAttempt) (reasons : List Reason) (db : ProctorDb)
      → IsAdvice a db
      → IsAdvice a (flag_for attempt reasons db)
  flag_for-IsAdvice attempt [] db h = h
  flag_for-IsAdvice attempt (r ∷ rs) db h = raise-IsAdvice attempt (r ∷ rs) _ db h

  add_event-IsAdvice :
      (event : ProctorEvent) (db : ProctorDb) → IsAdvice a db → IsAdvice a (add_event event db)
  add_event-IsAdvice event db h = record {
    untouched = ap (λ (d : Db). record d { next_id = db.tables.next_id + 1 }) h.untouched;
    later_events =
        let (more, e) = h.later_events in
        (
          more ++ event ∷ [],
          ap (λ es. es ++ event ∷ []) e ∙ append_assoc a.events more (event ∷ []),
        );
    later_captures = h.later_captures;
  }

  add_capture-IsAdvice :
      (capture : WebcamCapture) (db : ProctorDb)
      → IsAdvice a db
      → IsAdvice a (add_capture capture db)
  add_capture-IsAdvice capture db h = record {
    untouched = ap (λ (d : Db). record d { next_id = db.tables.next_id + 1 }) h.untouched;
    later_events = h.later_events;
    later_captures =
        let (more, e) = h.later_captures in
        (
          more ++ capture ∷ [],
          ap (λ es. es ++ capture ∷ []) e ∙ append_assoc a.captures more (capture ∷ []),
        );
  }

-- a call that reads and then keeps the tables
or_raise_bind_state :
    {A B : Type 0} (o : Option A) (e : Error) (f : A → Exec ProctorDb B) (db : ProctorDb)
    → ((x : A) → (f x db).1 ≡ db)
    → ((or_raise o e >>= f) db).1 ≡ db
or_raise_bind_state none e f db h = refl
or_raise_bind_state (some x) e f db h = h x

pub tripped_state :
    (floats : Floats) (limits : Thresholds) (attempt : ℕ) (db : ProctorDb)
    → (tripped_reasons floats limits attempt db).1 ≡ db
unfolding tripped_reasons
tripped_state floats limits attempt db =
    or_raise_bind_state (focus_seconds floats attempt db) value_error _ db λ seconds.
      or_raise_bind_state (trip_seconds floats limits.focus_loss_seconds seconds) value_error _ db
        λ long. refl

check_bind_state :
    (t : Bool) (e : Error) (exam : Exam) (db : ProctorDb) → ((check t e >> pure exam) db).1 ≡ db
check_bind_state true e exam db = refl
check_bind_state false e exam db = refl

pub reviewer_state :
    (actor : User) (flag : CheatingFlag) (db : ProctorDb) → (require_reviewer actor flag db).1 ≡ db
unfolding require_reviewer
reviewer_state actor flag db =
    or_raise_bind_state (flagged_exam flag db.tables) does_not_exist _ db λ exam.
      check_bind_state
        (can_manage_exam db.tables.academic actor exam.course exam.session_id exam.semester_id) _
        exam db

module _ (a : ProctorDb) (floats : Floats) (limits : Thresholds) where
  evaluate-IsAdvice :
      (attempt : ExamAttempt) (db : ProctorDb)
      → IsAdvice a db
      → IsAdvice a (evaluate_attempt_for_cheating floats limits attempt db).1
  unfolding evaluate_attempt_for_cheating
  evaluate-IsAdvice attempt db h =
      continue_keeps (IsAdvice a) (tripped_reasons floats limits attempt.id db) _
        (subst (IsAdvice a) (sym (tripped_state floats limits attempt.id db)) h)
        (λ reasons s k. flag_for-IsAdvice a attempt reasons s k)

  record-IsAdvice :
      (attempt : ExamAttempt) (kind : ProctorEventType) (time : ℕ) (detail : Detail)
      (db : ProctorDb)
      → IsAdvice a db
      → IsAdvice a (record_event floats limits attempt kind time detail db).1
  unfolding record_event
  record-IsAdvice attempt kind time detail db h =
      let event = event_row attempt kind time detail db.tables.next_id in
      continue_keeps (IsAdvice a)
        (evaluate_attempt_for_cheating floats limits attempt (add_event event db)) _
        (evaluate-IsAdvice attempt (add_event event db) (add_event-IsAdvice a event db h))
        (λ _ s k. k)

  maybe-IsAdvice :
      (anomalous : Bool) (attempt : ExamAttempt) (db : ProctorDb)
      → IsAdvice a db
      → IsAdvice a
          ((if anomalous then evaluate_attempt_for_cheating floats limits attempt else pure tt)
            db).1
  maybe-IsAdvice true attempt db h = evaluate-IsAdvice attempt db h
  maybe-IsAdvice false attempt db h = h

  capture-IsAdvice :
      (days : ℕ) (attempt : ExamAttempt) (u : Upload) (db : ProctorDb)
      → IsAdvice a db
      → IsAdvice a (create_webcam_capture floats limits days attempt u db).1
  unfolding create_webcam_capture
  capture-IsAdvice days attempt u db h =
      let capture = capture_row days attempt u db.tables in
      continue_keeps (IsAdvice a)
        ((if u.anomalous then evaluate_attempt_for_cheating floats limits attempt else pure tt)
          (add_capture capture db))
        _
        (maybe-IsAdvice u.anomalous attempt (add_capture capture db)
          (add_capture-IsAdvice a capture db h))
        (λ _ s k. k)

  reviewed-IsAdvice :
      (actor : User) (flag : CheatingFlag) (db : ProctorDb)
      → IsAdvice a db
      → IsAdvice a (require_reviewer actor flag db).1
  reviewed-IsAdvice actor flag db h = subst (IsAdvice a) (sym (reviewer_state actor flag db)) h

  perform-IsAdvice :
      (call : ProctorCall) (db : ProctorDb)
      → IsAdvice a db
      → IsAdvice a (perform floats limits call db)
  unfolding dismiss_flag escalate_flag
  perform-IsAdvice (records attempt kind time detail) db h =
      record-IsAdvice attempt kind time detail db h
  perform-IsAdvice (captures_webcam days attempt u) db h = capture-IsAdvice days attempt u db h
  perform-IsAdvice (dismisses actor flag notes) db h =
      continue_keeps (IsAdvice a) (require_reviewer actor flag db) _
        (reviewed-IsAdvice actor flag db h) (λ exam s k. same-IsAdvice a s _ refl refl refl k)
  perform-IsAdvice (escalates actor flag notes) db h =
      continue_keeps (IsAdvice a) (require_reviewer actor flag db) _
        (reviewed-IsAdvice actor flag db h) (λ exam s k. same-IsAdvice a s _ refl refl refl k)

  calls-IsAdvice :
      (calls : List ProctorCall) (db : ProctorDb)
      → IsAdvice a db
      → IsAdvice a (perform_calls floats limits calls db)
  calls-IsAdvice [] db h = h
  calls-IsAdvice (call ∷ calls) db h =
      calls-IsAdvice calls (perform floats limits call db) (perform-IsAdvice call db h)

-- Whatever calls of proctoring are made, in whatever order, whether they return or raise: every
-- other table, the attempts with their scores and statuses among them, is as it was but for the
-- supply of keys, and events and captures are only added after those that were there.
pub perform_calls-IsAdvice :
    (floats : Floats) (limits : Thresholds) (calls : List ProctorCall) (db : ProctorDb)
    → IsAdvice db (perform_calls floats limits calls db)
perform_calls-IsAdvice floats limits calls db = calls-IsAdvice db floats limits calls db (record {
  untouched = refl;
  later_events = ([], sym (append-nil db.events));
  later_captures = ([], sym (append-nil db.captures));
})
