-- ===== src/Cbt/Attempts/Closed.antt =====
-- What the calls on attempts do to a settled attempt: nothing.
use senet.Prelude.{
  ℕ, ◌+◌, ◌≤◌, ◌<◌, Bool, true, false, Option, none, some, List, [], ◌∷◌, ◌==◌, ◌≡◌, refl, sym,
  arith, Member, Member-append_left, All-append, ltb, if◌then◌else◌,
}
use mathlib.Core.Path.{subst}
use senet.Prelude.Keys.{IsKeyed-append, AllBelow-mono}
use senet.Exec.{check_state, Exec, pure, continue_keeps, settle_keeps, ◌>>◌}
use senet.Accounts.{User}
use senet.Cbt.{Value, Exam, ExamAttempt, Runtime}
use senet.Cbt.Assembly.{assemble_attempt_questions, draw_paper}
use senet.Cbt.Answers.{upsert_answer, write_answer}
use senet.Cbt.Finalizing.{
  attempt_key, finalize_if_expired, lock_in_progress, finalize_expired_attempts,
}
use senet.Cbt.Finalizing.Frozen.{
  IsClosed, Holds, Holds-same, finalize_if_expired-Holds, finalize_expired_attempts-Holds,
  finalize_locked-Holds, refresh-Holds,
}
use senet.Cbt.Attempts.{
  under_lock, resume_or_begin, start_attempt, begin_attempt, require_can_attempt, save_answer,
  save_answers_batch, upsert_all, submit_attempt, reject_closed_attempt, require_owner,
  lock_or_refuse, get_or_create, attempt_of, fresh_attempt, finalize_locked,
}
use senet.Database.{Db}

-- One call on attempts, with its arguments. An attempt that is passed is the caller's copy.
pub data Call : Type 0 where
  starts : User → Exam → Call
  saves : User → ExamAttempt → ℕ → Value → Call
  saves_batch : User → ExamAttempt → List (ℕ × Value) → Call
  submits : User → ExamAttempt → Call
  looks : ExamAttempt → Call
  sweeps : ℕ → Call
  waits : ℕ → Call

-- the tables after the call, whether it returned or raised; `waits` moves the clock
abbrev pub run : Runtime → Call → Db → Db
run rt (starts student exam) db = (start_attempt rt student exam db).1
run rt (saves student attempt question raw) db = (save_answer rt student attempt question raw db).1
run rt (saves_batch student attempt items) db = (save_answers_batch rt student attempt items db).1
run rt (submits student attempt) db = (submit_attempt rt student attempt db).1
run rt (looks attempt) db = (finalize_if_expired rt attempt db).1
run rt (sweeps limit) db = (finalize_expired_attempts rt limit db).1
run rt (waits time) db = record db { now = db.now + time }

abbrev pub run_all : Runtime → List Call → Db → Db
run_all rt [] db = db
run_all rt (call ∷ calls) db = run_all rt calls (run rt call db)

upsert_same :
    (a : ExamAttempt) (q : ℕ) (raw : Value) (db : Db)
    → ((upsert_answer a q raw db).1.attempts ≡ db.attempts)
      × (db.next_id ≤ (upsert_answer a q raw db).1.next_id)
unfolding upsert_answer write_answer
upsert_same a q raw db = ground arith

require_same :
    (student : User) (exam : Exam) (db : Db) → (require_can_attempt student exam db).1 ≡ db
unfolding require_can_attempt
require_same student exam db = ground arith

draw_same :
    (rt : Runtime) (a : ExamAttempt) (exam : Exam) (db : Db)
    → ((assemble_attempt_questions rt a exam db).1.attempts ≡ db.attempts)
      × ((assemble_attempt_questions rt a exam db).1.next_id ≡ db.next_id)
unfolding assemble_attempt_questions draw_paper
draw_same rt a exam db = ground arith

require_owner_state :
    (a : ExamAttempt) (student : User) (db : Db) → (require_owner a student db).1 ≡ db
require_owner_state a student db = check_state (a.student_id == student.id) _ db

lock_or_refuse_state : (a : ExamAttempt) (db : Db) → (lock_or_refuse a db).1 ≡ db
lock_or_refuse_state a db = ground arith

module _ (x : ExamAttempt) where
  upsert-Holds :
      (a : ExamAttempt) (q : ℕ) (raw : Value) (db : Db)
      → Holds x db
      → Holds x (upsert_answer a q raw db).1
  upsert-Holds a q raw db h =
      let (e, le) = upsert_same a q raw db in Holds-same x db (upsert_answer a q raw db).1 e le h

  upsert_all-Holds :
      (a : ExamAttempt) (items : List (ℕ × Value)) (db : Db)
      → Holds x db
      → Holds x (upsert_all a items db).1
  unfolding upsert_all
  upsert_all-Holds a [] db h = h
  upsert_all-Holds a ((q, raw) ∷ items) db h =
      continue_keeps (Holds x) (upsert_answer a q raw db) _ (upsert-Holds a q raw db h)
        λ answer s k.
          continue_keeps (Holds x) (upsert_all a items s) _ (upsert_all-Holds a items s k)
            (λ rest t z. z)

  -- the attempt that a first start creates
  created-Holds :
      (student : User) (exam : Exam) (o : Option ExamAttempt) (db : Db)
      → Holds x db
      → Holds x (get_or_create student exam o db).1
  created-Holds student exam (some a) db h = h
  created-Holds student exam none db h =
      let row = fresh_attempt student exam db.next_id db.now in
      let next = db.next_id + 1 in
      let up = AllBelow-mono attempt_key db.next_id next db.attempts (omega arith) h.below in
      record {
        keyed = IsKeyed-append attempt_key db.next_id row db.attempts refl h.below h.keyed;
        below = All-append (λ a. a.id < next) db.attempts (row ∷ []) up (omega arith, tt);
        kept = Member-append_left db.attempts (row ∷ []) h.kept;
      }

module _ (rt : Runtime) (x : ExamAttempt) (closed : IsClosed x) where
  looks-Holds : (a : ExamAttempt) (db : Db) → Holds x db → Holds x (finalize_if_expired rt a db).1
  looks-Holds = finalize_if_expired-Holds rt x closed

  reject-Holds :
      (a : ExamAttempt) (db : Db) → Holds x db → Holds x (reject_closed_attempt rt a db).1
  unfolding reject_closed_attempt
  reject-Holds a db h =
      continue_keeps (Holds x) (finalize_if_expired rt a db) _ (looks-Holds a db h)
        λ now_is s k. subst (Holds x) (sym (check_state _ _ s)) k

  -- what follows the creation, or the lookup, of the row
  opened-Holds :
      (a : ExamAttempt) (exam : Exam) (created : Bool) (db : Db)
      → Holds x db
      → Holds x
          ((if created
              then assemble_attempt_questions rt a exam >> pure a
              else finalize_if_expired rt a)
            db).1
  opened-Holds a exam true db h =
      let (e, n) = draw_same rt a exam db in
      continue_keeps (Holds x) (assemble_attempt_questions rt a exam db) _
        (Holds-same x db (assemble_attempt_questions rt a exam db).1 e (omega (arith, n)) h)
        (λ _ s k. k)
  opened-Holds a exam false db h = looks-Holds a db h

  -- the calls that write under a lock, after the same checks
  under_lock-Holds :
      {A : Type 0} (student : User) (a : ExamAttempt) (write : ExamAttempt → Exec Db A)
      → ((l : ExamAttempt) (db : Db) → Holds x db → Holds x (write l db).1)
      → (db : Db) → Holds x db
      → Holds x (under_lock rt student a write db).1
  unfolding under_lock
  under_lock-Holds student a write keeps db h =
      let I = Holds x in
      continue_keeps I (require_owner a student db) _
        (subst I (sym (require_owner_state a student db)) h)
        λ _ s k. continue_keeps I (reject_closed_attempt rt a s) _ (reject-Holds a s k) λ _ t z.
          settle_keeps I t _ z (
            continue_keeps I (lock_or_refuse a t) _ (subst I (sym (lock_or_refuse_state a t)) z)
              keeps)

  locked-Holds :
      (id : ℕ) (db : Db) (o : Option ExamAttempt)
      → lock_in_progress id db ≡ o
      → Holds x db
      → Holds x (finalize_locked rt o db)
  locked-Holds id db none e h = h
  locked-Holds id db (some l) e h =
      finalize_locked-Holds rt x closed (ltb l.deadline db.now) id db e h

  submits-Holds :
      (student : User) (a : ExamAttempt) (db : Db)
      → Holds x db
      → Holds x (submit_attempt rt student a db).1
  unfolding submit_attempt
  submits-Holds student a db h =
      let I = Holds x in
      continue_keeps I (require_owner a student db) _
        (subst I (sym (require_owner_state a student db)) h)
        λ _ s k.
          refresh-Holds rt x closed a _ (locked-Holds a.id s (lock_in_progress a.id s) refl k)

  begin-Holds :
      (student : User) (exam : Exam) (db : Db)
      → Holds x db
      → Holds x (begin_attempt rt student exam db).1
  unfolding begin_attempt
  begin-Holds student exam db h =
      let I = Holds x in
      continue_keeps I (require_can_attempt student exam db) _
        (subst I (sym (require_same student exam db)) h)
        λ _ s k.
          continue_keeps I (get_or_create student exam (attempt_of student exam s) s) _
            (created-Holds x student exam (attempt_of student exam s) s k)
            λ p t z. opened-Holds p.0 exam p.1 t z

  starts-Holds :
      (student : User) (exam : Exam) (db : Db)
      → Holds x db
      → Holds x (start_attempt rt student exam db).1
  unfolding start_attempt
  starts-Holds student exam db h =
      settle_keeps (Holds x) db _ h (at_start (attempt_of student exam db))
    where
      at_start : (o : Option ExamAttempt) → Holds x (resume_or_begin rt student exam o db).1
      at_start none = begin-Holds student exam db h
      at_start (some a) = looks-Holds a db h

  run-Holds : (call : Call) (db : Db) → Holds x db → Holds x (run rt call db)
  unfolding save_answer save_answers_batch
  run-Holds (starts student exam) = starts-Holds student exam
  run-Holds (saves student a q raw) =
      under_lock-Holds student a (λ l. upsert_answer l q raw) (λ l. upsert-Holds x l q raw)
  run-Holds (saves_batch student a items) =
      under_lock-Holds student a (λ l. upsert_all l items) (λ l. upsert_all-Holds x l items)
  run-Holds (submits student a) = submits-Holds student a
  run-Holds (looks a) = looks-Holds a
  run-Holds (sweeps limit) = finalize_expired_attempts-Holds rt x closed limit
  run-Holds (waits time) = λ db h. record { keyed = h.keyed; below = h.below; kept = h.kept }

  run_all-Holds : (calls : List Call) (db : Db) → Holds x db → Holds x (run_all rt calls db)
  run_all-Holds [] db h = h
  run_all-Holds (call ∷ calls) db h = run_all-Holds calls (run rt call db) (run-Holds call db h)

-- An attempt that is settled, in a table of attempts with unique keys below the next fresh one, is
-- still in the table as it was, its score, status and moment of submission included, after any
-- sequence of calls that start, save, submit, look at or sweep attempts, at whatever times, and
-- with whatever copies of the attempts the calls are made.
pub settled_frozen :
    (rt : Runtime) (x : ExamAttempt) (calls : List Call) (db : Db)
    → IsClosed x
    → Holds x db
    → Member x (run_all rt calls db).attempts
settled_frozen rt x calls db closed h = (run_all-Holds rt x closed calls db h).kept
