-- ===== src/Cbt/Attempts/Refused.antt =====
-- Saving to and submitting an attempt that is settled already.
use senet.Prelude.{ℕ, some, none, List, ◌==◌, ◌≡◌, ◌≢◌, sym, arith, Member, first}
use mathlib.Core.Path.{subst}
use senet.Prelude.Keys.{IsKeyed, keyed_find, keyed_none}
use senet.Exec.{ok, Exec}
use senet.Accounts.{User}
use senet.Cbt.{Value, ExamAttempt, in_progress, eq_attempt_status, Answer, Runtime}
use senet.Cbt.Answers.{upsert_answer}
use senet.Cbt.Finalizing.{attempt_key, finalize_if_expired, lock_in_progress}
use senet.Cbt.Finalizing.Frozen.{IsClosed}
use senet.Cbt.Attempts.{
  under_lock, save_answer, save_answers_batch, upsert_all, submit_attempt, reject_closed_attempt,
}
use senet.Database.{Db}

module _ (rt : Runtime) (x : ExamAttempt) (db : Db) (keyed : IsKeyed attempt_key db.attempts)
    (stored : Member x db.attempts) (closed : IsClosed x) where
  no_lock : lock_in_progress x.id db ≡ none
  no_lock =
      keyed_none attempt_key (λ a. eq_attempt_status a.status in_progress) db.attempts keyed stored
        closed

  found : first (λ a. a.id == x.id) db.attempts ≡ some x
  found = keyed_find attempt_key db.attempts keyed stored

  -- a copy that still says in progress is refused by the lock
  looks_same : (copy : ExamAttempt) → copy.id ≡ x.id → (finalize_if_expired rt copy db).1 ≡ db
  unfolding finalize_if_expired
  looks_same copy e =
      let a : lock_in_progress copy.id db ≡ none =
        subst (λ k. lock_in_progress k db ≡ none) (sym e) no_lock in
      let b : first (λ a. a.id == copy.id) db.attempts ≡ some x =
        subst (λ k. first (λ a. a.id == k) db.attempts ≡ some x) (sym e) found in
      ground (arith, a, b)

  refuses :
      {A : Type 0} (student : User) (copy : ExamAttempt) (write : ExamAttempt → Exec Db A)
      → copy.id ≡ x.id
      → ((under_lock rt student copy write db).1 ≡ db)
        × ((a : A) → (under_lock rt student copy write db).0 ≢ ok a)
  unfolding under_lock reject_closed_attempt finalize_if_expired
  refuses student copy write e =
      let a : lock_in_progress copy.id db ≡ none =
        subst (λ k. lock_in_progress k db ≡ none) (sym e) no_lock in
      let b : first (λ a. a.id == copy.id) db.attempts ≡ some x =
        subst (λ k. first (λ a. a.id == k) db.attempts ≡ some x) (sym e) found in
      (ground (arith, a, b), λ r h. ground (arith, a, b, h))

  resubmits :
      (student : User) (copy : ExamAttempt)
      → copy.id ≡ x.id
      → copy.student_id ≡ student.id
      → submit_attempt rt student copy db ≡ (ok x, db)
  unfolding submit_attempt
  resubmits student copy e own =
      let a : lock_in_progress copy.id db ≡ none =
        subst (λ k. lock_in_progress k db ≡ none) (sym e) no_lock in
      let b : first (λ a. a.id == copy.id) db.attempts ≡ some x =
        subst (λ k. first (λ a. a.id == k) db.attempts ≡ some x) (sym e) found in
      ground (arith, a, b, own)

-- A settled attempt `x` that is stored, in a table of attempts with unique keys, refuses its
-- student's saves and batches of saves, whatever copy of it they are called with, old or new, and
-- whatever they hold: none returns an answer, and nothing is written. A submission by the student
-- returns `x` as it is stored, and changes nothing.
pub settled_refuses :
    (rt : Runtime) (x copy : ExamAttempt) (db : Db) (student : User) (question : ℕ) (raw : Value)
    (items : List (ℕ × Value))
    → IsKeyed attempt_key db.attempts
    → Member x db.attempts
    → IsClosed x
    → copy.id ≡ x.id
    → copy.student_id ≡ student.id
    → ((save_answer rt student copy question raw db).1 ≡ db)
      × ((a : Answer) → (save_answer rt student copy question raw db).0 ≢ ok a)
      × ((save_answers_batch rt student copy items db).1 ≡ db)
      × ((rows : List Answer) → (save_answers_batch rt student copy items db).0 ≢ ok rows)
      × (submit_attempt rt student copy db ≡ (ok x, db))
unfolding save_answer save_answers_batch
settled_refuses rt x copy db student question raw items keyed stored closed e own =
    let one =
      refuses rt x db keyed stored closed student copy (λ l. upsert_answer l question raw) e in
    let many = refuses rt x db keyed stored closed student copy (λ l. upsert_all l items) e in
    (one.0, one.1, many.0, many.1, resubmits rt x db keyed stored closed student copy e own)
