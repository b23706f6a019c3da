-- ===== src/Cbt/Attempts.antt =====
-- The life of an attempt: starting, saving and submitting, of backend/cbt/services.py. A call gets
-- the row that its caller read, which may be older than the table's.
pub mod Closed
pub mod LastWrite
pub mod Refused
use senet.Prelude.{
  ℕ, ◌+◌, ◌*◌, Bool, true, false, not, ◌&&◌, Option, none, some, List, [], ◌∷◌, ◌++◌, ◌==◌, ltb,
  leb, min, exists, first, if◌then◌else◌,
}
use senet.Exec.{permission_denied, Exec, pure, raise, gets, check, modify, atomic, ◌>>=◌, ◌>>◌}
use senet.Accounts.{User, Enrolment}
use senet.Accounts.Access.{enrolled_in}
use senet.Cbt.{
  Value, Exam, ExamAttempt, AttemptStatus, in_progress, eq_attempt_status, Answer, Runtime,
}
use senet.Cbt.Assembly.{assemble_attempt_questions}
use senet.Cbt.Answers.{upsert_answer}
use senet.Cbt.Finalizing.{finalize, finalize_if_expired, lock_in_progress, refresh}
use senet.Database.{Db}

-- the enrolment that `_require_can_attempt` asks for
abbrev pub takes_course : User → Exam → Enrolment → Bool
takes_course student exam e =
    e.institution_id == exam.institution_id
    && enrolled_in student exam.course.id exam.session_id exam.semester_id e

unfoldable pub require_can_attempt : User → Exam → Exec Db (Unit {0})
require_can_attempt student exam = do
  enrolled ← gets (λ db. exists (takes_course student exam) db.academic.enrolments)
  check enrolled (permission_denied "You are not enrolled in this course for this term.")
  now ← gets (λ db. db.now)
  check (leb exam.opens_at now) (permission_denied "This exam has not opened yet.")
  check (leb now exam.closes_at) (permission_denied "This exam has closed.")

-- `timedelta(minutes=1)`
abbrev pub minute : ℕ
minute = 60000000

abbrev pub deadline_of : Exam → ℕ → ℕ
deadline_of exam now = min (now + exam.duration_minutes * minute) exam.closes_at

abbrev pub of_student : ℕ → ℕ → ExamAttempt → Bool
of_student exam student a = a.exam_id == exam && a.student_id == student

abbrev pub fresh_attempt : User → Exam → ℕ → ℕ → ExamAttempt
fresh_attempt student exam id now = record {
  id = id;
  institution_id = exam.institution_id;
  exam_id = exam.id;
  student_id = student.id;
  started_at = now;
  deadline = deadline_of exam now;
  submitted_at = none;
  status = in_progress;
  score = none;
  max_score = none;
  requires_manual_grading = false;
}

-- `get_or_create`: the attempt, and whether it was created
abbrev pub get_or_create : User → Exam → Option ExamAttempt → Exec Db (ExamAttempt × Bool)
get_or_create student exam (some attempt) = pure (attempt, false)
get_or_create student exam none = λ db.
    let row = fresh_attempt student exam db.next_id db.now in
    pure (row, true) (record db { attempts = db.attempts ++ row ∷ []; next_id = db.next_id + 1 })

abbrev pub attempt_of : User → Exam → Db → Option ExamAttempt
attempt_of student exam db = first (of_student exam.id student.id) db.attempts

unfoldable pub begin_attempt : Runtime → User → Exam → Exec Db ExamAttempt
unfolding require_can_attempt assemble_attempt_questions finalize_if_expired
begin_attempt rt student exam = do
  require_can_attempt student exam
  again ← gets (attempt_of student exam)
  (attempt, created) ← get_or_create student exam again
  if created
      then assemble_attempt_questions rt attempt exam >> pure attempt
      else finalize_if_expired rt attempt

abbrev pub resume_or_begin : Runtime → User → Exam → Option ExamAttempt → Exec Db ExamAttempt
resume_or_begin rt student exam (some existing) = finalize_if_expired rt existing
resume_or_begin rt student exam none = begin_attempt rt student exam

unfoldable pub start_attempt : Runtime → User → Exam → Exec Db ExamAttempt
unfolding finalize_if_expired begin_attempt
start_attempt rt student exam =
    atomic (do existing ← gets (attempt_of student exam); resume_or_begin rt student exam existing)

abbrev pub require_owner : ExamAttempt → User → Exec Db (Unit {0})
require_owner attempt student =
    check (attempt.student_id == student.id)
      (permission_denied "This attempt does not belong to you.")

-- `_reject_closed_attempt`
unfoldable pub reject_closed_attempt : Runtime → ExamAttempt → Exec Db (Unit {0})
unfolding finalize_if_expired
reject_closed_attempt rt attempt = do
  now_is ← finalize_if_expired rt attempt
  check (eq_attempt_status now_is.status in_progress) (
      permission_denied
        "This attempt is closed; the deadline has passed or it was already submitted.")

-- the row that was locked, or the refusal: `refresh_from_db` on the way to it raises where no row
-- is stored
abbrev pub locked_or_refuse : ExamAttempt → Option ExamAttempt → Exec Db ExamAttempt
locked_or_refuse attempt none =
    refresh attempt >> raise (permission_denied "This attempt is closed; the deadline has passed.")
locked_or_refuse attempt (some locked) = pure locked

-- the lock of a save, and its refusal
abbrev pub lock_or_refuse : ExamAttempt → Exec Db ExamAttempt
lock_or_refuse attempt = do
  found ← gets (lock_in_progress attempt.id)
  locked_or_refuse attempt found

-- what the two saves share: the owner, the deadline, and the lock under which `write` runs
unfoldable pub under_lock :
    {A : Type 0} → Runtime → User → ExamAttempt → (ExamAttempt → Exec Db A) → Exec Db A
unfolding reject_closed_attempt
under_lock rt student attempt write = do
  require_owner attempt student
  reject_closed_attempt rt attempt
  atomic (do locked ← lock_or_refuse attempt; write locked)

unfoldable pub save_answer : Runtime → User → ExamAttempt → ℕ → Value → Exec Db Answer
unfolding under_lock upsert_answer
save_answer rt student attempt question raw =
    under_lock rt student attempt (λ locked. upsert_answer locked question raw)

unfoldable pub upsert_all : ExamAttempt → List (ℕ × Value) → Exec Db (List Answer)
unfolding upsert_answer
upsert_all locked [] = pure []
upsert_all locked ((question, raw) ∷ items) = do
  answer ← upsert_answer locked question raw
  rest ← upsert_all locked items
  pure (answer ∷ rest)

unfoldable pub save_answers_batch :
    Runtime → User → ExamAttempt → List (ℕ × Value) → Exec Db (List Answer)
unfolding under_lock upsert_all
save_answers_batch rt student attempt items =
    under_lock rt student attempt (λ locked. upsert_all locked items)

abbrev pub finalize_locked : Runtime → Option ExamAttempt → Db → Db
finalize_locked rt none db = db
finalize_locked rt (some locked) db = finalize rt (ltb locked.deadline db.now) locked db

unfoldable pub submit_attempt : Runtime → User → ExamAttempt → Exec Db ExamAttempt
unfolding finalize
submit_attempt rt student attempt = do
  require_owner attempt student
  modify (λ db. finalize_locked rt (lock_in_progress attempt.id db) db)
  refresh attempt
