-- ===== src/Cbt/Finalizing.antt =====
-- The settling of attempts: `_finalize`, `_grade_objective`, `finalize_if_expired` and
-- `finalize_expired_attempts` of backend/cbt/services.py. One call reads the clock once.
pub mod Settled
pub mod Synced
pub mod Swept
pub mod Frozen
pub mod Totals
use senet.Prelude.{
  ℕ, zero, suc, ◌+◌, Bool, true, false, not, ◌&&◌, ◌||◌, Option, none, some, List, [], ◌∷◌, ◌==◌,
  ltb, leb, filter, first, save, map, if◌then◌else◌,
}
use senet.Prelude.Text.{Text}
use senet.Prelude.Sorting.{sort_by}
use senet.Exec.{does_not_exist, Exec, pure, gets, modify, or_raise, ◌>>=◌, ◌>>◌}
use senet.Cbt.{
  QuestionType, short_answer, Response, nothing, words, Question, Answer, AttemptQuestion,
  AttemptStatus, in_progress, submitted, auto_submitted, graded, eq_attempt_status, ExamAttempt,
  Runtime,
}
use senet.Cbt.Marking.{Outcome, grade_answer}
use senet.Cbt.Assembly.{of_attempt}
use senet.Cbt.Answers.{answer_key}
use senet.Cbt.Ca.{sync_ca_grade_for_attempt}
use senet.Database.{Db}

abbrev pub attempt_key : ExamAttempt → ℕ
attempt_key a = a.id

-- the totals of the loop
pub record PaperTotals : Type 0 where
  pub objective_total : ℕ
  pub max_total : ℕ
  pub manual_pending : Bool

-- `answers.get(question.id)`; an attempt has one answer to a question
abbrev pub answer_to : ℕ → ℕ → List Answer → Option Answer
answer_to attempt question = first (λ a. a.attempt_id == attempt && a.question_id == question)

-- `answer.response if answer else None`
abbrev pub response_of : Option Answer → Response
response_of none = nothing
response_of (some a) = a.response

-- `response not in (None, "")`
abbrev pub is_given : Response → Bool
is_given nothing = false
is_given (words []) = false
is_given _ = true

abbrev pub marked : Outcome → Answer → Answer
marked outcome a = record a {
  is_correct = some outcome.is_correct;
  awarded_marks = some outcome.awarded_marks;
  graded_manually = false;
}

-- `given` is the answer to the question
abbrev pub save_outcome : Option Answer → Option Outcome → List Answer → List Answer
save_outcome (some a) (some outcome) table = save answer_key (marked outcome a) table
save_outcome _ _ table = table

-- what one row of the paper adds
abbrev pub add_marks : ℕ → Option Answer → Option Outcome → PaperTotals → PaperTotals
add_marks marks given none t = record t {
  max_total = t.max_total + marks;
  manual_pending = t.manual_pending || is_given (response_of given);
}
add_marks marks given (some outcome) t = record t {
  objective_total = t.objective_total + outcome.awarded_marks;
  max_total = t.max_total + marks;
}

-- the loop over the rows of the paper, with the answers as they were before it
unfoldable pub grade_rows :
    (Text → Text)
    → ℕ
    → List Answer
    → List AttemptQuestion
    → PaperTotals
    → List Answer
    → PaperTotals × List Answer
unfolding grade_answer
grade_rows lower attempt given [] t table = (t, table)
grade_rows lower attempt given (row ∷ rows) t table =
    let answer = answer_to attempt row.question.id given in
    let outcome = grade_answer lower row.question (response_of answer) in
    grade_rows lower attempt given rows (add_marks row.question.marks answer outcome t)
      (save_outcome answer outcome table)

abbrev pub no_marks : PaperTotals
no_marks = record { objective_total = 0; max_total = 0; manual_pending = false }

-- `_grade_objective`: the totals, and the table of answers
unfoldable pub grade_objective : (Text → Text) → ℕ → Db → PaperTotals × List Answer
unfolding grade_rows
grade_objective lower attempt db =
    grade_rows lower attempt db.answers (filter (of_attempt attempt) db.papers) no_marks db.answers

abbrev pub settled_status : Bool → Bool → AttemptStatus
settled_status true true = auto_submitted
settled_status true false = submitted
settled_status false auto = graded

abbrev pub settled : PaperTotals → Bool → ℕ → ExamAttempt → ExamAttempt
settled t auto now a = record a {
  score = some t.objective_total;
  max_score = some t.max_total;
  requires_manual_grading = t.manual_pending;
  submitted_at = some now;
  status = settled_status t.manual_pending auto;
}

-- `_finalize`; the sync does nothing for an attempt that waits for a human
unfoldable pub finalize : Runtime → Bool → ExamAttempt → Db → Db
unfolding grade_objective sync_ca_grade_for_attempt
finalize rt auto attempt db =
    let (t, answers) = grade_objective rt.lower attempt.id db in
    let row = settled t auto db.now attempt in
    sync_ca_grade_for_attempt row
      (record db { answers = answers; attempts = save attempt_key row db.attempts })

-- `_lock_in_progress`
abbrev pub lock_in_progress : ℕ → Db → Option ExamAttempt
lock_in_progress attempt db =
    first (λ a. a.id == attempt && eq_attempt_status a.status in_progress) db.attempts

-- `attempt.refresh_from_db()`
abbrev pub refresh : ExamAttempt → Exec Db ExamAttempt
refresh attempt = do
  found ← gets (λ db. first (λ a. a.id == attempt.id) db.attempts)
  or_raise found does_not_exist

-- a locked row is settled once its deadline is past
abbrev pub finalize_late : Runtime → Option ExamAttempt → Db → Db
finalize_late rt none db = db
finalize_late rt (some locked) db =
    if ltb locked.deadline db.now then finalize rt true locked db else db

-- the attempt as the call leaves it in the hands of its caller
unfoldable pub finalize_if_expired : Runtime → ExamAttempt → Exec Db ExamAttempt
unfolding finalize
finalize_if_expired rt attempt db =
    if not (eq_attempt_status attempt.status in_progress) || leb db.now attempt.deadline
    then pure attempt db
    else refresh attempt (finalize_late rt (lock_in_progress attempt.id db) db)

abbrev pub is_due : ℕ → ExamAttempt → Bool
is_due now a = eq_attempt_status a.status in_progress && leb a.deadline now

abbrev pub sooner : ExamAttempt → ExamAttempt → Bool
sooner a b = leb a.deadline b.deadline

-- `[:limit]`
abbrev pub take {ℓ} : {A : Type ℓ} → ℕ → List A → List A
take zero xs = []
take (suc n) [] = []
take (suc n) (x ∷ xs) = x ∷ take n xs

abbrev pub candidate_ids : ℕ → Db → List ℕ
candidate_ids limit db =
    map attempt_key (take limit (sort_by sooner (filter (is_due db.now) db.attempts)))

-- whether the loop settles the row
abbrev settles : ℕ → Option ExamAttempt → Bool
settles now none = false
settles now (some a) = ltb a.deadline now

unfoldable pub finalize_each : Runtime → List ℕ → ℕ × Db → ℕ × Db
unfolding finalize
finalize_each rt [] acc = acc
finalize_each rt (id ∷ ids) (n, db) =
    let locked = lock_in_progress id db in
    finalize_each rt ids (if settles db.now locked then n + 1 else n, finalize_late rt locked db)

-- how many attempts were settled, and the tables
unfoldable pub finalize_expired_attempts : Runtime → ℕ → Db → ℕ × Db
unfolding finalize_each
finalize_expired_attempts rt limit db = finalize_each rt (candidate_ids limit db) (0, db)
