-- ===== src/Cbt/Assembly.antt =====
-- backend/cbt/assembly.py: the frozen paper of an attempt.
pub mod Paper
use senet.Prelude.{
  ℕ, suc, ◌+◌, Bool, true, false, ◌&&◌, ◌||◌, List, [], ◌∷◌, ◌++◌, ◌==◌, ltb, leb, length, exists,
  filter, if◌then◌else◌,
}
use senet.Prelude.Sorting.{sort_by}
use senet.Prelude.Sets.{has, range_from}
use senet.Exec.{Exec, Error, validation, check, gets, modify, pure, ◌>>=◌, ◌>>◌}
use senet.Cbt.{QuestionType, is_choice, Question, Exam, ExamAttempt, AttemptQuestion, Runtime}
use senet.Database.{Db}

-- `order_by("created_at", "id")`
abbrev pub older : Question → Question → Bool
older a b = ltb a.created_at b.created_at || a.created_at == b.created_at && leb a.id b.id

abbrev pub in_banks : Exam → Question → Bool
in_banks exam q = q.institution_id == exam.institution_id && has q.bank_id exam.banks

unfoldable pub bank_question_pool : Exam → Db → List Question
bank_question_pool exam db = sort_by older (filter (in_banks exam) db.questions)

-- `_option_order`, for the question at a position
unfoldable pub option_order : Runtime → Bool → ℕ → Question → List ℕ
option_order rt shuffle_options position question =
    let order = range_from 0 (length question.options) in
    if is_choice question.question_type
    then if shuffle_options then rt.shuffle position order else order
    else []

-- the loop over `enumerate(drawn)`, from a position on
unfoldable pub paper_rows : Runtime → ExamAttempt → Exam → ℕ → List Question → List AttemptQuestion
unfolding option_order
paper_rows rt attempt exam position [] = []
paper_rows rt attempt exam position (q ∷ qs) =
    record {
      institution_id = attempt.institution_id;
      attempt_id = attempt.id;
      question = q;
      position = position;
      option_order = option_order rt exam.shuffle_options position q;
    }
    ∷ paper_rows rt attempt exam (suc position) qs

-- the sample, in a canonical order where the exam is not shuffled
abbrev pub drawn : Runtime → Exam → List Question → List Question
drawn rt exam pool =
    let picked = rt.sample pool exam.num_questions in
    if exam.shuffle_questions then picked else sort_by older picked

abbrev pub of_attempt : ℕ → AttemptQuestion → Bool
of_attempt attempt row = row.attempt_id == attempt

unfoldable pub draw_paper : Runtime → ExamAttempt → Exam → Exec Db (Unit {0})
unfolding bank_question_pool paper_rows
draw_paper rt attempt exam = do
  pool ← gets (bank_question_pool exam)
  check (leb exam.num_questions (length pool)) (validation ("num_questions" ∷ []))
  modify
      (λ db. record db { papers = db.papers ++ paper_rows rt attempt exam 0 (drawn rt exam pool) })

-- nothing is drawn where the attempt has a paper
unfoldable pub assemble_attempt_questions : Runtime → ExamAttempt → Exam → Exec Db (Unit {0})
unfolding draw_paper
assemble_attempt_questions rt attempt exam db =
    if exists (of_attempt attempt.id) db.papers then pure tt db else draw_paper rt attempt exam db
