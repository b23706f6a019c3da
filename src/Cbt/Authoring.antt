-- ===== src/Cbt/Authoring.antt =====
-- Banks, questions and exams: the authoring calls of backend/cbt/services.py.
pub mod Checks
pub mod Answerable
pub mod Scheduled
use senet.Prelude.{
  ℕ, ◌+◌, Bool, true, false, not, ◌&&◌, ◌||◌, Option, none, some, List, [], ◌∷◌, ◌++◌, String, ◌==◌,
  ltb, leb, length, exists, filter, map, if◌then◌else◌,
}
use senet.Prelude.Text.{Text, eq_text, is_empty, strip}
use senet.Prelude.Int.{ℤ, pos, negsuc, pos_part, positive, within}
use senet.Prelude.Sets.{sorted_set, has}
use senet.Exec.{
  Error, Result, ok, err, validation, permission_denied, integrity_error, Exec, pure, raise, gets,
  check, check_errors, modify, ◌>>=◌, ◌>>◌,
}
use senet.Accounts.{User, Course, Session, Semester, institution_id}
use senet.Accounts.Enrolments.{error_if}
use senet.Cbt.{
  QuestionType, mcq, multi, true_false, fill_blank, short_answer, Scalar, null, integer, boolean,
  string, other, Value, scalar, list, Key, no_key, key_index, key_indices, key_truth, key_words,
  QuestionBank, Question, Exam, ExamType,
}
use senet.Cbt.Authoring.Checks.{Payload, validate_question_payload}
use senet.Results.{exam_scheduled}
use senet.Cbt.Access.{can_manage_bank, can_manage_exam}
use senet.Cbt.Assembly.{bank_question_pool}
use senet.Database.{Db}

-- `QuestionBank.all_objects.create`, with `uniq_bank_title_per_course`; the row is stamped with
-- the actor's institution, which must be there.
insert_bank : QuestionBank → Option ℕ → Exec Db QuestionBank
insert_bank row none db = raise integrity_error db
insert_bank row (some institution) db =
    let made = record row { id = db.next_id; institution_id = institution } in
    if exists (λ b. b.course.id == row.course.id && eq_text b.title row.title) db.banks
    then raise integrity_error db
    else (ok made, record db { banks = db.banks ++ made ∷ []; next_id = db.next_id + 1 })

unfoldable pub create_question_bank : User → Course → Text → Text → Exec Db QuestionBank
unfolding can_manage_bank insert_bank
create_question_bank actor course title description = do
  may ← gets (λ db. can_manage_bank db.academic actor course)
  check may (permission_denied "You are not permitted to manage banks for this course.")
  taken ← gets (λ db. exists (λ b. b.course.id == course.id && eq_text b.title title) db.banks)
  check (not taken) (validation ("title" ∷ []))
  insert_bank
      (record {
        id = 0;
        institution_id = 0;
        course = course;
        title = title;
        description = description;
        created_by = actor.id;
      })
      (institution_id actor)

abbrev from_result {ℓ} : {S A : Type ℓ} → Result A → Exec S A
from_result r s = (r, s)

-- `Question.all_objects.create`
insert_question : Question → Option ℕ → Exec Db Question
insert_question row none db = raise integrity_error db
insert_question row (some institution) db =
    let made = record row { id = db.next_id; institution_id = institution; created_at = db.now } in
    (ok made, record db { questions = db.questions ++ made ∷ []; next_id = db.next_id + 1 })

unfoldable pub create_question :
    User → QuestionBank → QuestionType → Text → Value → Value → ℤ → Text → Text → Exec Db Question
unfolding can_manage_bank validate_question_payload insert_question
create_question actor bank question_type prompt options answer marks difficulty topic = do
  may ← gets (λ db. can_manage_bank db.academic actor bank.course)
  check may (permission_denied "You are not permitted to manage this bank.")
  payload ← from_result (validate_question_payload question_type options answer)
  check (positive marks) (validation ("marks" ∷ []))
  insert_question
      (record {
        id = 0;
        institution_id = 0;
        bank_id = bank.id;
        question_type = question_type;
        prompt = prompt;
        options = payload.options;
        correct_answer = payload.correct_answer;
        marks = pos_part marks;
        requires_manual_grading = payload.requires_manual;
        difficulty = difficulty;
        topic = topic;
        created_by = actor.id;
        created_at = 0;
      })
      (institution_id actor)

-- the arguments of `create_exam` that it checks or only stores
pub record ExamRequest : Type 0 where
  pub title : Text
  pub exam_type : ExamType
  pub duration_minutes : ℤ
  pub opens_at : ℕ
  pub closes_at : ℕ
  pub num_questions : ℤ
  pub shuffle_questions : Bool
  pub shuffle_options : Bool
  pub pass_mark : ℤ

abbrev bank_errors : Course → List QuestionBank → List String
bank_errors course [] = "banks" ∷ []
bank_errors course (b ∷ bs) =
    error_if (exists (λ (x : QuestionBank). not (x.course.id == course.id)) (b ∷ bs)) "banks"

-- the `errors` of `create_exam`; 100 percent is 10000 hundredths
unfoldable pub exam_errors : Course → List QuestionBank → ExamRequest → List String
exam_errors course banks r =
    bank_errors course banks
    ++ (error_if (leb r.closes_at r.opens_at) "closes_at"
        ++ (error_if (not (positive r.duration_minutes)) "duration_minutes"
            ++ (error_if (not (positive r.num_questions)) "num_questions"
                ++ error_if (not (within r.pass_mark 10000)) "pass_mark")))

-- the row of a new exam
abbrev pub exam_row :
    User → Course → Session → Semester → List QuestionBank → ExamRequest → ℕ → ℕ → Exam
exam_row actor course session semester banks r id institution = record {
  id = id;
  institution_id = institution;
  course = course;
  session_id = session.id;
  semester_id = semester.id;
  created_by = actor.id;
  banks = map (λ (b : QuestionBank). b.id) banks;
  assessment_item = none;
  title = r.title;
  exam_type = r.exam_type;
  duration_minutes = pos_part r.duration_minutes;
  opens_at = r.opens_at;
  closes_at = r.closes_at;
  num_questions = pos_part r.num_questions;
  shuffle_questions = r.shuffle_questions;
  shuffle_options = r.shuffle_options;
  pass_mark = pos_part r.pass_mark;
}

-- `Exam.all_objects.create` and `banks.set`
unfoldable pub insert_exam : (ℕ → ℕ → Exam) → Option ℕ → Exec Db Exam
insert_exam row none db = raise integrity_error db
insert_exam row (some institution) db =
    let made = row db.next_id institution in
    (ok made, record db { exams = db.exams ++ made ∷ []; next_id = db.next_id + 1 })

unfoldable pub create_exam :
    User → Course → Session → Semester → List QuestionBank → ExamRequest → Exec Db Exam
unfolding can_manage_exam exam_errors insert_exam bank_question_pool
create_exam actor course session semester banks r = do
  check (semester.session_id == session.id) (validation ("semester" ∷ []))
  may ← gets (λ db. can_manage_exam db.academic actor course session.id semester.id)
  check may (permission_denied "You are not assigned to this course for the selected term.")
  check_errors (exam_errors course banks r)
  exam ← insert_exam (exam_row actor course session semester banks r) (institution_id actor)
  available ← gets (λ db. length (bank_question_pool exam db))
  check (leb exam.num_questions available) (validation ("num_questions" ∷ []))
  modify (λ db. record db { outbox = db.outbox ++ exam_scheduled exam.id ∷ [] })
  pure exam
