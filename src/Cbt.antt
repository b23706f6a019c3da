-- ===== src/Cbt.antt =====
-- backend/cbt/models.py: question banks, exams, attempts and what hangs off them. Marks are in
-- hundredths, moments are numbers of microseconds. The question of a drawn row is the row itself,
-- since no code changes a question; exams and attempts change, so they are looked up by key.
pub mod Marking
pub mod Access
pub mod Values
pub mod Assembly
pub mod Authoring
pub mod Ca
pub mod Answers
pub mod Finalizing
pub mod Attempts
pub mod Proctoring
use senet.Prelude.{ℕ, ◌*◌, Bool, true, false, ◌||◌, Option, List, ◌==◌}
use senet.Prelude.Text.{Text}
use senet.Prelude.Int.{ℤ}
use senet.Accounts.{Course}

-- `QuestionType`
pub data QuestionType : Type 0 where
  mcq multi true_false fill_blank short_answer : QuestionType

-- `is_choice`
abbrev pub is_choice : QuestionType → Bool
is_choice mcq = true
is_choice multi = true
is_choice _ = false

-- `is_objective`
abbrev pub is_objective : QuestionType → Bool
is_objective short_answer = false
is_objective _ = true

-- A JSON value as a request gives it. What the code only prints carries the text that `str` gives.
pub data Scalar : Type 0 where
  null : Scalar
  integer : ℤ → Scalar
  boolean : Bool → Scalar
  string : Text → Scalar
  other : Text → Scalar

pub data Value : Type 0 where
  scalar : Scalar → Value
  list : Text → List Scalar → Value

-- `correct_answer`, in the shape that the type of the question asks for
pub data Key : Type 0 where
  no_key : Key
  key_index : ℕ → Key
  key_indices : List ℕ → Key
  key_truth : Bool → Key
  key_words : List Text → Key

-- `Answer.response`, in the stored form
pub data Response : Type 0 where
  nothing : Response
  index : ℕ → Response
  indices : List ℕ → Response
  truth : Bool → Response
  words : Text → Response

pub record QuestionBank : Type 0 where
  pub id : ℕ
  pub institution_id : ℕ
  pub course : Course
  pub title : Text
  pub description : Text
  pub created_by : ℕ

pub record Question : Type 0 where
  pub id : ℕ
  pub institution_id : ℕ
  pub bank_id : ℕ
  pub question_type : QuestionType
  pub prompt : Text
  pub options : List Text
  pub correct_answer : Key
  pub marks : ℕ
  pub requires_manual_grading : Bool
  pub difficulty : Text
  pub topic : Text
  pub created_by : ℕ
  pub created_at : ℕ

-- `Exam.ExamType`
pub data ExamType : Type 0 where
  ca main : ExamType

pub record Exam : Type 0 where
  pub id : ℕ
  pub institution_id : ℕ
  pub course : Course
  pub session_id : ℕ
  pub semester_id : ℕ
  pub created_by : ℕ
  pub banks : List ℕ
  pub assessment_item : Option ℕ
  pub title : Text
  pub exam_type : ExamType
  pub duration_minutes : ℕ
  pub opens_at : ℕ
  pub closes_at : ℕ
  pub num_questions : ℕ
  pub shuffle_questions : Bool
  pub shuffle_options : Bool
  pub pass_mark : ℕ

-- `AttemptStatus`
pub data AttemptStatus : Type 0 where
  in_progress submitted auto_submitted graded : AttemptStatus

abbrev attempt_status_index : AttemptStatus → ℕ
attempt_status_index in_progress = 0
attempt_status_index submitted = 1
attempt_status_index auto_submitted = 2
attempt_status_index graded = 3

abbrev pub eq_attempt_status : AttemptStatus → AttemptStatus → Bool
eq_attempt_status a b = attempt_status_index a == attempt_status_index b

pub record ExamAttempt : Type 0 where
  pub id : ℕ
  pub institution_id : ℕ
  pub exam_id : ℕ
  pub student_id : ℕ
  pub started_at : ℕ
  pub deadline : ℕ
  pub submitted_at : Option ℕ
  pub status : AttemptStatus
  pub score : Option ℕ
  pub max_score : Option ℕ
  pub requires_manual_grading : Bool

-- one row of the frozen paper; `option_order[display_index] = original_option_index`
pub record AttemptQuestion : Type 0 where
  pub institution_id : ℕ
  pub attempt_id : ℕ
  pub question : Question
  pub position : ℕ
  pub option_order : List ℕ

pub record Answer : Type 0 where
  pub id : ℕ
  pub institution_id : ℕ
  pub attempt_id : ℕ
  pub question_id : ℕ
  pub response : Response
  pub is_correct : Option Bool
  pub awarded_marks : Option ℕ
  pub graded_manually : Bool

-- What the interpreter provides: `str.lower`, and the draws of `secrets.SystemRandom`. The
-- shuffle is also told the place of the question, since each call may give another order.
pub record Runtime : Type 0 where
  pub lower : Text → Text
  pub sample : List Question → ℕ → List Question
  pub shuffle : ℕ → List ℕ → List ℕ
