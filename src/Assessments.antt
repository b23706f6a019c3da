-- ===== src/Assessments.antt =====
-- backend/assessments/models.py: the rows of continuous assessment. Marks and weights are in
-- hundredths. A foreign key that is only followed is the row itself.
pub mod Items
use senet.Prelude.{ℕ, Bool, Option}
use senet.Prelude.Text.{Text}
use senet.Accounts.{Course}

pub data Kind : Type 0 where
  assignment test project : Kind

pub record AssessmentItem : Type 0 where
  pub id : ℕ
  pub institution_id : ℕ
  pub course : Course
  pub session_id : ℕ
  pub semester_id : ℕ
  pub created_by : ℕ
  pub title : Text
  pub kind : Kind
  pub max_score : ℕ
  pub weight : ℕ
  pub due_date : ℕ

-- `file` stands for the stored upload
pub record Submission : Type 0 where
  pub id : ℕ
  pub institution_id : ℕ
  pub item_id : ℕ
  pub student_id : ℕ
  pub file : ℕ
  pub original_filename : Text
  pub submitted_at : ℕ
  pub is_late : Bool

pub record AssessmentGrade : Type 0 where
  pub id : ℕ
  pub institution_id : ℕ
  pub item : AssessmentItem
  pub student_id : ℕ
  pub submission : Option ℕ
  pub score : ℕ
  pub feedback : Text
  pub graded_by : ℕ
  pub is_released : Bool
