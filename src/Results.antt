-- ===== src/Results.antt =====
-- backend/results/models.py: result sheets, score rows, amendments, the audit log. Scores are in
-- hundredths; a foreign key that is only followed is the row itself.
pub mod Status
pub mod Rows
pub mod Pipeline
pub mod Scores
pub mod Amendments
pub mod Worklist
pub mod Anomaly
pub mod Steps
pub mod Examiners
use senet.Prelude.{ℕ, Bool, Option}
use senet.Prelude.Text.{Text}
use senet.Tenancy.{Institution}
use senet.Accounts.{Course, Session, Semester}
use senet.Results.Status.{ResultStatus, AmendmentStatus, AuditAction}

pub record CourseResult : Type 0 where
  pub id : ℕ
  pub institution : Institution
  pub course : Course
  pub session : Session
  pub semester : Semester
  pub lecturer_id : ℕ
  pub status : ResultStatus
  pub returned_reason : Text

pub record StudentScore : Type 0 where
  pub id : ℕ
  pub institution_id : ℕ
  pub result_id : ℕ
  pub student_id : ℕ
  pub ca_score : ℕ
  pub exam_score : ℕ
  pub total : ℕ
  pub grade : Text
  pub supersedes : Option ℕ
  pub is_current : Bool
  pub created_at : ℕ

pub record ExternalExaminerReport : Type 0 where
  pub id : ℕ
  pub institution_id : Option ℕ
  pub faculty_id : ℕ
  pub programme_id : ℕ
  pub session_id : ℕ
  pub semester_id : ℕ
  pub examiner_name : Text
  pub examiner_institution : Text
  pub audit_date : ℕ
  pub remarks : Text
  pub created_by : ℕ

pub record ResultAmendment : Type 0 where
  pub id : ℕ
  pub institution_id : ℕ
  pub result_id : ℕ
  pub student_id : ℕ
  pub original_score : ℕ
  pub proposed_ca_score : ℕ
  pub proposed_exam_score : ℕ
  pub proposed_total : ℕ
  pub proposed_grade : Text
  pub justification : Text
  pub status : AmendmentStatus
  pub returned_reason : Text
  pub raised_by : ℕ
  pub applied_score : Option ℕ

-- the JSON of `before` and `after` in an audit entry
pub data Snapshot : Type 0 where
  nothing : Snapshot
  of_status : ResultStatus → Snapshot
  -- student, CA score, exam score, total, grade
  of_score : ℕ → ℕ → ℕ → ℕ → Text → Snapshot
  -- the amendment, where named, and its status
  of_amendment : Option ℕ → Option AmendmentStatus → Snapshot

pub record ResultAuditLog : Type 0 where
  pub institution_id : ℕ
  pub result_id : ℕ
  pub score : Option ℕ
  pub actor_id : ℕ
  pub action : AuditAction
  pub before : Snapshot
  pub after : Snapshot
  pub reason : Text

-- what `transaction.on_commit` hands to the worker
pub data Notice : Type 0 where
  result_returned : ℕ → Text → Notice
  result_published : ℕ → Notice
  exam_scheduled : ℕ → Notice
