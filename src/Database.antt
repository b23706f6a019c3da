-- ===== src/Database.antt =====
-- The tables that the services share, the clock (`timezone.now()`), the tasks queued on commit,
-- and the supply of fresh primary keys.
use senet.Prelude.{ℕ, List}
use senet.Accounts.{Academic}
use senet.Assessments.{AssessmentItem, Submission, AssessmentGrade}
use senet.Cbt.{QuestionBank, Question, Exam, ExamAttempt, AttemptQuestion, Answer}
use senet.Results.{
  CourseResult, StudentScore, ExternalExaminerReport, ResultAmendment, ResultAuditLog, Notice,
}

pub record Db : Type 0 where
  pub academic : Academic
  pub items : List AssessmentItem
  pub submissions : List Submission
  pub grades : List AssessmentGrade
  pub results : List CourseResult
  pub scores : List StudentScore
  pub amendments : List ResultAmendment
  pub reports : List ExternalExaminerReport
  pub banks : List QuestionBank
  pub questions : List Question
  pub exams : List Exam
  pub attempts : List ExamAttempt
  pub papers : List AttemptQuestion
  pub answers : List Answer
  pub audit : List ResultAuditLog
  pub outbox : List Notice
  pub now : ℕ
  pub next_id : ℕ
