-- ===== src/Cbt/Ca.antt =====
-- backend/cbt/ca.py: a marked attempt as the grade of a continuous assessment item.
pub mod Scaled
use senet.Prelude.{
  ℕ, ◌+◌, Bool, true, false, not, ◌&&◌, ◌||◌, Option, none, some, List, [], ◌∷◌, ◌++◌, ◌==◌, filter,
  first, save, if◌then◌else◌,
}
use senet.Prelude.Decimal.{hundredths, dec_div, dec_mul, quantize}
use senet.Exec.{Error, validation, permission_denied, Exec, pure, gets, check, modify, ◌>>=◌, ◌>>◌}
use senet.Accounts.{User}
use senet.Assessments.{AssessmentItem, AssessmentGrade}
use senet.Assessments.Items.{is_grade}
use senet.Cbt.{Exam, ExamAttempt, AttemptStatus, graded, eq_attempt_status}
use senet.Cbt.Access.{can_manage_exam}
use senet.Database.{Db}

-- the exam of an attempt, looked up anew
abbrev pub exam_of : ExamAttempt → Db → Option Exam
exam_of attempt db = first (λ e. e.id == attempt.exam_id) db.exams

-- `(ratio * item.max_score).quantize(TWO_DP)`
unfoldable pub scaled_score : ℕ → ℕ → ℕ → ℕ
unfolding dec_div dec_mul quantize
scaled_score score max_score item_max =
    quantize (dec_mul (dec_div (hundredths score) (hundredths max_score)) (hundredths item_max))

-- `update_or_create` of the grade
unfoldable pub upsert_grade :
    ExamAttempt → Exam → AssessmentItem → ℕ → Option AssessmentGrade → Db → Db
upsert_grade attempt exam item scaled none db =
    let row : AssessmentGrade = record {
      id = db.next_id;
      institution_id = attempt.institution_id;
      item = item;
      student_id = attempt.student_id;
      submission = none;
      score = scaled;
      feedback = [];
      graded_by = exam.created_by;
      is_released = true;
    } in
    record db { grades = db.grades ++ row ∷ []; next_id = db.next_id + 1 }
upsert_grade attempt exam item scaled (some grade) db =
    let row = record grade {
      institution_id = attempt.institution_id;
      score = scaled;
      graded_by = exam.created_by;
      is_released = true;
    } in
    record db { grades = save (λ g. g.id) row db.grades }

-- with the item found, and marks that are there and not zero
abbrev pub sync_grade : ExamAttempt → Exam → Option AssessmentItem → Option ℕ → Option ℕ → Db → Db
sync_grade attempt exam (some item) (some score) (some max_score) db =
    if max_score == 0
    then db
    else upsert_grade attempt exam item (scaled_score score max_score item.max_score)
        (first (is_grade item.id attempt.student_id) db.grades) db
sync_grade attempt exam _ _ _ db = db

abbrev pub linked_item : Option ℕ → Db → Option AssessmentItem
linked_item none db = none
linked_item (some id) db = first (λ i. i.id == id) db.items

abbrev pub sync_exam : ExamAttempt → Option Exam → Db → Db
sync_exam attempt none db = db
sync_exam attempt (some exam) db =
    sync_grade attempt exam (linked_item exam.assessment_item db) attempt.score attempt.max_score db

-- nothing is done for an attempt that is not marked, or whose exam is not linked
unfoldable pub sync_ca_grade_for_attempt : ExamAttempt → Db → Db
unfolding scaled_score upsert_grade
sync_ca_grade_for_attempt attempt db =
    if eq_attempt_status attempt.status graded
    then sync_exam attempt (exam_of attempt db) db
    else db

sync_all : List ExamAttempt → Db → Db
sync_all [] db = db
sync_all (a ∷ attempts) db = sync_all attempts (sync_ca_grade_for_attempt a db)

abbrev same_term : AssessmentItem → Exam → Bool
same_term item exam =
    item.course.id == exam.course.id
    && item.session_id == exam.session_id
    && item.semester_id == exam.semester_id

abbrev marked_of : Exam → ExamAttempt → Bool
marked_of exam a = a.exam_id == exam.id && eq_attempt_status a.status graded

unfoldable pub link_exam_to_ca_item : User → Exam → AssessmentItem → Exec Db Exam
unfolding can_manage_exam sync_all sync_ca_grade_for_attempt
link_exam_to_ca_item actor exam item = do
  may ← gets (λ db. can_manage_exam db.academic actor exam.course exam.session_id exam.semester_id)
  check may
      (permission_denied "Only the assigned lecturer (or an admin in scope) can link this exam.")
  check (item.institution_id == exam.institution_id) (validation ("item" ∷ []))
  check (same_term item exam) (validation ("item" ∷ []))
  let linked = record exam { assessment_item = some item.id }
  modify (λ db. record db { exams = save (λ e. e.id) linked db.exams })
  marked ← gets (λ db. filter (marked_of exam) db.attempts)
  modify (sync_all marked)
  pure linked
