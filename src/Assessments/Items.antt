-- ===== src/Assessments/Items.antt =====
-- backend/assessments/services.py: items, submissions and grades of continuous assessment, and
-- the weighted total that enters a result sheet.
pub mod Weights
use senet.Prelude.{
  ℕ, ◌+◌, ◌*◌, Bool, true, false, not, ◌&&◌, ◌||◌, Option, none, some, List, [], ◌∷◌, ◌++◌, String,
  ◌==◌, ltb, same_key, exists, filter, first, save, sum_by, is_some, if◌then◌else◌,
}
use senet.Prelude.Text.{Text, eq_text}
use senet.Prelude.Int.{ℤ, pos_part, within, positive}
use senet.Prelude.Decimal.{Decimal, hundredths, dec_add, dec_mul, dec_div, quantize}
use senet.Exec.{
  Error, Result, ok, err, validation, permission_denied, integrity_error, Exec, pure, raise, gets,
  check, check_errors, modify, ◌>>=◌, ◌>>◌,
}
use senet.Accounts.{
  Role, User, Course, Session, Semester, Enrolment, institution_id, effective_ca_weight, key_of,
}
use senet.Accounts.Access.{lecturer_can_access_course}
use senet.Accounts.Enrolments.{error_if}
use senet.Assessments.{AssessmentItem, Submission, AssessmentGrade, Kind}
use senet.Database.{Db}

abbrev pub of_term : ℕ → ℕ → ℕ → AssessmentItem → Bool
of_term course session semester item =
    item.course.id == course && item.session_id == session && item.semester_id == semester

-- `eq_key exclude_pk (some id)` leaves one row out
unfoldable pub ca_weight_used : Db → ℕ → ℕ → ℕ → Option ℕ → ℕ
ca_weight_used db course session semester exclude_pk =
    sum_by (λ i. i.weight)
      (filter (λ i. of_term course session semester i && not (same_key exclude_pk (some i.id)))
        db.items)

abbrev not_assigned : Error
not_assigned = permission_denied "You are not assigned to this course for the selected term."

-- `_require_assigned_lecturer`
require_assigned_lecturer : User → ℕ → ℕ → ℕ → Exec Db (Unit {0})
unfolding lecturer_can_access_course
require_assigned_lecturer lecturer course session semester db =
    check (lecturer_can_access_course db.academic lecturer course session semester) not_assigned db

reads_grades : Role → Db → User → AssessmentItem → Bool
reads_grades Role.lecturer db user item =
    lecturer_can_access_course db.academic user item.course.id item.session_id item.semester_id
reads_grades Role.hod db user item = same_key user.department_id (some item.course.department.id)
reads_grades Role.dean db user item =
    same_key user.faculty_id (some item.course.department.faculty_id)
reads_grades Role.senate_admin db user item = true
reads_grades Role.school_admin db user item = true
reads_grades _ db user item = false

unfoldable pub can_read_item_grades : Db → User → AssessmentItem → Bool
unfolding reads_grades
can_read_item_grades db user item = reads_grades user.role db user item

-- the `errors["weight"]` of `create_item`, for a weight in hundredths against whole points
unfoldable pub weight_errors : ℤ → ℕ → ℕ → List String
weight_errors weight used portion =
    if positive weight
    then error_if (ltb (portion * 100) (used + pos_part weight)) "weight"
    else "weight" ∷ []

-- `AssessmentItem.all_objects.create`, with `uniq_item_title_per_course_term`; the row is stamped
-- with the lecturer's institution, which must be there.
unfoldable pub insert_item : AssessmentItem → Option ℕ → Exec Db AssessmentItem
insert_item row none db = raise integrity_error db
insert_item row (some institution) db =
    let made = record row { id = db.next_id; institution_id = institution } in
    if exists
      (λ i. of_term row.course.id row.session_id row.semester_id i && eq_text i.title row.title)
      db.items
    then raise integrity_error db
    else (ok made, record db { items = db.items ++ made ∷ []; next_id = db.next_id + 1 })

unfoldable pub create_item :
    User → Course → Session → Semester → Text → Kind → ℤ → ℤ → ℕ → Exec Db AssessmentItem
unfolding require_assigned_lecturer ca_weight_used weight_errors insert_item
create_item lecturer course session semester title kind max_score weight due_date = do
  check (semester.session_id == session.id) (validation ("semester" ∷ []))
  require_assigned_lecturer lecturer course.id session.id semester.id
  used ← gets (λ db. ca_weight_used db course.id session.id semester.id none)
  taken ← gets (λ db.
      exists (λ i. of_term course.id session.id semester.id i && eq_text i.title title) db.items)
  check_errors (
      error_if (not (positive max_score)) "max_score"
      ++ (weight_errors weight used (effective_ca_weight course) ++ error_if taken "title"))
  insert_item
      (record {
        id = 0;
        institution_id = 0;
        course = course;
        session_id = session.id;
        semester_id = semester.id;
        created_by = lecturer.id;
        title = title;
        kind = kind;
        max_score = pos_part max_score;
        weight = pos_part weight;
        due_date = due_date;
      })
      (institution_id lecturer)

abbrev pub enrolled_for : ℕ → ℕ → AssessmentItem → Enrolment → Bool
enrolled_for institution student item e =
    e.institution_id == institution
    && e.student_id == student
    && e.course.id == item.course.id
    && e.session_id == item.session_id
    && e.semester_id == item.semester_id

abbrev pub is_submission : ℕ → ℕ → Submission → Bool
is_submission item student s = s.item_id == item && s.student_id == student

abbrev pub is_grade : ℕ → ℕ → AssessmentGrade → Bool
is_grade item student g = g.item.id == item && g.student_id == student

-- a first upload, or the replacement of an earlier one
unfoldable pub store_submission :
    ℕ → AssessmentItem → ℕ → Text → Option Submission → Exec Db Submission
store_submission student item upload name none db =
    let row : Submission = record {
      id = db.next_id;
      institution_id = item.institution_id;
      item_id = item.id;
      student_id = student;
      file = upload;
      original_filename = name;
      submitted_at = db.now;
      is_late = ltb item.due_date db.now;
    } in
    (ok row, record db { submissions = db.submissions ++ row ∷ []; next_id = db.next_id + 1 })
store_submission student item upload name (some existing) db =
    let row = record existing {
      file = upload;
      original_filename = name;
      submitted_at = db.now;
      is_late = ltb item.due_date db.now;
    } in
    (ok row, record db { submissions = save (λ s. s.id) row db.submissions })

unfoldable pub submit_file : User → AssessmentItem → ℕ → Text → Exec Db Submission
unfolding store_submission
submit_file student item upload name = do
  enrolled ← gets (λ db.
      same_key (institution_id student) (some item.institution_id)
      && exists (enrolled_for item.institution_id student.id item) db.academic.enrolments)
  check enrolled (permission_denied "You are not enrolled in this course for this term.")
  existing ← gets (λ db. first (is_submission item.id student.id) db.submissions)
  graded ← gets (λ db. exists (is_grade item.id student.id) db.grades)
  check (not (is_some existing && graded)) (validation ("file" ∷ []))
  store_submission student.id item upload name existing

submission_id : Option Submission → Option ℕ
submission_id none = none
submission_id (some s) = some s.id

-- a new grade, or the change of the one recorded
unfoldable pub store_grade :
    ℕ
    → AssessmentItem
    → ℕ
    → ℕ
    → Text
    → Bool
    → Option ℕ
    → Option AssessmentGrade
    → Exec Db AssessmentGrade
store_grade lecturer item student score feedback is_released submission none db =
    let row : AssessmentGrade = record {
      id = db.next_id;
      institution_id = item.institution_id;
      item = item;
      student_id = student;
      submission = submission;
      score = score;
      feedback = feedback;
      graded_by = lecturer;
      is_released = is_released;
    } in
    (ok row, record db { grades = db.grades ++ row ∷ []; next_id = db.next_id + 1 })
store_grade lecturer item student score feedback is_released submission (some grade) db =
    let row = record grade {
      submission = submission;
      score = score;
      feedback = feedback;
      graded_by = lecturer;
      is_released = is_released;
    } in
    (ok row, record db { grades = save (λ g. g.id) row db.grades })

unfoldable pub grade_student :
    User → AssessmentItem → User → ℤ → Text → Bool → Exec Db AssessmentGrade
unfolding require_assigned_lecturer store_grade submission_id
grade_student lecturer item student score feedback is_released = do
  require_assigned_lecturer lecturer item.course.id item.session_id item.semester_id
  enrolled ←
      gets (λ db. exists (enrolled_for item.institution_id student.id item) db.academic.enrolments)
  check enrolled (validation ("student" ∷ []))
  check (within score item.max_score) (validation ("score" ∷ []))
  submission ← gets (λ db. first (is_submission item.id student.id) db.submissions)
  grade ← gets (λ db. first (is_grade item.id student.id) db.grades)
  store_grade lecturer.id item student.id (pos_part score) feedback is_released
      (submission_id submission) grade

-- the loop of `aggregate_ca_for_student`
weighted_from : Decimal → List AssessmentGrade → Decimal
weighted_from total [] = total
weighted_from total (grade ∷ grades) =
    let item = grade.item in
    weighted_from
      (dec_add total (
        dec_mul (dec_div (hundredths grade.score) (hundredths item.max_score))
          (hundredths item.weight)))
      grades

-- in hundredths of a point
unfoldable pub aggregate_ca_for_student : Db → ℕ → ℕ → ℕ → ℕ → ℕ
unfolding weighted_from dec_add dec_mul dec_div quantize
aggregate_ca_for_student db course session semester student = quantize (
    weighted_from (hundredths 0)
      (filter (λ g. of_term course session semester g.item && g.student_id == student) db.grades))
