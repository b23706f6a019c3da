-- ===== src/Results/Scores.antt =====
-- Creating a result sheet and entering scores: `create_draft_result` and `record_score` of
-- backend/results/services.py.
use senet.Prelude.{
  ℕ, ◌+◌, ◌*◌, Bool, true, false, not, ◌&&◌, Option, none, some, [], ◌∷◌, ◌++◌, ◌==◌, exists, first,
  if◌then◌else◌,
}
use senet.Prelude.Text.{Text}
use senet.Prelude.Int.{ℤ, pos, pos_part, within}
use senet.Exec.{
  ok, validation, permission_denied, integrity_error, index_error, Exec, pure, raise, gets, check,
  check_errors, or_raise, atomic, on_integrity_error, ◌>>=◌, ◌>>◌,
}
use senet.Tenancy.{Institution}
use senet.Accounts.{
  User, Course, Session, Semester, Enrolment, effective_ca_weight, effective_exam_weight,
}
use senet.Accounts.Access.{lecturer_can_access_course}
use senet.Accounts.Enrolments.{error_if}
use senet.Grading.Scales.{grade_for_score}
use senet.Assessments.Items.{aggregate_ca_for_student}
use senet.Results.{CourseResult, StudentScore, nothing, of_status}
use senet.Results.Status.{draft, is_editable, AuditAction}
use senet.Results.Rows.{
  locked_result, is_current_for, insert_score, save_score, log, score_snapshot,
}
use senet.Results.Pipeline.{owns_result}
use senet.Database.{Db}

abbrev pub sheet_of : ℕ → ℕ → ℕ → CourseResult → Bool
sheet_of course session semester r =
    r.course.id == course && r.session.id == session && r.semester.id == semester

-- `CourseResult.objects.create`, with `uniq_result_per_course_term`; the institution is the
-- lecturer's and must be there.
insert_result : User → Course → Session → Semester → Option Institution → Exec Db CourseResult
insert_result lecturer course session semester none db = raise integrity_error db
insert_result lecturer course session semester (some institution) db =
    if exists (sheet_of course.id session.id semester.id) db.results
    then raise integrity_error db
    else let row : CourseResult = record {
      id = db.next_id;
      institution = institution;
      course = course;
      session = session;
      semester = semester;
      lecturer_id = lecturer.id;
      status = draft;
      returned_reason = [];
    } in
      (ok row, record db { results = db.results ++ row ∷ []; next_id = db.next_id + 1 })

unfoldable pub create_draft_result : User → Course → Session → Semester → Exec Db CourseResult
unfolding insert_result log lecturer_can_access_course
create_draft_result lecturer course session semester = do
  check (semester.session_id == session.id) (validation ("semester" ∷ []))
  access ←
      gets (λ db. lecturer_can_access_course db.academic lecturer course.id session.id semester.id)
  check access (permission_denied "You are not assigned to this course for the selected term.")
  on_integrity_error
      (atomic (do
        result ← insert_result lecturer course session semester lecturer.institution
        log result lecturer AuditAction.result_created none nothing (of_status draft) []
        pure result))
      (validation ("course" ∷ []))

abbrev pub enrolled_on : CourseResult → ℕ → Enrolment → Bool
enrolled_on result student e =
    e.institution_id == result.institution.id
    && e.student_id == student
    && e.course.id == result.course.id
    && e.session_id == result.session.id
    && e.semester_id == result.semester.id

-- the CA score given, or the aggregate of the graded items
ca_or_aggregate : Option ℤ → CourseResult → ℕ → Exec Db ℤ
ca_or_aggregate (some ca) result student = pure ca
ca_or_aggregate none result student = gets (λ db.
    pos (aggregate_ca_for_student db result.course.id result.session.id result.semester.id student))

-- The weights are whole points, the scores hundredths.
abbrev pub ca_max : CourseResult → ℕ
ca_max result = effective_ca_weight result.course * 100

abbrev pub exam_max : CourseResult → ℕ
exam_max result = effective_exam_weight result.course * 100

-- the current row of the student is changed in place, or a first one is added
unfoldable pub store_score :
    User → CourseResult → ℕ → ℕ → ℕ → Text → Option StudentScore → Exec Db StudentScore
store_score actor result student ca exam grade none = do
  row ← insert_score (record {
    id = 0;
    institution_id = result.institution.id;
    result_id = result.id;
    student_id = student;
    ca_score = ca;
    exam_score = exam;
    total = ca + exam;
    grade = grade;
    supersedes = none;
    is_current = true;
    created_at = 0;
  })
  log result actor AuditAction.score_added (some row.id) nothing (score_snapshot row) []
  pure row
store_score actor result student ca exam grade (some old) = do
  let row = record old { ca_score = ca; exam_score = exam; total = ca + exam; grade = grade }
  save_score false row
  log result actor AuditAction.score_changed (some row.id) (score_snapshot old) (score_snapshot row)
      []
  pure row

-- the block under the lock
unfoldable pub enter_score : User → ℕ → ℤ → Option ℤ → CourseResult → Exec Db StudentScore
unfolding ca_or_aggregate
enter_score actor student exam_score ca_score result = do
  check (owns_result actor result)
      (permission_denied "Only the lecturer who owns this result sheet can enter scores.")
  check (is_editable result.status)
      (permission_denied "This result has been submitted and is locked for editing.")
  access ← gets (λ db.
      lecturer_can_access_course db.academic actor result.course.id result.session.id
        result.semester.id)
  check access (permission_denied "You are not assigned to this course for this term.")
  enrolled ← gets (λ db. exists (enrolled_on result student) db.academic.enrolments)
  check enrolled (validation ("student" ∷ []))
  ca ← ca_or_aggregate ca_score result student
  check_errors (
      error_if (not (within ca (ca_max result))) "ca_score"
      ++ error_if (not (within exam_score (exam_max result))) "exam_score")
  letter ←
      or_raise (grade_for_score result.institution (pos_part ca + pos_part exam_score)) index_error
  row ← gets (λ db. first (is_current_for result.id student) db.scores)
  store_score actor result student (pos_part ca) (pos_part exam_score) letter.0 row

unfoldable pub record_score : User → ℕ → ℕ → ℤ → Option ℤ → Exec Db StudentScore
unfolding locked_result enter_score store_score insert_score save_score log
record_score actor result_id student exam_score ca_score =
    atomic (locked_result result_id actor >>= enter_score actor student exam_score ca_score)
