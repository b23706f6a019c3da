-- ===== src/Results/Worklist.antt =====
-- What each role sees and what waits on it: the query sets of backend/results/services.py. They
-- start from the default manager, so from the rows of the institution that the request is bound
-- to.
pub mod Inbox
use senet.Prelude.{
  ℕ, Bool, true, false, ◌&&◌, Option, none, some, List, [], ◌∷◌, ◌==◌, same_key, eq_key, filter,
  first, if◌then◌else◌,
}
use senet.Accounts.{User, Role, Session, Semester, Programme, eq_role, institution_id, key_of}
use senet.Prelude.Text.{Text}
use senet.Exec.{
  Exec, Error, ok, validation, permission_denied, integrity_error, raise, check, ◌>>=◌, ◌>>◌,
}
use senet.Results.{CourseResult, ResultAmendment, ExternalExaminerReport}
use senet.Results.Status.{
  ResultStatus, submitted_to_hod, approved_by_hod, approved_by_dean, eq_status,
}
use senet.Results.Rows.{has_id}
use senet.Results.Pipeline.{owns_result, hod_scope, dean_scope}
use senet.Database.{Db}

abbrev pub in_tenant : Db → ℕ → Bool
in_tenant db institution = same_key (key_of db.academic.current) (some institution)

-- The filter on a sheet, for each role. A user with no department or faculty matches no sheet.
abbrev pub sees : Role → User → CourseResult → Bool
sees Role.lecturer user r = r.lecturer_id == user.id
sees Role.hod user r = same_key user.department_id (some r.course.department.id)
sees Role.dean user r = same_key user.faculty_id (some r.course.department.faculty_id)
sees Role.senate_admin user r = true
sees Role.school_admin user r = true
sees _ user r = false

unfoldable pub visible_results : Db → User → List CourseResult
visible_results db user =
    filter (λ r. in_tenant db r.institution.id && sees user.role user r) db.results

-- `PENDING_STAGE`
abbrev pub pending_stage : Role → Option ResultStatus
pending_stage Role.hod = some submitted_to_hod
pending_stage Role.dean = some approved_by_hod
pending_stage Role.senate_admin = some approved_by_dean
pending_stage Role.school_admin = some approved_by_dean
pending_stage _ = none

unfoldable pub at_stage : Option ResultStatus → List CourseResult → List CourseResult
at_stage none rows = []
at_stage (some stage) rows = filter (λ r. eq_status r.status stage) rows

unfoldable pub pending_results_for : Db → User → List CourseResult
unfolding visible_results at_stage
pending_results_for db user = at_stage (pending_stage user.role) (visible_results db user)

-- A query parameter of a board: left out or empty, not a UUID, or the key that it names.
pub data Param : Type 0 where
  absent malformed : Param
  key : ℕ → Param

-- the parameters of `RESULT_FILTERS`, in its order
pub record ResultParams : Type 0 where
  pub faculty : Param
  pub department : Param
  pub session : Param
  pub semester : Param
  pub course : Param

-- one round of the loop of `filter_results`; what follows an unparseable id is not run
narrow {ℓ} : {A : Type ℓ} → (A → ℕ) → Param → (List A → List A) → List A → List A
narrow field absent rest rows = rest rows
narrow field malformed rest rows = []
narrow field (key k) rest rows = rest (filter (λ r. field r == k) rows)

-- `search` is the test of the text search on code, title and lecturer, where a text is given
abbrev searched : Option (CourseResult → Bool) → List CourseResult → List CourseResult
searched none rows = rows
searched (some test) rows = filter test rows

unfoldable pub filter_results :
    ResultParams → Option (CourseResult → Bool) → List CourseResult → List CourseResult
unfolding narrow
filter_results params search =
    narrow (λ r. r.course.department.faculty_id) params.faculty
      (narrow (λ r. r.course.department.id) params.department
        (narrow (λ r. r.session.id) params.session
          (narrow (λ r. r.semester.id) params.semester
            (narrow (λ r. r.course.id) params.course (searched search)))))

sees_through : Option CourseResult → User → Bool
sees_through none user = false
sees_through (some r) user = sees user.role user r

-- the sheet of an amendment is looked up by its key
unfoldable pub visible_amendments : Db → User → List ResultAmendment
unfolding sees_through
visible_amendments db user =
    filter
      (λ a.
        in_tenant db a.institution_id && sees_through (first (has_id a.result_id) db.results) user)
      db.amendments

sees_report : Role → User → ExternalExaminerReport → Bool
sees_report Role.dean user r = same_key user.faculty_id (some r.faculty_id)
sees_report Role.senate_admin user r = true
sees_report Role.school_admin user r = true
sees_report _ user r = false

unfoldable pub visible_examiner_reports : Db → User → List ExternalExaminerReport
unfolding sees_report
visible_examiner_reports db user =
    filter
      (λ r. same_key (key_of db.academic.current) r.institution_id && sees_report user.role user r)
      db.reports

-- the parameters of `EXAMINER_REPORT_FILTERS`
pub record ReportParams : Type 0 where
  pub faculty : Param
  pub programme : Param
  pub session : Param
  pub semester : Param

unfoldable pub filter_examiner_reports :
    ReportParams → List ExternalExaminerReport → List ExternalExaminerReport
unfolding narrow
filter_examiner_reports params =
    narrow (λ r. r.faculty_id) params.faculty
      (narrow (λ r. r.programme_id) params.programme
        (narrow (λ r. r.session_id) params.session
          (narrow (λ r. r.semester_id) params.semester (λ rows. rows))))
