-- ===== src/Results/Examiners.antt =====
-- External examiner reports: `create_external_examiner_report` of backend/results/services.py.
use senet.Prelude.{
  ℕ, ◌+◌, Bool, not, ◌&&◌, some, [], ◌∷◌, ◌++◌, ◌==◌, eq_key, is_some, if◌then◌else◌,
}
use senet.Prelude.Text.{Text}
use senet.Exec.{ok, validation, permission_denied, integrity_error, Exec, raise, check, ◌>>◌}
use senet.Accounts.{User, Role, Session, Semester, Programme, eq_role, institution_id}
use senet.Results.{ExternalExaminerReport}
use senet.Database.{Db}

-- the row is stamped with the actor's institution, which must be there
unfoldable pub insert_report : ExternalExaminerReport → Exec Db ExternalExaminerReport
insert_report row db =
    let made = record row { id = db.next_id } in
    if is_some row.institution_id
    then (ok made, record db { reports = db.reports ++ made ∷ []; next_id = db.next_id + 1 })
    else raise integrity_error db

-- the row before it is stored
abbrev pub captured :
    User → Programme → Session → Semester → Text → Text → ℕ → Text → ExternalExaminerReport
captured actor programme session semester name from audit_date remarks = record {
  id = 0;
  institution_id = institution_id actor;
  faculty_id = programme.department.faculty_id;
  programme_id = programme.id;
  session_id = session.id;
  semester_id = semester.id;
  examiner_name = name;
  examiner_institution = from;
  audit_date = audit_date;
  remarks = remarks;
  created_by = actor.id;
}

abbrev pub own_faculty : User → Programme → Bool
own_faculty actor programme = not (
    eq_role actor.role Role.dean
    && not (eq_key actor.faculty_id (some programme.department.faculty_id)))

unfoldable pub create_external_examiner_report :
    User → Programme → Session → Semester → Text → Text → ℕ → Text → Exec Db ExternalExaminerReport
unfolding insert_report
create_external_examiner_report actor programme session semester name from audit_date remarks = do
  check (semester.session_id == session.id) (validation ("semester" ∷ []))
  check (own_faculty actor programme) (
      permission_denied "You can only capture examiner reports for programmes in your own faculty.")
  insert_report (captured actor programme session semester name from audit_date remarks)
