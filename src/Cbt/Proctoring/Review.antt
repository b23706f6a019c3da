-- ===== src/Cbt/Proctoring/Review.antt =====
-- The review of flags and who sees proctoring data, of backend/cbt/proctoring.py.
use senet.Prelude.{
  ℕ, Bool, true, false, ◌&&◌, ◌||◌, Option, none, some, List, [], ◌∷◌, ◌++◌, ◌==◌, leb, same_key,
  exists, filter, first, map, if◌then◌else◌,
}
use senet.Prelude.Text.{Text}
use senet.Prelude.Sets.{has}
use senet.Prelude.Sorting.{sort_by}
use senet.Exec.{
  does_not_exist, permission_denied, Exec, pure, gets, or_raise, check, modify, ◌>>=◌, ◌>>◌,
}
use senet.Accounts.{User, Role, Course, Academic, eq_role, institution_id}
use senet.Accounts.Access.{lecturer_can_access_course, assigned_to}
use senet.Cbt.{Exam, ExamAttempt}
use senet.Cbt.Access.{can_manage_exam}
use senet.Cbt.Ca.{exam_of}
use senet.Cbt.Proctoring.{
  CheatingFlagStatus, dismissed, escalated, CheatingFlag, flag_escalation, ProctorDb,
}
use senet.Database.{Db}

abbrev attempt_by_id : ℕ → Db → Option ExamAttempt
attempt_by_id id db = first (λ a. a.id == id) db.attempts

abbrev exam_under : Option ExamAttempt → Db → Option Exam
exam_under none db = none
exam_under (some attempt) db = exam_of attempt db

-- `flag.attempt.exam`
abbrev pub flagged_exam : CheatingFlag → Db → Option Exam
flagged_exam flag db = exam_under (attempt_by_id flag.attempt_id db) db

-- `_require_reviewer`, which gives the exam
unfoldable pub require_reviewer : User → CheatingFlag → Exec ProctorDb Exam
unfolding can_manage_exam
require_reviewer actor flag = do
  found ← gets (λ db. flagged_exam flag db.tables)
  exam ← or_raise found does_not_exist
  may ←
      gets (λ db.
        can_manage_exam db.tables.academic actor exam.course exam.session_id exam.semester_id)
  check may
      (permission_denied "Only the course's lecturer (or an admin in scope) can review this flag.")
  pure exam

abbrev pub decided : CheatingFlagStatus → User → Text → ℕ → CheatingFlag → CheatingFlag
decided to_status actor notes now flag = record flag {
  flag_status = to_status;
  reviewed_by = some actor.id;
  reviewed_at = some now;
  review_notes = notes;
}

-- `save(update_fields=…)`: the stored row takes the fields that are named
abbrev pub update_flag : ℕ → (CheatingFlag → CheatingFlag) → ProctorDb → ProctorDb
update_flag id change db = record db {
  flags = map (λ f. if f.id == id then change f else f) db.flags;
}

unfoldable pub dismiss_flag : User → CheatingFlag → Text → Exec ProctorDb CheatingFlag
unfolding require_reviewer
dismiss_flag actor flag notes = do
  exam ← require_reviewer actor flag
  now ← gets (λ db. db.tables.now)
  modify (update_flag flag.id (decided dismissed actor notes now))
  pure (decided dismissed actor notes now flag)

abbrev heads : Course → User → Bool
heads course u =
    same_key (institution_id u) (some course.institution.id)
    && eq_role u.role Role.hod
    && same_key u.department_id (some course.department.id)

abbrev id_of : Option User → Option ℕ
id_of none = none
id_of (some u) = some u.id

-- `_find_hod`
abbrev find_hod : Course → ProctorDb → Option ℕ
find_hod course db = id_of (first (heads course) db.users)

abbrev pub sent_up : User → Text → ℕ → Option ℕ → CheatingFlag → CheatingFlag
sent_up actor notes now head flag = record (decided escalated actor notes now flag) {
  escalated_to = head;
}

unfoldable pub escalate_flag : User → CheatingFlag → Text → Exec ProctorDb CheatingFlag
unfolding require_reviewer
escalate_flag actor flag notes = do
  exam ← require_reviewer actor flag
  now ← gets (λ db. db.tables.now)
  head ← gets (find_hod exam.course)
  modify (update_flag flag.id (sent_up actor notes now head))
  modify (λ db. record db { proctor_outbox = db.proctor_outbox ++ flag_escalation flag.id ∷ [] })
  pure (sent_up actor notes now head flag)

abbrev views_proctoring : Role → Academic → User → Exam → Bool
views_proctoring Role.exam_officer db user exam = true
views_proctoring Role.lecturer db user exam =
    exam.created_by == user.id
    || lecturer_can_access_course db user exam.course.id exam.session_id exam.semester_id
views_proctoring Role.hod db user exam =
    same_key user.department_id (some exam.course.department.id)
views_proctoring Role.dean db user exam =
    same_key user.faculty_id (some exam.course.department.faculty_id)
views_proctoring Role.senate_admin db user exam = true
views_proctoring Role.school_admin db user exam = true
views_proctoring _ db user exam = false

-- the attempt's exam is given
unfoldable pub can_view_proctoring : Academic → User → ExamAttempt → Exam → Bool
unfolding lecturer_can_access_course
can_view_proctoring db user attempt exam =
    same_key (institution_id user) (some attempt.institution_id)
    && views_proctoring user.role db user exam

-- what an auditor's token says: its institution, whether it is valid now, the departments of its
-- programmes, and its sessions
pub record AuditorScope : Type 0 where
  pub scope_institution : ℕ
  pub is_valid : Bool
  pub department_ids : List ℕ
  pub session_ids : List ℕ

-- an empty list does not narrow
abbrev pub covers : List ℕ → ℕ → Bool
covers [] id = true
covers (x ∷ xs) id = has id (x ∷ xs)

-- `_auditor_can_view`
unfoldable pub auditor_can_view : AuditorScope → ExamAttempt → Exam → Bool
auditor_can_view token attempt exam =
    token.scope_institution == attempt.institution_id
    && token.is_valid
    && covers token.department_ids exam.course.department.id
    && covers token.session_ids exam.session_id

pub data Principal : Type 0 where
  auditor : AuditorScope → Principal
  staff : User → Principal

unfoldable pub can_view_webcam : Academic → Principal → ExamAttempt → Exam → Bool
unfolding auditor_can_view can_view_proctoring
can_view_webcam db (auditor token) attempt exam = auditor_can_view token attempt exam
can_view_webcam db (staff user) attempt exam = can_view_proctoring db user attempt exam

abbrev sees_flag : Role → Academic → User → Option Exam → Bool
sees_flag Role.exam_officer db user exam = true
sees_flag Role.senate_admin db user exam = true
sees_flag Role.school_admin db user exam = true
sees_flag Role.lecturer db user (some exam) =
    exists (assigned_to user exam.course.id exam.session_id exam.semester_id) db.assignments
sees_flag Role.hod db user (some exam) =
    same_key user.department_id (some exam.course.department.id)
sees_flag Role.dean db user (some exam) =
    same_key user.faculty_id (some exam.course.department.faculty_id)
sees_flag _ db user exam = false

abbrev newer : CheatingFlag → CheatingFlag → Bool
newer a b = leb b.raised_at a.raised_at

-- of the user's institution, the newest first
unfoldable pub visible_flags : User → ProctorDb → List CheatingFlag
visible_flags user db = sort_by newer (
    filter
      (λ f.
        same_key (institution_id user) (some f.institution_id)
        && sees_flag user.role db.tables.academic user (flagged_exam f db.tables))
      db.flags)
