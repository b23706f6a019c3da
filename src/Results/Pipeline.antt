-- ===== src/Results/Pipeline.antt =====
-- The approval chain of a result sheet: `TRANSITIONS`, `transition_result` and its callers in
-- backend/results/services.py.
pub mod Moves
pub mod Authority
pub mod Allowed
pub mod Chain
use senet.Prelude.{
  ℕ, Bool, true, false, not, ◌&&◌, ◌||◌, Option, none, some, List, [], ◌∷◌, ◌++◌, ◌==◌, same_key,
  exists, if◌then◌else◌,
}
use senet.Prelude.Text.{Text, strip, is_empty}
use senet.Exec.{
  Error, Result, ok, err, validation, permission_denied, Exec, pure, raise, gets, check, modify,
  or_raise, atomic, ◌>>=◌, ◌>>◌,
}
use senet.Accounts.{User, Role, eq_role}
use senet.Results.{CourseResult, StudentScore, Notice, result_returned, result_published, of_status}
use senet.Results.Status.{
  ResultStatus, draft, submitted_to_hod, approved_by_hod, approved_by_dean, ratified_by_senate,
  returned, eq_status, AuditAction,
}
use senet.Results.Rows.{locked_result, save_result, log}
use senet.Database.{Db}

abbrev pub owns_result : User → CourseResult → Bool
owns_result actor result = result.lecturer_id == actor.id

abbrev pub hod_scope : User → CourseResult → Bool
hod_scope actor result = same_key actor.department_id (some result.course.department.id)

abbrev pub dean_scope : User → CourseResult → Bool
dean_scope actor result = same_key actor.faculty_id (some result.course.department.faculty_id)

abbrev pub senate_scope : User → CourseResult → Bool
senate_scope actor result = true

-- required role, scope check, reason required
pub record Rule : Type 0 where
  pub role : Role
  pub scope : User → CourseResult → Bool
  pub reason_required : Bool

abbrev pub transitions : ResultStatus → ResultStatus → Option Rule
transitions draft submitted_to_hod =
    some (record { role = Role.lecturer; scope = owns_result; reason_required = false })
transitions returned submitted_to_hod =
    some (record { role = Role.lecturer; scope = owns_result; reason_required = false })
transitions submitted_to_hod approved_by_hod =
    some (record { role = Role.hod; scope = hod_scope; reason_required = false })
transitions submitted_to_hod returned =
    some (record { role = Role.hod; scope = hod_scope; reason_required = true })
transitions approved_by_hod approved_by_dean =
    some (record { role = Role.dean; scope = dean_scope; reason_required = false })
transitions approved_by_hod returned =
    some (record { role = Role.dean; scope = dean_scope; reason_required = true })
transitions approved_by_dean ratified_by_senate =
    some (record { role = Role.senate_admin; scope = senate_scope; reason_required = false })
transitions approved_by_dean returned =
    some (record { role = Role.senate_admin; scope = senate_scope; reason_required = true })
transitions _ _ = none

-- `_notify_transition`: what is queued on commit
unfoldable pub notices : CourseResult → ResultStatus → Text → List Notice
notices result returned reason = result_returned result.id reason ∷ []
notices result ratified_by_senate reason = result_published result.id ∷ []
notices result _ reason = []

unfoldable pub notify_transition : CourseResult → ResultStatus → Text → Exec Db (Unit {0})
unfolding notices
notify_transition result to_status reason =
    modify (λ db. record db { outbox = db.outbox ++ notices result to_status reason })

abbrev pub scored : ℕ → StudentScore → Bool
scored result s = s.result_id == result && s.is_current

-- what `transition_result` makes of a sheet
abbrev pub moved : CourseResult → ResultStatus → Text → CourseResult
moved result to_status reason = record result {
  status = to_status;
  returned_reason = if eq_status to_status returned then reason else [];
}

abbrev pub move_sheet : User → ResultStatus → Text → CourseResult → Exec Db CourseResult
move_sheet actor to_status reason result = do
  rule ← or_raise (transitions result.status to_status) (validation ("status" ∷ []))
  check (eq_role actor.role rule.role && rule.scope actor result)
      (permission_denied "You cannot perform this transition on this result.")
  check (not (rule.reason_required && is_empty reason)) (validation ("reason" ∷ []))
  has_scores ← gets (λ db. exists (scored result.id) db.scores)
  check (not (eq_status to_status submitted_to_hod && not has_scores)) (validation ("status" ∷ []))
  let row = moved result to_status reason
  save_result row
  log row actor AuditAction.status_changed none (of_status result.status) (of_status to_status)
      reason
  notify_transition row to_status reason
  pure row

unfoldable pub transition_result : User → ℕ → ResultStatus → Text → Exec Db CourseResult
unfolding locked_result save_result log notify_transition strip
transition_result actor result_id to_status reason =
    atomic (locked_result result_id actor >>= move_sheet actor to_status (strip reason))

unfoldable pub submit_result : User → ℕ → Exec Db CourseResult
unfolding transition_result
submit_result actor result_id = transition_result actor result_id submitted_to_hod []

-- `APPROVE_TARGET`
abbrev pub approve_target : Role → Option ResultStatus
approve_target Role.hod = some approved_by_hod
approve_target Role.dean = some approved_by_dean
approve_target Role.senate_admin = some ratified_by_senate
approve_target _ = none

unfoldable pub approve_result : User → ℕ → Exec Db CourseResult
unfolding transition_result
approve_result actor result_id = do
  to_status ←
      or_raise (approve_target actor.role) (permission_denied "Your role cannot approve results.")
  transition_result actor result_id to_status []

unfoldable pub return_result : User → ℕ → Text → Exec Db CourseResult
unfolding transition_result
return_result actor result_id reason = transition_result actor result_id returned reason

-- the loop of `batch_ratify`
unfoldable pub ratify_all : User → Text → List ℕ → Exec Db (List CourseResult)
ratify_all actor reason [] = pure []
ratify_all actor reason (id ∷ ids) = do
  row ← transition_result actor id ratified_by_senate reason
  rows ← ratify_all actor reason ids
  pure (row ∷ rows)

abbrev pub no_ids : List ℕ → Bool
no_ids [] = true
no_ids (id ∷ ids) = false

unfoldable pub batch_ratify : User → List ℕ → Text → Exec Db (List CourseResult)
unfolding ratify_all
batch_ratify actor ids reason = do
  check (not (no_ids ids)) (validation ("result_ids" ∷ []))
  atomic (ratify_all actor reason ids)
