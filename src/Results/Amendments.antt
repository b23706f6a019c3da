-- ===== src/Results/Amendments.antt =====
-- Corrections to ratified sheets: `raise_amendment`, `amendment_transition` and their callers in
-- backend/results/services.py.
use senet.Prelude.{
  ℕ, ◌+◌, Bool, true, false, not, ◌&&◌, Option, none, some, [], ◌∷◌, ◌++◌, ◌==◌, same_key, first,
  save, if◌then◌else◌,
}
use senet.Prelude.Text.{Text, strip, is_empty}
use senet.Prelude.Int.{ℤ, pos_part, within}
use senet.Exec.{
  ok, validation, permission_denied, not_found, index_error, Exec, pure, gets, check, check_errors,
  modify, or_raise, atomic, ◌>>=◌, ◌>>◌,
}
use senet.Accounts.{User, Role, eq_role, institution_id}
use senet.Accounts.Enrolments.{error_if}
use senet.Grading.Scales.{grade_for_score}
use senet.Results.{CourseResult, StudentScore, ResultAmendment, of_amendment}
use senet.Results.Status.{
  ratified_by_senate, eq_status, AmendmentStatus, pending_hod, hod_approved, dean_approved, applied,
  amendment_returned, eq_amendment_status, AuditAction,
}
use senet.Results.Rows.{
  locked_result, has_id, is_current_for, insert_score, save_score, log, score_snapshot,
  amendment_key,
}
use senet.Results.Pipeline.{owns_result, hod_scope, dean_scope, senate_scope, Rule}
use senet.Results.Scores.{ca_max, exam_max}
use senet.Database.{Db}

-- The scope checks are those of the amended sheet.
abbrev pub amendment_transitions : AmendmentStatus → AmendmentStatus → Option Rule
amendment_transitions pending_hod hod_approved =
    some (record { role = Role.hod; scope = hod_scope; reason_required = false })
amendment_transitions pending_hod amendment_returned =
    some (record { role = Role.hod; scope = hod_scope; reason_required = true })
amendment_transitions hod_approved dean_approved =
    some (record { role = Role.dean; scope = dean_scope; reason_required = false })
amendment_transitions hod_approved amendment_returned =
    some (record { role = Role.dean; scope = dean_scope; reason_required = true })
amendment_transitions dean_approved applied =
    some (record { role = Role.senate_admin; scope = senate_scope; reason_required = false })
amendment_transitions dean_approved amendment_returned =
    some (record { role = Role.senate_admin; scope = senate_scope; reason_required = true })
amendment_transitions _ _ = none

raises : Role → User → CourseResult → Bool
raises Role.lecturer actor result = owns_result actor result
raises Role.hod actor result = hod_scope actor result
raises Role.dean actor result = dean_scope actor result
raises Role.senate_admin actor result = true
raises Role.school_admin actor result = true
raises _ actor result = false

unfoldable pub can_raise_amendment : User → CourseResult → Bool
unfolding raises
can_raise_amendment actor result = raises actor.role actor result

-- `ResultAmendment.objects.create`
unfoldable pub insert_amendment : ResultAmendment → Exec Db ResultAmendment
insert_amendment row db =
    let made = record row { id = db.next_id } in
    (ok made, record db { amendments = db.amendments ++ made ∷ []; next_id = db.next_id + 1 })

-- the amendment of the current row, stored and logged
unfoldable pub propose :
    User → ℕ → ℕ → ℕ → Text → CourseResult → StudentScore → Text → Exec Db ResultAmendment
unfolding insert_amendment log
propose actor student ca exam justification result score grade = do
  amendment ← insert_amendment (record {
    id = 0;
    institution_id = result.institution.id;
    result_id = result.id;
    student_id = student;
    original_score = score.id;
    proposed_ca_score = ca;
    proposed_exam_score = exam;
    proposed_total = ca + exam;
    proposed_grade = grade;
    justification = justification;
    status = pending_hod;
    returned_reason = [];
    raised_by = actor.id;
    applied_score = none;
  })
  log result actor AuditAction.amendment_status_changed none (of_amendment none none)
      (of_amendment (some amendment.id) (some pending_hod)) justification
  pure amendment

-- the block under the lock, for a justification that has been stripped
unfoldable pub raise_on : User → ℕ → ℤ → ℤ → Text → CourseResult → Exec Db ResultAmendment
unfolding can_raise_amendment propose
raise_on actor student ca exam justification result = do
  check (eq_status result.status ratified_by_senate) (validation ("result" ∷ []))
  check (can_raise_amendment actor result)
      (permission_denied "You are not permitted to raise an amendment on this result.")
  original ← gets (λ db. first (is_current_for result.id student) db.scores)
  score ← or_raise original (validation ("student" ∷ []))
  check_errors (
      error_if (not (within ca (ca_max result))) "proposed_ca_score"
      ++ error_if (not (within exam (exam_max result))) "proposed_exam_score")
  letter ← or_raise (grade_for_score result.institution (pos_part ca + pos_part exam)) index_error
  propose actor student (pos_part ca) (pos_part exam) justification result score letter.0

unfoldable pub raise_amendment : User → ℕ → ℕ → ℤ → ℤ → Text → Exec Db ResultAmendment
unfolding locked_result raise_on strip
raise_amendment actor result_id student ca exam justification = do
  check (not (is_empty (strip justification))) (validation ("justification" ∷ []))
  atomic (locked_result result_id actor >>= raise_on actor student ca exam (strip justification))

abbrev pub amendment_for : User → ℕ → ResultAmendment → Bool
amendment_for actor id a = a.id == id && same_key (institution_id actor) (some a.institution_id)

-- `_locked_amendment`, with the sheet that `select_related` brings along
unfoldable pub locked_amendment : ℕ → User → Exec Db (ResultAmendment × CourseResult)
locked_amendment id actor = do
  found ← gets (λ db. first (amendment_for actor id) db.amendments)
  amendment ← or_raise found (not_found "Amendment not found.")
  sheet ← gets (λ db. first (has_id amendment.result_id) db.results)
  result ← or_raise sheet (not_found "Amendment not found.")
  pure (amendment, result)

-- `_apply_amendment`: the row that replaces the current one
unfoldable pub apply_amendment : User → ResultAmendment → CourseResult → Exec Db StudentScore
unfolding save_score insert_score log
apply_amendment actor amendment result = do
  current ← gets (λ db. first (is_current_for result.id amendment.student_id) db.scores)
  original ← or_raise current (validation ("student" ∷ []))
  save_score true (record original { is_current = false })
  row ← insert_score (record {
    id = 0;
    institution_id = result.institution.id;
    result_id = result.id;
    student_id = amendment.student_id;
    ca_score = amendment.proposed_ca_score;
    exam_score = amendment.proposed_exam_score;
    total = amendment.proposed_total;
    grade = amendment.proposed_grade;
    supersedes = some original.id;
    is_current = true;
    created_at = 0;
  })
  log result actor AuditAction.score_superseded (some row.id) (score_snapshot original)
      (score_snapshot row) amendment.justification
  pure row

-- `applied_score`, written where the move is to APPLIED
unfoldable pub applied_row :
    AmendmentStatus → User → ResultAmendment → CourseResult → Exec Db (Option ℕ)
unfolding apply_amendment
applied_row applied actor amendment result = do
  row ← apply_amendment actor amendment result
  pure (some row.id)
applied_row _ actor amendment result = pure amendment.applied_score

unfoldable pub save_amendment : ResultAmendment → Exec Db (Unit {0})
save_amendment row = modify (λ db. record db { amendments = save amendment_key row db.amendments })

-- the row and its log entry written
unfoldable pub finish_amendment :
    User
    → AmendmentStatus
    → Text
    → ResultAmendment
    → CourseResult
    → Option ℕ
    → Exec Db ResultAmendment
unfolding save_amendment log
finish_amendment actor to_status reason amendment result applied_score = do
  let row = record amendment {
    status = to_status;
    returned_reason = if eq_amendment_status to_status amendment_returned then reason else [];
    applied_score = applied_score;
  }
  save_amendment row
  log result actor AuditAction.amendment_status_changed none
      (of_amendment (some amendment.id) (some amendment.status))
      (of_amendment (some amendment.id) (some to_status)) reason
  pure row

-- the block under the lock, for a reason that has been stripped
unfoldable pub move_amendment :
    User → AmendmentStatus → Text → ResultAmendment × CourseResult → Exec Db ResultAmendment
unfolding applied_row finish_amendment
move_amendment actor to_status reason (amendment, result) = do
  rule ← or_raise (amendment_transitions amendment.status to_status) (validation ("status" ∷ []))
  check (eq_role actor.role rule.role && rule.scope actor result)
      (permission_denied "You cannot perform this transition on this amendment.")
  check (not (rule.reason_required && is_empty reason)) (validation ("reason" ∷ []))
  applied_score ← applied_row to_status actor amendment result
  finish_amendment actor to_status reason amendment result applied_score

unfoldable pub amendment_transition : User → ℕ → AmendmentStatus → Text → Exec Db ResultAmendment
unfolding locked_amendment move_amendment strip
amendment_transition actor amendment_id to_status reason =
    atomic (locked_amendment amendment_id actor >>= move_amendment actor to_status (strip reason))

-- `AMENDMENT_APPROVE_TARGET`
abbrev pub amendment_approve_target : Role → Option AmendmentStatus
amendment_approve_target Role.hod = some hod_approved
amendment_approve_target Role.dean = some dean_approved
amendment_approve_target Role.senate_admin = some applied
amendment_approve_target _ = none

unfoldable pub approve_amendment : User → ℕ → Exec Db ResultAmendment
unfolding amendment_transition
approve_amendment actor amendment_id = do
  to_status ←
      or_raise (amendment_approve_target actor.role)
        (permission_denied "Your role cannot approve amendments.")
  amendment_transition actor amendment_id to_status []

unfoldable pub return_amendment : User → ℕ → Text → Exec Db ResultAmendment
unfolding amendment_transition
return_amendment actor amendment_id reason =
    amendment_transition actor amendment_id amendment_returned reason
