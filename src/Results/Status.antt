-- ===== src/Results/Status.antt =====
-- The enumerations of backend/results/models.py.
use senet.Prelude.{ℕ, Bool, true, ◌==◌, ◌≡◌, ◌||◌, arith}

-- `ResultStatus`
pub data ResultStatus : Type 0 where
  draft submitted_to_hod approved_by_hod approved_by_dean ratified_by_senate returned : ResultStatus

abbrev status_index : ResultStatus → ℕ
status_index draft = 0
status_index submitted_to_hod = 1
status_index approved_by_hod = 2
status_index approved_by_dean = 3
status_index ratified_by_senate = 4
status_index returned = 5

-- `==` on statuses
abbrev pub eq_status : ResultStatus → ResultStatus → Bool
eq_status a b = status_index a == status_index b

pub eq_status→eq : (a b : ResultStatus) → eq_status a b ≡ true → a ≡ b
eq_status→eq a b h = ground arith

-- `status in LECTURER_EDITABLE_STATUSES`
abbrev pub is_editable : ResultStatus → Bool
is_editable s = eq_status s draft || eq_status s returned

-- `AmendmentStatus`; its constructors are written behind the type's name where both are in scope
pub data AmendmentStatus : Type 0 where
  pending_hod hod_approved dean_approved applied amendment_returned : AmendmentStatus

abbrev amendment_index : AmendmentStatus → ℕ
amendment_index pending_hod = 0
amendment_index hod_approved = 1
amendment_index dean_approved = 2
amendment_index applied = 3
amendment_index amendment_returned = 4

abbrev pub eq_amendment_status : AmendmentStatus → AmendmentStatus → Bool
eq_amendment_status a b = amendment_index a == amendment_index b

-- `AuditAction`
pub data AuditAction : Type 0 where
  result_created score_added score_changed score_superseded : AuditAction
  status_changed amendment_status_changed : AuditAction
