-- ===== src/Results/Pipeline/Authority.antt =====
-- Who may make which move of a sheet, written out move by move, against `transition_result`.
use senet.Prelude.{
  ℕ, true, false, ◌&&◌, none, some, List, [], ◌∷◌, ◌++◌, ◌≡◌, ◌≢◌, ◌⊎◌, inl, inr, refl, arith, save,
  Member, ap, ◌∙◌, ==_refl,
}
use senet.Prelude.Text.{Text, is_empty}
use senet.Accounts.{User, Role, eq_role, institution_id}
use senet.Results.{CourseResult, StudentScore, Notice, result_returned, result_published, of_status}
use senet.Results.Status.{
  ResultStatus, draft, submitted_to_hod, approved_by_hod, approved_by_dean, ratified_by_senate,
  returned, eq_status, AuditAction,
}
use senet.Results.Rows.{result_key}
use senet.Results.Pipeline.{Rule, transitions, owns_result, hod_scope, dean_scope}
use senet.Database.{Db}

-- the lecturer whose sheet it is, the head of its department, the dean of its faculty, the senate
abbrev pub Teaches : User → CourseResult → Type 0
Teaches actor sheet = (actor.role ≡ Role.lecturer) × (sheet.lecturer_id ≡ actor.id)

abbrev pub Heads : User → CourseResult → Type 0
Heads actor sheet =
    (actor.role ≡ Role.hod) × (actor.department_id ≡ some sheet.course.department.id)

abbrev pub IsDeanOf : User → CourseResult → Type 0
IsDeanOf actor sheet =
    (actor.role ≡ Role.dean) × (actor.faculty_id ≡ some sheet.course.department.faculty_id)

-- Each move with the status that it leaves and the person who makes it.
abbrev pub MayMove : User → CourseResult → Text → ResultStatus → Type 0
MayMove actor sheet reason draft = ⊥
MayMove actor sheet reason submitted_to_hod =
    ((sheet.status ≡ draft) ⊎ (sheet.status ≡ returned)) × Teaches actor sheet
MayMove actor sheet reason approved_by_hod = (sheet.status ≡ submitted_to_hod) × Heads actor sheet
MayMove actor sheet reason approved_by_dean =
    (sheet.status ≡ approved_by_hod) × IsDeanOf actor sheet
MayMove actor sheet reason ratified_by_senate =
    (sheet.status ≡ approved_by_dean) × (actor.role ≡ Role.senate_admin)
MayMove actor sheet reason returned =
    (reason ≢ [])
    × ((sheet.status ≡ submitted_to_hod) × Heads actor sheet
        ⊎ (sheet.status ≡ approved_by_hod) × IsDeanOf actor sheet
        ⊎ (sheet.status ≡ approved_by_dean) × (actor.role ≡ Role.senate_admin))

is_empty_of : (t : Text) → t ≢ [] → is_empty t ≡ false
is_empty_of [] h = absurd (h refl)
is_empty_of (c ∷ s) h = refl

module _ (actor : User) (sheet : CourseResult) where
  head_role : Heads actor sheet → eq_role actor.role Role.hod ≡ true
  head_role m = ground (arith, m.0)

  head_scope : Heads actor sheet → hod_scope actor sheet ≡ true
  head_scope m = ground (arith, m.1, ==_refl sheet.course.department.id)

  dean_role : IsDeanOf actor sheet → eq_role actor.role Role.dean ≡ true
  dean_role m = ground (arith, m.0)

  dean_scope_lem : IsDeanOf actor sheet → dean_scope actor sheet ≡ true
  dean_scope_lem m = ground (arith, m.1, ==_refl sheet.course.department.faculty_id)

senate_role :
    (actor : User) → actor.role ≡ Role.senate_admin → eq_role actor.role Role.senate_admin ≡ true
senate_role actor e = ground (arith, e)

module _ (actor : User) (sheet : CourseResult) (reason : Text) where
  pub rule_may :
      (t : ResultStatus) (rule : Rule)
      → transitions sheet.status t ≡ some rule
      → eq_role actor.role rule.role ≡ true
      → rule.scope actor sheet ≡ true
      → (rule.reason_required ≡ true → reason ≢ [])
      → MayMove actor sheet reason t
  rule_may draft rule l r s q = ground arith
  rule_may submitted_to_hod rule l r s q = ground arith
  rule_may approved_by_hod rule l r s q = ground arith
  rule_may approved_by_dean rule l r s q = ground arith
  rule_may ratified_by_senate rule l r s q = ground arith
  rule_may returned rule l r s q = ground arith

  -- the rule of a move that may be made
  pub record IsRule (t : ResultStatus) (rule : Rule) : Type 0 where
    pub listed : transitions sheet.status t ≡ some rule
    pub role : eq_role actor.role rule.role ≡ true
    pub in_scope : rule.scope actor sheet ≡ true
    pub reasoned : (rule.reason_required && is_empty reason) ≡ false
    pub open_sheet : eq_status sheet.status ratified_by_senate ≡ false

  IsRule-of :
      (s t : ResultStatus) (rule : Rule)
      → sheet.status ≡ s
      → transitions s t ≡ some rule
      → eq_role actor.role rule.role ≡ true
      → rule.scope actor sheet ≡ true
      → (rule.reason_required && is_empty reason) ≡ false
      → eq_status s ratified_by_senate ≡ false
      → IsRule t rule
  IsRule-of s t rule e l r c q n = record {
    listed = ap (λ x. transitions x t) e ∙ l;
    role = r;
    in_scope = c;
    reasoned = q;
    open_sheet = ap (λ x. eq_status x ratified_by_senate) e ∙ n;
  }

  pub may_rule : (t : ResultStatus) → MayMove actor sheet reason t → (rule : Rule) × IsRule t rule
  may_rule draft m = absurd m
  may_rule submitted_to_hod (m, (role, own)) =
      let c : owns_result actor sheet ≡ true = ground (arith, own, ==_refl actor.id) in
      let r : eq_role actor.role Role.lecturer ≡ true = ground (arith, role) in
      elim m [
        | inl e ↦ (_, IsRule-of draft submitted_to_hod _ e refl r c refl refl)
        | inr e ↦ (_, IsRule-of returned submitted_to_hod _ e refl r c refl refl)
      ]
  may_rule approved_by_hod (e, m) = (
    _,
    IsRule-of submitted_to_hod approved_by_hod _ e refl (head_role actor sheet m)
        (head_scope actor sheet m) refl refl,
  )
  may_rule approved_by_dean (e, m) = (
    _,
    IsRule-of approved_by_hod approved_by_dean _ e refl (dean_role actor sheet m)
        (dean_scope_lem actor sheet m) refl refl,
  )
  may_rule ratified_by_senate (e, r) = (
    _,
    IsRule-of approved_by_dean ratified_by_senate _ e refl (senate_role actor r) refl refl refl,
  )
  may_rule returned (q, m) =
      let full : is_empty reason ≡ false = is_empty_of reason q in
      elim m [
        | inl (e, m) ↦ (
          _,
          IsRule-of submitted_to_hod returned _ e refl (head_role actor sheet m)
              (head_scope actor sheet m) full refl,
        )
        | inr (inl (e, m)) ↦ (
          _,
          IsRule-of approved_by_hod returned _ e refl (dean_role actor sheet m)
              (dean_scope_lem actor sheet m) full refl,
        )
        | inr (inr (e, r)) ↦
            (_, IsRule-of approved_by_dean returned _ e refl (senate_role actor r) refl full refl)
      ]

-- `sheet` is the stored sheet with that key in the actor's institution, the actor may move it, and
-- a sheet that is submitted has a current score.
pub record IsAllowed (actor : User) (id : ℕ) (to_status : ResultStatus) (reason : Text) (db : Db)
    (sheet : CourseResult) : Type 0 where
  pub stored : Member sheet db.results
  pub key : sheet.id ≡ id
  pub own_institution : institution_id actor ≡ some sheet.institution.id
  pub may : MayMove actor sheet reason to_status
  pub has_scores :
      to_status ≡ submitted_to_hod
      → (s : StudentScore) × Member s db.scores × (s.result_id ≡ id) × (s.is_current ≡ true)

-- the notice of a move: a return is told with its reason, a ratification is told, no other move is
abbrev pub told : ResultStatus → ℕ → Text → List Notice
told draft id reason = []
told submitted_to_hod id reason = []
told approved_by_hod id reason = []
told approved_by_dean id reason = []
told ratified_by_senate id reason = result_published id ∷ []
told returned id reason = result_returned id reason ∷ []

-- What a move makes of the tables: the sheet with its status, and with the reason where it is
-- returned and none elsewhere, one audit entry, the notice, and nothing else.
pub record IsMoved (actor : User) (to_status : ResultStatus) (reason : Text)
    (sheet row : CourseResult) (before after : Db) : Type 0 where
  pub status : row.status ≡ to_status
  pub reason_kept : to_status ≡ returned → row.returned_reason ≡ reason
  pub reason_cleared : to_status ≢ returned → row.returned_reason ≡ []
  pub rest : row ≡ record sheet { status = row.status; returned_reason = row.returned_reason }
  pub after_lem : after ≡ record before {
    results = save result_key row before.results;
    audit =
        before.audit
        ++ record {
          institution_id = sheet.institution.id;
          result_id = sheet.id;
          score = none;
          actor_id = actor.id;
          action = AuditAction.status_changed;
          before = of_status sheet.status;
          after = of_status to_status;
          reason = reason;
        }
          ∷ [];
    outbox = before.outbox ++ told to_status sheet.id reason;
  }
