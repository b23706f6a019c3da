-- ===== src/Results/Worklist/Inbox.antt =====
-- The approval worklist against the approval itself.
use senet.Prelude.{
  ℕ, Bool, true, false, ◌&&◌, Option, none, some, [], ◌≡◌, refl, sym, ap, ◌∙◌, ◌↔◌, Member, filter,
  Member-filter, filter-Member, same_key, arith, if◌then◌else◌, ==_refl,
}
use mathlib.Core.Path.{subst}
use senet.Prelude.Keys.{IsKeyed, keyed_first}
use senet.Prelude.Text.{strip}
use senet.Exec.{ok, continue, or_raise, permission_denied}
use senet.Accounts.{User, Role, eq_role, institution_id, key_of}
use senet.Results.{CourseResult}
use senet.Results.Status.{
  ResultStatus, submitted_to_hod, approved_by_hod, approved_by_dean, ratified_by_senate, eq_status,
  eq_status→eq,
}
use senet.Results.Rows.{result_key}
use senet.Results.Pipeline.{
  approve_target, approve_result, transition_result, moved, transitions, Rule, hod_scope,
  dean_scope, senate_scope,
}
use senet.Results.Pipeline.Moves.{transition_ok, transition_allowed}
use senet.Results.Worklist.{
  pending_results_for, pending_stage, in_tenant, at_stage, sees, visible_results,
}
use senet.Database.{Db}

-- The stage that waits on a role, and the rule by which the role advances it.
record Stage (role : Role) (target : ResultStatus) : Type 0 where
  stage : ResultStatus
  rule : Rule
  pending : pending_stage role ≡ some stage
  listed : transitions stage target ≡ some rule
  role_lem : eq_role role rule.role ≡ true
  scope_lem : (u : User) (r : CourseResult) → rule.scope u r ≡ sees role u r
  plain : rule.reason_required ≡ false
  not_submitted : eq_status target submitted_to_hod ≡ false
  not_ratified : eq_status stage ratified_by_senate ≡ false

some_rule_eq : {a b : Rule} → some a ≡ some b → a ≡ b
some_rule_eq e = cc

eq_status_of : {a b : ResultStatus} → a ≡ b → eq_status a b ≡ true
eq_status_of {a} {b} e = subst (λ x. eq_status a x ≡ true) e (==_refl _)

some_eq : {a b : ResultStatus} → some a ≡ some b → a ≡ b
some_eq e = cc

in_tenant_mine :
    (db : Db) (user : User) (r : CourseResult)
    → key_of db.academic.current ≡ institution_id user
    → in_tenant db r.institution.id ≡ same_key (institution_id user) (some r.institution.id)
in_tenant_mine db user r e = ap (λ k. same_key k (some r.institution.id)) e

&&_join : (a b : Bool) → a ≡ true → b ≡ true → (a && b) ≡ true
&&_join a b h k = ground arith

-- the one sheet that a lookup can find
same_sheet :
    (b : Bool) (r sheet : CourseResult) {o : Option CourseResult}
    → o ≡ (if b then some r else none)
    → o ≡ some sheet
    → (b ≡ true) × (sheet ≡ r)
same_sheet b r sheet h k = ground arith

&&_split : (a b : Bool) → (a && b) ≡ true → (a ≡ true) × (b ≡ true)
&&_split a b h = ground arith

Stage-of :
    (role : Role) (target : ResultStatus) → approve_target role ≡ some target → Stage role target
Stage-of Role.hod target t = subst (Stage Role.hod) (some_eq t) (record {
  stage = submitted_to_hod;
  rule = record { role = Role.hod; scope = hod_scope; reason_required = false };
  pending = refl;
  listed = refl;
  role_lem = refl;
  scope_lem = λ u r. refl;
  plain = refl;
  not_submitted = refl;
  not_ratified = refl;
})
Stage-of Role.dean target t = subst (Stage Role.dean) (some_eq t) (record {
  stage = approved_by_hod;
  rule = record { role = Role.dean; scope = dean_scope; reason_required = false };
  pending = refl;
  listed = refl;
  role_lem = refl;
  scope_lem = λ u r. refl;
  plain = refl;
  not_submitted = refl;
  not_ratified = refl;
})
Stage-of Role.senate_admin target t = subst (Stage Role.senate_admin) (some_eq t) (record {
  stage = approved_by_dean;
  rule = record { role = Role.senate_admin; scope = senate_scope; reason_required = false };
  pending = refl;
  listed = refl;
  role_lem = refl;
  scope_lem = λ u r. refl;
  plain = refl;
  not_submitted = refl;
  not_ratified = refl;
})
Stage-of _ target t = cc

-- only the pending stage of a role leads to the role's target
only_stage :
    (role : Role) (s target : ResultStatus) {rule : Rule}
    → approve_target role ≡ some target
    → transitions s target ≡ some rule
    → pending_stage role ≡ some s
only_stage role s target a t = ground arith

approve-eq :
    (user : User) (id : ℕ) (target : ResultStatus) (db : Db)
    → approve_target user.role ≡ some target
    → approve_result user id db ≡ transition_result user id target [] db
unfolding approve_result
approve-eq user id target db t =
    ap
      (λ o.
        continue (or_raise o (permission_denied "Your role cannot approve results.") db)
          (λ to. transition_result user id to []))
      t

at_stage-eq :
    (db : Db) (user : User) (stage : ResultStatus)
    → pending_stage user.role ≡ some stage
    → pending_results_for db user ≡ filter (λ r. eq_status r.status stage) (visible_results db user)
unfolding pending_results_for
at_stage-eq db user stage e = ap (λ o. at_stage o (visible_results db user)) e

module _ (db : Db) (user : User) (keyed : IsKeyed result_key db.results)
    (bound : key_of db.academic.current ≡ institution_id user) where
  -- Where sheets have unique keys and the request is bound to the user's own institution, the
  -- worklist of an HOD, a dean or a senate admin holds exactly the stored sheets that
  -- `approve_result` advances.
  pub pending_iff_approvable :
      (target : ResultStatus)
      → approve_target user.role ≡ some target
      → (r : CourseResult) → Member r db.results
      → Member r (pending_results_for db user)
        ↔ ((approve_result user r.id db).0 ≡ ok (moved r target []))
  unfolding visible_results strip
  pending_iff_approvable target t r m =
      let st = Stage-of user.role target t in
      let mine = λ (x : CourseResult). same_key (institution_id user) (some x.institution.id) in
      let shown = λ (x : CourseResult). in_tenant db x.institution.id && sees user.role user x in
      let at = λ (x : CourseResult). eq_status x.status st.stage in
      let found = (keyed_first result_key mine db.results keyed m).0 in
      let stored =
        (keyed_first result_key (λ x. eq_status x.status ratified_by_senate) db.results keyed
          m).1 in
      let pend = at_stage-eq db user st.stage st.pending in
      (
        λ p.
            let (here_now, seen) = Member-filter at (visible_results db user) (rw pend at p) in
            let (test, _) = Member-filter shown db.results seen in
            let (tenant, mine_r) = &&_split _ _ test in
            let own = sym (in_tenant_mine db user r bound) ∙ tenant in
            let status = eq_status→eq r.status st.stage here_now in
            rw (approve-eq user r.id target db t) (
              transition_allowed user r.id target [] db r st.rule
                (found ∙ ap (λ b. if b then some r else none) own)
                (ap (λ x. transitions x target) status ∙ st.listed) st.role_lem
                (st.scope_lem user r ∙ mine_r) (rw st.plain refl) (rw st.not_submitted refl)
                (stored ∙ (ap (λ x. eq_status x ratified_by_senate) status ∙ st.not_ratified))),
        λ a.
            let returned : (transition_result user r.id target [] db).0 ≡ ok (moved r target []) =
              rw (approve-eq user r.id target db t) at a in
            let (sheet, rule, f, move) = transition_ok user r.id target [] db returned in
            let (own, one) = same_sheet _ r sheet found f in
            let stage = only_stage user.role sheet.status target t move.listed in
            let status = some_eq (sym stage ∙ st.pending) in
            let same_rule =
              some_rule_eq
                (sym move.listed ∙ (ap (λ x. transitions x target) status ∙ st.listed)) in
            let scope =
              sym (st.scope_lem user r)
              ∙ (ap (λ x. st.rule.scope user x) (sym one)
                  ∙ (ap (λ x. x.scope user sheet) (sym same_rule) ∙ move.in_scope)) in
            let at_r = eq_status_of (ap (λ x. x.status) (sym one) ∙ status) in
            rw pend (
              filter-Member at (visible_results db user)
                (filter-Member shown db.results m
                  (&&_join _ _ (in_tenant_mine db user r bound ∙ own) scope))
                at_r),
      )
