-- ===== src/Results/Pipeline/Chain.antt =====
-- A sheet on its way from the lecturer to the senate: `submit_result` and three times
-- `approve_result`.
use senet.Prelude.{true, ℕ, some, List, [], ◌∷◌, ◌++◌, ◌≡◌, ◌⊎◌, refl, sym, ap, ◌∙◌, Member}
use mathlib.Core.Path.{subst}
use mathlib.Core.List.{append-nil}
use senet.Prelude.Keys.{IsKeyed, keyed_unique, IsKeyed-save, Member-save_new}
use senet.Prelude.Text.{strip}
use senet.Exec.{Result, ok, Exec, continue, or_raise, permission_denied, continue_ok, ◌>>◌}
use senet.Accounts.{User, Role, institution_id}
use senet.Results.{CourseResult, StudentScore, Notice, result_published}
use senet.Results.Status.{
  ResultStatus, draft, submitted_to_hod, approved_by_hod, approved_by_dean, ratified_by_senate,
  returned,
}
use senet.Results.Rows.{result_key}
use senet.Results.Pipeline.{moved, transition_result, submit_result, approve_result, approve_target}
use senet.Results.Pipeline.Authority.{Teaches, Heads, IsDeanOf, MayMove, IsAllowed, told}
use senet.Results.Pipeline.Allowed.{transition-IsMoved, allowed-ok}
use senet.Database.{Db}

-- the tables hold the sheet, under a key of its own
record Stands (sheet : CourseResult) (db : Db) : Type 0 where
  keyed : IsKeyed result_key db.results
  stored : Member sheet db.results

-- what one move leaves for the next
record Steps (actor : User) (t : ResultStatus) (sheet : CourseResult) (db : Db) : Type 0 where
  done : (transition_result actor sheet.id t [] db).0 ≡ ok (moved sheet t [])
  stands : Stands (moved sheet t []) (transition_result actor sheet.id t [] db).1
  scores_lem : (transition_result actor sheet.id t [] db).1.scores ≡ db.scores
  outbox_lem : (transition_result actor sheet.id t [] db).1.outbox ≡ db.outbox ++ told t sheet.id []

strip-nil : strip [] ≡ []
unfolding strip
strip-nil = refl

move-Steps :
    (actor : User) (t : ResultStatus) (sheet : CourseResult) (db : Db)
    → Stands sheet db
    → institution_id actor ≡ some sheet.institution.id
    → MayMove actor sheet [] t
    → (t ≡ submitted_to_hod
        → (s : StudentScore) × Member s db.scores
          × (s.result_id ≡ sheet.id)
          × (s.is_current ≡ true))
    → Steps actor t sheet db
move-Steps actor t sheet db st own may scores =
    let row = moved sheet t [] in
    let after = (transition_result actor sheet.id t [] db).1 in
    let done : (transition_result actor sheet.id t [] db).0 ≡ ok row =
      subst (λ r. (transition_result actor sheet.id t [] db).0 ≡ ok (moved sheet t r)) strip-nil
        (allowed-ok actor t [] db sheet st.keyed (
          subst (λ r. IsAllowed actor sheet.id t r db sheet) (sym strip-nil)
            (record {
              stored = st.stored;
              key = refl;
              own_institution = own;
              may = may;
              has_scores = scores;
            }))) in
    let (found, allowed, effect) = transition-IsMoved actor sheet.id t [] db done in
    let same : found ≡ sheet =
      keyed_unique result_key db.results st.keyed allowed.stored st.stored allowed.key in
    let e = effect.after_lem in
    record {
      done = done;
      stands = record {
        keyed =
            subst (λ d. IsKeyed result_key d.results) (sym e)
              (IsKeyed-save result_key row db.results st.keyed);
        stored =
            subst (λ (d : Db). Member row d.results) (sym e)
              (Member-save_new result_key sheet row db.results st.stored refl);
      };
      scores_lem = ap (λ (d : Db). d.scores) e;
      outbox_lem =
          ap (λ (d : Db). d.outbox) e
          ∙ ap (λ k. db.outbox ++ told t k (strip [])) allowed.key
          ∙ ap (λ r. db.outbox ++ told t sheet.id r) strip-nil;
    }

-- who acts for the sheet at each stage
pub record Officers : Type 0 where
  pub author : User
  pub head : User
  pub dean : User
  pub senator : User

-- the four calls, one after another
abbrev pub run_chain : Officers → ℕ → Exec Db CourseResult
run_chain o id =
    submit_result o.author id
    >> approve_result o.head id
    >> approve_result o.dean id
    >> approve_result o.senator id

-- the officers are of the sheet's institution and of the place that each stage asks for
pub record AreFor (o : Officers) (sheet : CourseResult) : Type 0 where
  pub teaches : Teaches o.author sheet
  pub heads : Heads o.head sheet
  pub is_dean : IsDeanOf o.dean sheet
  pub is_senate : o.senator.role ≡ Role.senate_admin
  pub author_own : institution_id o.author ≡ some sheet.institution.id
  pub head_own : institution_id o.head ≡ some sheet.institution.id
  pub dean_own : institution_id o.dean ≡ some sheet.institution.id
  pub senator_own : institution_id o.senator ≡ some sheet.institution.id

approve-eq :
    (actor : User) (id : ℕ) (role : Role) (t : ResultStatus) (db : Db)
    → actor.role ≡ role
    → approve_target role ≡ some t
    → approve_result actor id db ≡ transition_result actor id t [] db
unfolding approve_result
approve-eq actor id role t db e f =
    ap
      (λ o.
        continue (or_raise o (permission_denied "Your role cannot approve results.") db)
          (λ t. transition_result actor id t []))
      (ap approve_target e ∙ f)

-- the next approval, after a call that returned
then_approve :
    (actor : User) (id : ℕ) (role : Role) (t : ResultStatus) (r : Result CourseResult × Db)
    {row : CourseResult}
    → actor.role ≡ role
    → approve_target role ≡ some t
    → r.0 ≡ ok row
    → continue r (λ _. approve_result actor id) ≡ transition_result actor id t [] r.1
then_approve actor id role t r e f h =
    continue_ok r (λ _. approve_result actor id) h ∙ approve-eq actor id role t r.1 e f

-- A sheet that is a draft or returned, with a current score, in tables whose sheets have unique
-- keys, goes all the way: its lecturer, the head of its department, the dean of its faculty and a
-- senate admin, all of its institution, call `submit_result` and then `approve_result` one after
-- another, and the calls return. The sheet is then stored as ratified with no reason of a return,
-- the scores are as they were, and the one notice is that the result is published.
pub run_chain-ratifies :
    (o : Officers) (sheet : CourseResult) (score : StudentScore) (db : Db)
    → IsKeyed result_key db.results
    → Member sheet db.results
    → (sheet.status ≡ draft) ⊎ (sheet.status ≡ returned)
    → AreFor o sheet
    → Member score db.scores
    → score.result_id ≡ sheet.id
    → score.is_current ≡ true
    → let ratified = record sheet { status = ratified_by_senate; returned_reason = [] } in
      ((run_chain o sheet.id db).0 ≡ ok ratified)
      × Member ratified (run_chain o sheet.id db).1.results
      × ((run_chain o sheet.id db).1.scores ≡ db.scores)
      × ((run_chain o sheet.id db).1.outbox ≡ db.outbox ++ result_published sheet.id ∷ [])
unfolding submit_result
run_chain-ratifies o sheet score db keyed stored status p m k c =
    let id = sheet.id in
    let r1 = moved sheet submitted_to_hod [] in
    let r2 = moved r1 approved_by_hod [] in
    let r3 = moved r2 approved_by_dean [] in
    let c1 = transition_result o.author id submitted_to_hod [] db in
    let c2 = transition_result o.head id approved_by_hod [] c1.1 in
    let c3 = transition_result o.dean id approved_by_dean [] c2.1 in
    let c4 = transition_result o.senator id ratified_by_senate [] c3.1 in
    let s1 : Steps o.author submitted_to_hod sheet db =
      move-Steps o.author submitted_to_hod sheet db (record { keyed = keyed; stored = stored })
        p.author_own (status, p.teaches) (λ _. (score, m, k, c)) in
    let s2 : Steps o.head approved_by_hod r1 c1.1 =
      move-Steps o.head approved_by_hod r1 c1.1 s1.stands p.head_own (refl, p.heads) (λ e. cc) in
    let s3 : Steps o.dean approved_by_dean r2 c2.1 =
      move-Steps o.dean approved_by_dean r2 c2.1 s2.stands p.dean_own (refl, p.is_dean) (λ e. cc) in
    let s4 : Steps o.senator ratified_by_senate r3 c3.1 =
      move-Steps o.senator ratified_by_senate r3 c3.1 s3.stands p.senator_own (refl, p.is_senate)
        (λ e. cc) in
    let e1 = then_approve o.head id Role.hod approved_by_hod c1 p.heads.0 refl s1.done in
    let e2 = then_approve o.dean id Role.dean approved_by_dean c2 p.is_dean.0 refl s2.done in
    let e3 =
      then_approve o.senator id Role.senate_admin ratified_by_senate c3 p.is_senate refl s3.done in
    let all : run_chain o id db ≡ c4 =
      ap
        (λ r.
          continue (continue r (λ _. approve_result o.dean id)) (λ _. approve_result o.senator id))
        e1
      ∙ ap (λ r. continue r (λ _. approve_result o.senator id)) e2
      ∙ e3 in
    let ratified = record sheet { status = ratified_by_senate; returned_reason = [] } in
    subst
      (λ (r : Result CourseResult × Db).
        (r.0 ≡ ok ratified)
        × Member ratified r.1.results
        × (r.1.scores ≡ db.scores)
        × (r.1.outbox ≡ db.outbox ++ result_published id ∷ []))
      (sym all)
      (
        s4.done,
        s4.stands.stored,
        s4.scores_lem ∙ s3.scores_lem ∙ s2.scores_lem ∙ s1.scores_lem,
        s4.outbox_lem
            ∙ ap (λ b. b ++ result_published id ∷ [])
                (quiet s3.outbox_lem ∙ quiet s2.outbox_lem ∙ quiet s1.outbox_lem),
      )
  where
    quiet : {a b : List Notice} → a ≡ b ++ [] → a ≡ b
    quiet {a} {b} e = e ∙ append-nil b
