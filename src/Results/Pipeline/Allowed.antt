-- ===== src/Results/Pipeline/Allowed.antt =====
-- `transition_result` returns exactly where a move is allowed, and does what the move is.
use senet.Prelude.{
  ℕ, true, false, not, ◌&&◌, some, List, [], ◌≡◌, ◌≢◌, ◌↔◌, inl, inr, refl, arith, exists, first,
  Member, first-Member, first-test, first_exists, Option-cases, same_key, sym, ◌∙◌, ==_refl,
  Member-exists, if◌then◌else◌,
}
use mathlib.Core.Path.{subst}
use senet.Prelude.Keys.{IsKeyed, keyed_first}
use senet.Prelude.Text.{Text, strip}
use senet.Exec.{ok}
use senet.Accounts.{User, institution_id}
use senet.Results.{CourseResult, StudentScore}
use senet.Results.Status.{
  ResultStatus, draft, submitted_to_hod, approved_by_hod, approved_by_dean, ratified_by_senate,
  returned, eq_status,
}
use senet.Results.Rows.{result_key, for_actor, stored_is}
use senet.Results.Pipeline.{Rule, transition_result, notices, moved, scored}
use senet.Results.Pipeline.Moves.{IsMove, transition_ok, transition_allowed}
use senet.Database.{Db}
use senet.Results.Pipeline.Authority.{rule_may, may_rule, IsAllowed, IsMoved, told}

for_actor-keys :
    (actor : User) (id : ℕ) (r : CourseResult)
    → for_actor actor id r ≡ true
    → (r.id ≡ id) × (institution_id actor ≡ some r.institution.id)
for_actor-keys actor id r t = ground arith

scored-keys :
    (id : ℕ) (s : StudentScore) → scored id s ≡ true → (s.result_id ≡ id) × (s.is_current ≡ true)
scored-keys id s t = ground arith

current_score :
    (id : ℕ) (rows : List StudentScore)
    → exists (scored id) rows ≡ true
    → (s : StudentScore) × Member s rows × (s.result_id ≡ id) × (s.is_current ≡ true)
current_score id rows e = elim (Option-cases (first (scored id) rows)) [
  | inl none_found ↦ let f = first_exists (scored id) rows none_found in cc
  | inr (s, found) ↦
      let (r, c) = scored-keys id s (first-test (scored id) rows found) in
      (s, first-Member (scored id) rows found, r, c)
]

notices-told :
    (t : ResultStatus) (row : CourseResult) (reason : Text)
    → notices row t reason ≡ told t row.id reason
unfolding notices
notices-told draft row reason = refl
notices-told submitted_to_hod row reason = refl
notices-told approved_by_hod row reason = refl
notices-told approved_by_dean row reason = refl
notices-told ratified_by_senate row reason = refl
notices-told returned row reason = refl

moved-IsMoved :
    (actor : User) (t : ResultStatus) (reason : Text) (sheet : CourseResult) (before after : Db)
    (rule : Rule)
    → IsMove actor t reason sheet (moved sheet t reason) before after rule
    → IsMoved actor t reason sheet (moved sheet t reason) before after
moved-IsMoved actor t reason sheet before after rule m = record {
  status = refl;
  reason_kept = λ e. ground (arith, e);
  reason_cleared = λ ne. cleared t reason ne;
  rest = refl;
  after_lem = m.after_lem ∙ (rw (notices-told t (moved sheet t reason) reason) refl);
}
  where
    cleared :
        (t : ResultStatus) (reason : Text)
        → t ≢ returned
        → (if eq_status t returned then reason else []) ≡ []
    cleared returned reason ne = absurd (ne refl)
    cleared draft reason ne = refl
    cleared submitted_to_hod reason ne = refl
    cleared approved_by_hod reason ne = refl
    cleared approved_by_dean reason ne = refl
    cleared ratified_by_senate reason ne = refl

-- A transition that returns was allowed: the sheet with that key is of the actor's institution,
-- its status and the actor's role and place are those of the move, a return has a reason and a
-- submitted sheet has a current score. It has given the sheet the new status, with the reason on a
-- return and none elsewhere, and has written one audit entry with the actor, the old and the new
-- status and the reason; a return and a ratification are told; nothing else is changed.
pub transition-IsMoved :
    (actor : User) (id : ℕ) (to_status : ResultStatus) (reason : Text) (db : Db)
    {row : CourseResult}
    → (transition_result actor id to_status reason db).0 ≡ ok row
    → (sheet : CourseResult) × IsAllowed actor id to_status (strip reason) db sheet
      × IsMoved actor to_status
          (strip reason)
          sheet
          row
          db
          (transition_result actor id to_status reason db).1
transition-IsMoved actor id t reason db {row} h =
    let (sheet, rule, found, move) = transition_ok actor id t reason db h in
    let (key, own) =
      for_actor-keys actor id sheet (first-test (for_actor actor id) db.results found) in
    let after = (transition_result actor id t reason db).1 in
    (
      sheet,
      record {
        stored = first-Member (for_actor actor id) db.results found;
        key = key;
        own_institution = own;
        may =
            rule_may actor sheet (strip reason) t rule move.listed move.role move.in_scope
              move.reasoned;
        has_scores = λ e.
            current_score id db.scores
              (subst (λ k. exists (scored k) db.scores ≡ true) key (move.has_scores e));
      },
      subst (λ r. IsMoved actor t (strip reason) sheet r db after) (sym move.row_lem)
          (moved-IsMoved actor t (strip reason) sheet db after rule
            (subst (λ r. IsMove actor t (strip reason) sheet r db after rule) move.row_lem move)),
    )

-- what is read of the allowed sheet by its key
sheet-found :
    (actor : User) (sheet : CourseResult) (rows : List CourseResult)
    → IsKeyed result_key rows
    → Member sheet rows
    → institution_id actor ≡ some sheet.institution.id
    → first (for_actor actor sheet.id) rows ≡ some sheet
sheet-found actor sheet rows keyed m own =
    let q = λ (r : CourseResult). same_key (institution_id actor) (some r.institution.id) in
    let t : q sheet ≡ true = ground (arith, own, ==_refl sheet.institution.id) in
    (keyed_first result_key q rows keyed m).0 ∙ (rw t refl)

sheet-open :
    (sheet : CourseResult) (db : Db)
    → IsKeyed result_key db.results
    → Member sheet db.results
    → eq_status sheet.status ratified_by_senate ≡ false
    → stored_is (λ s. eq_status s ratified_by_senate) sheet.id db ≡ false
sheet-open sheet db keyed m f =
    (keyed_first result_key (λ r. eq_status r.status ratified_by_senate) db.results keyed m).1 ∙ f

scores_there :
    (id : ℕ) (t : ResultStatus) (rows : List StudentScore)
    → (t ≡ submitted_to_hod
        → (s : StudentScore) × Member s rows × (s.result_id ≡ id) × (s.is_current ≡ true))
    → (eq_status t submitted_to_hod && not (exists (scored id) rows)) ≡ false
scores_there id submitted_to_hod rows h =
    let (s, m, r, c) = h refl in
    let e = Member-exists (scored id) rows m (ground (arith, r, c, ==_refl id)) in ground (arith, e)
scores_there id draft rows h = refl
scores_there id approved_by_hod rows h = refl
scores_there id approved_by_dean rows h = refl
scores_there id ratified_by_senate rows h = refl
scores_there id returned rows h = refl

pub allowed-ok :
    (actor : User) (t : ResultStatus) (reason : Text) (db : Db) (sheet : CourseResult)
    → IsKeyed result_key db.results
    → IsAllowed actor sheet.id t (strip reason) db sheet
    → (transition_result actor sheet.id t reason db).0 ≡ ok (moved sheet t (strip reason))
allowed-ok actor t reason db sheet keyed a =
    let (rule, r) = may_rule actor sheet (strip reason) t a.may in
    transition_allowed actor sheet.id t reason db sheet rule
      (sheet-found actor sheet db.results keyed a.stored a.own_institution) r.listed r.role
      r.in_scope r.reasoned (scores_there sheet.id t db.scores a.has_scores)
      (sheet-open sheet db keyed a.stored r.open_sheet)

-- Where sheets have unique keys, a transition returns exactly where it is allowed: where the sheet
-- with that key is of the actor's institution, its status and the actor's role and place are those
-- of the move, a return has a reason and a submitted sheet has a current score.
pub transition-iff-IsAllowed :
    (actor : User) (id : ℕ) (to_status : ResultStatus) (reason : Text) (db : Db)
    → IsKeyed result_key db.results
    → ((row : CourseResult) × ((transition_result actor id to_status reason db).0 ≡ ok row))
      ↔ ((sheet : CourseResult) × IsAllowed actor id to_status (strip reason) db sheet)
transition-iff-IsAllowed actor id t reason db keyed = (
  λ (row, h).
      let (sheet, allowed, _) = transition-IsMoved actor id t reason db h in (sheet, allowed),
  λ (sheet, a). (
    moved sheet t (strip reason),
    subst (λ k. (transition_result actor k t reason db).0 ≡ ok (moved sheet t (strip reason))) a.key
        (allowed-ok actor t reason db sheet keyed
          (subst (λ k. IsAllowed actor k t (strip reason) db sheet) (sym a.key) a)),
  ),
)
