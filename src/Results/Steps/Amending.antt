-- ===== src/Results/Steps/Amending.antt =====
-- `amendment_transition` of backend/results/services.py makes one step.
use senet.Prelude.{
  ℕ, ◌+◌, true, false, none, some, [], ◌∷◌, ◌++◌, ◌≡◌, ◌≢◌, refl, sym, ap, ◌∙◌, inl, inr, Member,
  exists, first, first-Member, first-test, save, arith, Option-cases,
}
use mathlib.Core.Path.{subst}
use senet.Prelude.Text.{Text, strip}
use senet.Exec.{Result-cases, ok, ◌>>=◌, continue_ok, continue_err}
use senet.Accounts.{User}
use senet.Results.{CourseResult, StudentScore, ResultAmendment, of_amendment}
use senet.Results.Status.{
  AmendmentStatus, pending_hod, hod_approved, amendment_returned, dean_approved, applied,
  AuditAction,
}
use senet.Results.Steps.Calls.{atomic-Step}
use senet.Results.Rows.{
  has_id, amendment_key, entry_of, is_current_for, score_key, score_snapshot, save_score,
  insert_score, log,
}
use senet.Results.Pipeline.{Rule}
use senet.Results.Amendments.{
  amendment_transition, amendment_for, locked_amendment, move_amendment, applied_row,
  finish_amendment, save_amendment, apply_amendment, amendment_transitions,
}
use senet.Results.Steps.{Step, unchanged, amendment_moved, amendment_applied, superseding, retired}
use senet.Database.{Db}

-- What `_locked_amendment` finds is stored, with the sheet that it names.
locked_amendment_ok :
    (id : ℕ) (actor : User) (db : Db) (amendment : ResultAmendment) (result : CourseResult)
    → (locked_amendment id actor db).0 ≡ ok (amendment, result)
    → Member amendment db.amendments × (result.id ≡ amendment.result_id)
unfolding locked_amendment
locked_amendment_ok id actor db amendment result h =
    elim (Option-cases (first (amendment_for actor id) db.amendments)) [
      | inl n ↦ ground arith
      | inr (a, f) ↦ elim (Option-cases (first (has_id a.result_id) db.results)) [
        | inl n ↦ ground arith
        | inr (r, g) ↦
            let ea : a ≡ amendment = ground arith in
            let er : r ≡ result = ground arith in
            let m : Member a db.amendments =
              first-Member (amendment_for actor id) db.amendments f in
            let t = first-test (has_id a.result_id) db.results g in
            (subst (λ x. Member x db.amendments) ea m, ground arith)
      ]
    ]

locked_amendment-state : (id : ℕ) (actor : User) (db : Db) → (locked_amendment id actor db).1 ≡ db
unfolding locked_amendment
locked_amendment-state id actor db = ground arith

applied_from : (s : AmendmentStatus) → amendment_transitions s applied ≢ none → s ≡ dean_approved
applied_from s h = ground arith

module _ (actor : User) (reason : Text) (amendment : ResultAmendment) (result : CourseResult)
    (db : Db) (row : ResultAmendment) where
  move_amendment_refused :
      (to_status : AmendmentStatus)
      → amendment_transitions amendment.status to_status ≡ none
      → (move_amendment actor to_status reason (amendment, result) db).0 ≢ ok row
  unfolding move_amendment
  move_amendment_refused to_status l h = ground arith

  move_amendment_ok :
      (to_status : AmendmentStatus) (rule : Rule)
      → amendment_transitions amendment.status to_status ≡ some rule
      → (move_amendment actor to_status reason (amendment, result) db).0 ≡ ok row
      → move_amendment actor to_status reason (amendment, result) db
        ≡ (applied_row to_status actor amendment result
              >>= finish_amendment actor to_status reason amendment result)
            db
  unfolding move_amendment
  move_amendment_ok to_status rule l h = ground arith

  finish_amendment-Step :
      (to_status : AmendmentStatus)
      → Member amendment db.amendments
      → amendment_transitions amendment.status to_status ≢ none
      → to_status ≢ applied
      → Step db
          (finish_amendment actor to_status reason amendment result amendment.applied_score db).1
  unfolding finish_amendment save_amendment log
  finish_amendment-Step to_status m l n = amendment_moved amendment to_status _ _ m l n refl

  no_score :
      first (is_current_for result.id amendment.student_id) db.scores ≡ none
      → ((applied_row applied actor amendment result
            >>= finish_amendment actor applied reason amendment result)
          db).0
        ≢ ok row
  unfolding applied_row apply_amendment
  no_score f h = ground arith

  apply_amendment_lem :
      (original : StudentScore)
      → result.id ≡ amendment.result_id
      → first (is_current_for result.id amendment.student_id) db.scores ≡ some original
      → ((applied_row applied actor amendment result
            >>= finish_amendment actor applied reason amendment result)
          db).0
        ≡ ok row
      → let new = superseding amendment original db.next_id result.institution.id db.now in
        (exists
            (is_current_for result.id amendment.student_id)
            (save score_key (retired original) db.scores)
          ≡ false)
        × (((applied_row applied actor amendment result
                >>= finish_amendment actor applied reason amendment result)
              db).1
            ≡ record db {
              scores = save score_key (retired original) db.scores ++ new ∷ [];
              amendments =
                  save amendment_key
                    (record amendment {
                      status = applied;
                      returned_reason = [];
                      applied_score = some db.next_id;
                    })
                    db.amendments;
              audit =
                  (db.audit
                    ++ entry_of result actor AuditAction.score_superseded
                        (some db.next_id)
                        (score_snapshot original)
                        (score_snapshot new)
                        amendment.justification
                      ∷ [])
                  ++ entry_of result actor AuditAction.amendment_status_changed none
                      (of_amendment (some amendment.id) (some amendment.status))
                      (of_amendment (some amendment.id) (some applied))
                      reason
                    ∷ [];
              next_id = db.next_id + 1;
            })
  unfolding applied_row apply_amendment save_score insert_score finish_amendment save_amendment log
  apply_amendment_lem original e f h = ground arith

  apply-Step :
      (original : StudentScore)
      → Member amendment db.amendments
      → amendment.status ≡ dean_approved
      → result.id ≡ amendment.result_id
      → first (is_current_for result.id amendment.student_id) db.scores ≡ some original
      → ((applied_row applied actor amendment result
            >>= finish_amendment actor applied reason amendment result)
          db).0
        ≡ ok row
      → Step db
          ((applied_row applied actor amendment result
              >>= finish_amendment actor applied reason amendment result)
            db).1
  apply-Step original m ready e f h =
      let (free, after) = apply_amendment_lem original e f h in
      amendment_applied amendment original result.institution.id _ _ m ready
        (first-Member (is_current_for result.id amendment.student_id) db.scores f)
        (subst (λ k. is_current_for k amendment.student_id original ≡ true) e
          (first-test (is_current_for result.id amendment.student_id) db.scores f))
        (subst
          (λ k.
            exists (is_current_for k amendment.student_id)
              (save score_key (retired original) db.scores)
            ≡ false)
          e free)
        after

  -- the writes of a move, whether it applies the amendment or not
  written-Step :
      (to_status : AmendmentStatus)
      → Member amendment db.amendments
      → result.id ≡ amendment.result_id
      → amendment_transitions amendment.status to_status ≢ none
      → ((applied_row to_status actor amendment result
            >>= finish_amendment actor to_status reason amendment result)
          db).0
        ≡ ok row
      → Step db
          ((applied_row to_status actor amendment result
              >>= finish_amendment actor to_status reason amendment result)
            db).1
  unfolding applied_row
  written-Step applied m e l h =
      elim (Option-cases (first (is_current_for result.id amendment.student_id) db.scores)) [
        | inl n ↦ absurd (no_score n h)
        | inr (original, f) ↦ apply-Step original m (applied_from amendment.status l) e f h
      ]
  written-Step pending_hod m e l h = finish_amendment-Step pending_hod m l (λ p. ground arith)
  written-Step hod_approved m e l h = finish_amendment-Step hod_approved m l (λ p. ground arith)
  written-Step dean_approved m e l h = finish_amendment-Step dean_approved m l (λ p. ground arith)
  written-Step amendment_returned m e l h =
      finish_amendment-Step amendment_returned m l (λ p. ground arith)

  move_amendment-Step :
      (to_status : AmendmentStatus)
      → Member amendment db.amendments
      → result.id ≡ amendment.result_id
      → (move_amendment actor to_status reason (amendment, result) db).0 ≡ ok row
      → Step db (move_amendment actor to_status reason (amendment, result) db).1
  move_amendment-Step to_status m e h =
      elim (Option-cases (amendment_transitions amendment.status to_status)) [
        | inl n ↦ absurd (move_amendment_refused to_status n h)
        | inr (rule, l) ↦
            let call = move_amendment_ok to_status rule l h in
            subst (λ s. Step db s.1) (sym call)
              (written-Step to_status m e (λ n. ground arith) (ap (λ s. s.0) (sym call) ∙ h))
      ]

pub amendment_transition-Step :
    (actor : User) (id : ℕ) (to_status : AmendmentStatus) (reason : Text) (db : Db)
    → Step db (amendment_transition actor id to_status reason db).1
unfolding amendment_transition
amendment_transition-Step actor id to_status reason db =
    let move = move_amendment actor to_status (strip reason) in
    atomic-Step (locked_amendment id actor >>= move) db (λ row h.
      elim (Result-cases (locked_amendment id actor db).0) [
        | inr (e, f) ↦ unchanged (
            continue_err (locked_amendment id actor db) move f ∙ locked_amendment-state id actor db)
        | inl ((amendment, result), f) ↦
            let (m, e) = locked_amendment_ok id actor db amendment result f in
            let call : (locked_amendment id actor >>= move) db ≡ move (amendment, result) db =
              continue_ok (locked_amendment id actor db) move f
              ∙ ap (move (amendment, result)) (locked_amendment-state id actor db) in
            subst (λ s. Step db s.1) (sym call)
              (move_amendment-Step actor (strip reason) amendment result db row to_status m e
                (ap (λ s. s.0) (sym call) ∙ h))
      ])
