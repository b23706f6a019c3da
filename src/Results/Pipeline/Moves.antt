-- ===== src/Results/Pipeline/Moves.antt =====
-- What `transition_result` does on success and on failure.
use senet.Prelude.{
  ℕ, true, false, not, ◌&&◌, none, some, [], ◌∷◌, ◌++◌, ◌≡◌, ◌≢◌, inl, inr, Option-cases, exists,
  first, save, arith, ap,
}
use senet.Prelude.Text.{Text, strip, is_empty}
use senet.Exec.{
  Error, ok, err, not_found, ◌>>=◌, settle, continue, or_raise, atomic, atomic_rollback, atomic_ok,
  atomic-ok,
}
use senet.Accounts.{User, eq_role}
use senet.Results.{CourseResult, ResultAuditLog, of_status}
use senet.Results.Status.{
  ResultStatus, submitted_to_hod, ratified_by_senate, eq_status, AuditAction,
}
use senet.Results.Rows.{for_actor, locked_result, save_result, log, entry_of, stored_is, result_key}
use senet.Results.Pipeline.{
  Rule, transitions, moved, move_sheet, scored, notices, notify_transition, transition_result,
}
use senet.Database.{Db}

-- the audit entry of a move
abbrev pub move_entry : CourseResult → User → ResultStatus → Text → ResultAuditLog
move_entry result actor to_status reason =
    entry_of result actor AuditAction.status_changed none (of_status result.status)
      (of_status to_status) reason

-- A move that was made: its rule and guards, the row returned and the whole new state.
pub record IsMove (actor : User) (to_status : ResultStatus) (reason : Text)
    (sheet row : CourseResult) (before after : Db) (rule : Rule) : Type 0 where
  pub listed : transitions sheet.status to_status ≡ some rule
  pub role : eq_role actor.role rule.role ≡ true
  pub in_scope : rule.scope actor sheet ≡ true
  pub reasoned : rule.reason_required ≡ true → reason ≢ []
  pub has_scores : to_status ≡ submitted_to_hod → exists (scored sheet.id) before.scores ≡ true
  pub not_ratified : stored_is (λ s. eq_status s ratified_by_senate) sheet.id before ≡ false
  pub row_lem : row ≡ moved sheet to_status reason
  pub after_lem : after ≡ record before {
    results = save result_key row before.results;
    audit = before.audit ++ move_entry sheet actor to_status reason ∷ [];
    outbox = before.outbox ++ notices row to_status reason;
  }

module _ (actor : User) (to_status : ResultStatus) (reason : Text) where
  move_sheet_ok :
      (sheet row : CourseResult) (db : Db) (rule : Rule)
      → transitions sheet.status to_status ≡ some rule
      → (move_sheet actor to_status reason sheet db).0 ≡ ok row
      → IsMove actor to_status reason sheet row db
          (move_sheet actor to_status reason sheet db).1
          rule
  unfolding save_result log notify_transition
  move_sheet_ok sheet row db rule l h = ground arith

  move_sheet_refused :
      (sheet row : CourseResult) (db : Db)
      → transitions sheet.status to_status ≡ none
      → (move_sheet actor to_status reason sheet db).0 ≢ ok row
  move_sheet_refused sheet row db l h = ground arith

  -- a listed move goes through when its guards hold
  move_sheet_allowed :
      (sheet : CourseResult) (db : Db) (rule : Rule)
      → transitions sheet.status to_status ≡ some rule
      → eq_role actor.role rule.role ≡ true
      → rule.scope actor sheet ≡ true
      → (rule.reason_required && is_empty reason) ≡ false
      → (eq_status to_status submitted_to_hod && not (exists (scored sheet.id) db.scores)) ≡ false
      → stored_is (λ s. eq_status s ratified_by_senate) sheet.id db ≡ false
      → (move_sheet actor to_status reason sheet db).0 ≡ ok (moved sheet to_status reason)
  unfolding save_result log notify_transition
  move_sheet_allowed sheet db rule l r s q c n = ground arith

module _ (actor : User) (id : ℕ) (to_status : ResultStatus) (reason : Text) (db : Db) where
  not_found-transition :
      {row : CourseResult}
      → first (for_actor actor id) db.results ≡ none
      → (transition_result actor id to_status reason db).0 ≢ ok row
  unfolding transition_result
  not_found-transition f h = ground arith

  -- the call on the sheet that was found
  pub transition-eq :
      (sheet : CourseResult)
      → first (for_actor actor id) db.results ≡ some sheet
      → transition_result actor id to_status reason db
        ≡ atomic (move_sheet actor to_status (strip reason) sheet) db
  unfolding transition_result
  transition-eq sheet found =
      ap
        (λ o. settle db (
          continue (or_raise o (not_found "Result not found.") db)
            (move_sheet actor to_status (strip reason))))
        found

  -- A transition that returns has moved a sheet of the actor's institution by a listed rule, in
  -- role and scope, with a reason where one is required and scores where the sheet is submitted;
  -- it has written the new status, one audit entry with the old and the new status, and the
  -- notice of the move, and nothing else.
  pub transition_ok :
      {row : CourseResult}
      → (transition_result actor id to_status reason db).0 ≡ ok row
      → (sheet : CourseResult) × (rule : Rule) × (first (for_actor actor id) db.results
          ≡ some sheet)
        × IsMove actor to_status
            (strip reason)
            sheet
            row
            db
            (transition_result actor id to_status reason db).1
            rule
  transition_ok {row} h = elim (Option-cases (first (for_actor actor id) db.results)) [
    | inl none_found ↦ absurd (not_found-transition none_found h)
    | inr (sheet, found) ↦
        let move = move_sheet actor to_status (strip reason) sheet in
        let e = transition-eq sheet found in
        let h' : (atomic move db).0 ≡ ok row = rw e at h in
        let done = atomic_ok move db h' in
        let h'' : (move db).0 ≡ ok row = rw done at h' in
        elim (Option-cases (transitions sheet.status to_status)) [
          | inl unlisted ↦
              absurd (move_sheet_refused actor to_status (strip reason) sheet row db unlisted h'')
          | inr (rule, listed) ↦ (
            sheet,
            rule,
            found,
            rw (e, done)
                (move_sheet_ok actor to_status (strip reason) sheet row db rule listed h''),
          )
        ]
  ]

  -- A transition that raises leaves every table as it was.
  pub transition_error :
      {e : Error}
      → (transition_result actor id to_status reason db).0 ≡ err e
      → (transition_result actor id to_status reason db).1 ≡ db
  unfolding transition_result
  transition_error h =
      atomic_rollback (locked_result id actor >>= move_sheet actor to_status (strip reason)) db h

  -- A listed move of the sheet that is found goes through when its guards hold.
  pub transition_allowed :
      (sheet : CourseResult) (rule : Rule)
      → first (for_actor actor id) db.results ≡ some sheet
      → transitions sheet.status to_status ≡ some rule
      → eq_role actor.role rule.role ≡ true
      → rule.scope actor sheet ≡ true
      → (rule.reason_required && is_empty (strip reason)) ≡ false
      → (eq_status to_status submitted_to_hod && not (exists (scored sheet.id) db.scores)) ≡ false
      → stored_is (λ s. eq_status s ratified_by_senate) sheet.id db ≡ false
      → (transition_result actor id to_status reason db).0
        ≡ ok (moved sheet to_status (strip reason))
  transition_allowed sheet rule found l r s q c n =
      let move = move_sheet actor to_status (strip reason) sheet in
      let done : (move db).0 ≡ ok (moved sheet to_status (strip reason)) =
        move_sheet_allowed actor to_status (strip reason) sheet db rule l r s q c n in
      rw (transition-eq sheet found) (atomic-ok move db done)
