-- ===== src/Results/Steps/Frozen.antt =====
-- The scores of a ratified sheet over time.
use senet.Prelude.{
  true, false, [], ◌∷◌, ◌≡◌, refl, sym, ◌⊎◌, inl, inr, Member, save, arith, Member-append_left,
  ◌==◌, ==→eq, ==_refl, Bool-cases,
}
use mathlib.Core.Path.{subst}
use senet.Prelude.Keys.{Member-save, Member-save_new, keyed_first, keyed_unique}
use senet.Results.{CourseResult, StudentScore}
use senet.Results.Status.{ratified_by_senate, is_editable}
use senet.Results.Rows.{stored_is, result_key, score_key}
use senet.Results.Steps.{
  Step, unchanged, sheet_created, sheet_moved, score_added, score_changed, amendment_raised,
  amendment_moved, amendment_applied, report_added, Steps, start, next, retired, superseding,
}
use senet.Results.Steps.Sound.{IsSound, Steps-IsSound}
use senet.Results.Steps.History.{Steps-ratified}
use senet.Database.{Db}

-- the row itself, or the row no longer current
abbrev pub IsKept : StudentScore → Db → Type 0
IsKept s db = Member s db.scores ⊎ Member (retired s) db.scores

ratified_closed :
    (a : Db) (sheet : CourseResult)
    → IsSound a
    → Member sheet a.results
    → sheet.status ≡ ratified_by_senate
    → stored_is is_editable sheet.id a ≡ false
ratified_closed a sheet h m q =
    let e = (keyed_first result_key (λ r. is_editable r.status) a.results h.sheets.keyed m).1 in
    ground arith

-- a row of a closed sheet under one step
Step-score :
    {a b : Db} (s : StudentScore)
    → Step a b
    → IsSound a
    → stored_is is_editable s.result_id a ≡ false
    → Member s a.scores
    → IsKept s b
Step-score {a} {b} s step h closed m = elim step [
  | unchanged e ↦ inl (subst (λ d. Member s d.scores) (sym e) m)
  | sheet_created _ entry _ _ _ e ↦ inl (subst (λ d. Member s d.scores) (sym e) m)
  | sheet_moved _ _ _ entry _ _ _ _ _ _ e ↦ inl (subst (λ d. Member s d.scores) (sym e) m)
  | score_added row entry _ _ _ _ e ↦
      inl (subst (λ d. Member s d.scores) (sym e) (Member-append_left a.scores (row ∷ []) m))
  | score_changed old ca exam grade entry mo open_sheet e ↦ inl (
      subst (λ d. Member s d.scores) (sym e)
        (Member-save score_key _ a.scores m (λ k.
          let same = keyed_unique score_key a.scores h.scores.keyed m mo k in
          let other : stored_is is_editable s.result_id a ≡ true =
            subst (λ x. stored_is is_editable x.result_id a ≡ true) (sym same) open_sheet in
          ground arith)))
  | amendment_raised _ entry _ _ _ e ↦ inl (subst (λ d. Member s d.scores) (sym e) m)
  | amendment_moved _ _ _ entry _ _ _ e ↦ inl (subst (λ d. Member s d.scores) (sym e) m)
  | amendment_applied old original institution one two _ _ mo _ _ e ↦
      let new = superseding old original a.next_id institution a.now in
      let saved = save score_key (retired original) a.scores in
      elim (Bool-cases (s.id == original.id)) [
        | inl t ↦
            let same =
              keyed_unique score_key a.scores h.scores.keyed m mo (==→eq s.id original.id t) in
            inr (
              subst (λ d. Member (retired s) d.scores) (sym e)
                (Member-append_left saved (new ∷ []) (
                  subst (λ x. Member (retired x) saved) (sym same)
                    (Member-save_new score_key original (retired original) a.scores mo refl))))
        | inr f ↦ inl (
            subst (λ d. Member s d.scores) (sym e)
              (Member-append_left saved (new ∷ []) (
                Member-save score_key (retired original) a.scores m
                  (λ k. ground (arith, ==_refl original.id, k)))))
      ]
  | report_added _ e ↦ inl (subst (λ d. Member s d.scores) (sym e) m)
]

-- On a ratified sheet a score row keeps its marks: after any calls the row is stored as it was, or
-- as it was but no longer current.
pub Steps-score :
    {a b : Db} (sheet : CourseResult) (s : StudentScore)
    → Steps a b
    → IsSound a
    → Member sheet a.results
    → sheet.status ≡ ratified_by_senate
    → s.result_id ≡ sheet.id
    → Member s a.scores
    → IsKept s b
Steps-score sheet s start h ms q e m = inl m
Steps-score {a} sheet s (next {b = c} r step) h ms q e m =
    let hb = Steps-IsSound r h in
    let closed : stored_is is_editable s.result_id c ≡ false =
      subst (λ k. stored_is is_editable k c ≡ false) (sym e)
        (ratified_closed c sheet hb (Steps-ratified sheet r q ms) q) in
    elim (Steps-score sheet s r h ms q e m) [
      | inl k ↦ Step-score s step hb closed k
      | inr k ↦ elim (Step-score (retired s) step hb closed k) [ inl l ↦ inr l | inr l ↦ inr l ]
    ]
