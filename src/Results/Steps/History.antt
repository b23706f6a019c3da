-- ===== src/Results/Steps/History.antt =====
-- The audit log and the approval chain over time.
use senet.Prelude.{
  true, false, List, [], ◌∷◌, ◌++◌, ◌≡◌, refl, sym, ap, ◌∙◌, Member, save, arith,
  Member-append_left, exists, Member-exists, ◌==◌, ==_refl, ◌&&◌,
}
use mathlib.Core.Path.{subst}
use senet.Prelude.Keys.{Member-save}
use senet.Prelude.Text.{Text}
use senet.Results.{CourseResult}
use senet.Results.Status.{ResultStatus, ratified_by_senate, eq_status}
use senet.Results.Rows.{stored_is, result_key}
use senet.Results.Pipeline.{moved}
use senet.Results.Steps.{
  Step, unchanged, sheet_created, sheet_moved, score_added, score_changed, amendment_raised,
  amendment_moved, amendment_applied, report_added, Steps, start, next,
}
use senet.Database.{Db}

-- what `a` has is at the front of what `b` has
abbrev pub Extends {ℓ} : {A : Type ℓ} → List A → List A → Type ℓ
Extends {A = A} a b = (more : List A) × (b ≡ a ++ more)

append-nil {ℓ} : {A : Type ℓ} (xs : List A) → xs ≡ xs ++ []
append-nil [] = refl
append-nil (x ∷ xs) = ap (λ ys. x ∷ ys) (append-nil xs)

append_assoc {ℓ} : {A : Type ℓ} (xs ys zs : List A) → (xs ++ ys) ++ zs ≡ xs ++ (ys ++ zs)
append_assoc [] ys zs = refl
append_assoc (x ∷ xs) ys zs = ap (λ l. x ∷ l) (append_assoc xs ys zs)

pub Step-audit : {a b : Db} → Step a b → Extends a.audit b.audit
Step-audit {a} (unchanged e) = ([], ap (λ d. d.audit) e ∙ append-nil a.audit)
Step-audit {a} (sheet_created row entry _ _ _ e) = (entry ∷ [], ap (λ d. d.audit) e)
Step-audit {a} (sheet_moved _ _ _ entry _ _ _ _ _ _ e) = (entry ∷ [], ap (λ d. d.audit) e)
Step-audit {a} (score_added _ entry _ _ _ _ e) = (entry ∷ [], ap (λ d. d.audit) e)
Step-audit {a} (score_changed _ _ _ _ entry _ _ e) = (entry ∷ [], ap (λ d. d.audit) e)
Step-audit {a} (amendment_raised _ entry _ _ _ e) = (entry ∷ [], ap (λ d. d.audit) e)
Step-audit {a} (amendment_moved _ _ _ entry _ _ _ e) = (entry ∷ [], ap (λ d. d.audit) e)
Step-audit {a} (amendment_applied _ _ _ one two _ _ _ _ _ e) =
    (one ∷ two ∷ [], ap (λ d. d.audit) e ∙ append_assoc a.audit (one ∷ []) (two ∷ []))
Step-audit {a} (report_added _ e) = ([], ap (λ d. d.audit) e ∙ append-nil a.audit)

-- The audit log only grows at its end: what it held it holds, in the same order.
pub Steps-audit : {a b : Db} → Steps a b → Extends a.audit b.audit
Steps-audit {a} start = ([], append-nil a.audit)
Steps-audit {a} (next r s) =
    let (more, e) = Steps-audit r in
    let (last, f) = Step-audit s in
    (more ++ last, f ∙ ap (λ l. l ++ last) e ∙ append_assoc a.audit more last)

-- a row that a move does not write
sheet_stays :
    (a : Db) (sheet row : CourseResult) (to_status : ResultStatus) (reason : Text)
    → Member row a.results
    → row.status ≡ ratified_by_senate
    → stored_is (λ s. eq_status s ratified_by_senate) sheet.id a ≡ false
    → Member row (save result_key (moved sheet to_status reason) a.results)
sheet_stays a sheet row to_status reason m q n =
    Member-save result_key (moved sheet to_status reason) a.results m (λ e.
      let t : exists (λ r. r.id == sheet.id && eq_status r.status ratified_by_senate) a.results
          ≡ true =
        Member-exists (λ r. r.id == sheet.id && eq_status r.status ratified_by_senate) a.results m
          (ground (arith, ==_refl row.id)) in
      ground arith)

Step-ratified :
    {a b : Db} (row : CourseResult)
    → Step a b
    → row.status ≡ ratified_by_senate
    → Member row a.results
    → Member row b.results
Step-ratified {a} row s q m = elim s [
  | unchanged e ↦ subst (λ d. Member row d.results) (sym e) m
  | sheet_created new entry _ _ _ e ↦
      subst (λ d. Member row d.results) (sym e) (Member-append_left a.results (new ∷ []) m)
  | sheet_moved sheet to_status reason entry _ _ _ n _ _ e ↦
      subst (λ d. Member row d.results) (sym e) (sheet_stays a sheet row to_status reason m q n)
  | score_added _ entry _ _ _ _ e ↦ subst (λ d. Member row d.results) (sym e) m
  | score_changed _ _ _ _ entry _ _ e ↦ subst (λ d. Member row d.results) (sym e) m
  | amendment_raised _ entry _ _ _ e ↦ subst (λ d. Member row d.results) (sym e) m
  | amendment_moved _ _ _ entry _ _ _ e ↦ subst (λ d. Member row d.results) (sym e) m
  | amendment_applied _ _ _ one two _ _ _ _ _ e ↦ subst (λ d. Member row d.results) (sym e) m
  | report_added _ e ↦ subst (λ d. Member row d.results) (sym e) m
]

-- A sheet that the senate has ratified is never changed or removed.
pub Steps-ratified :
    {a b : Db} (row : CourseResult)
    → Steps a b
    → row.status ≡ ratified_by_senate
    → Member row a.results
    → Member row b.results
Steps-ratified row start q m = m
Steps-ratified row (next r s) q m = Step-ratified row s q (Steps-ratified row r q m)
