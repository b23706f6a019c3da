-- ===== src/Examples/Results.antt =====
-- The theorems on results at one sheet.
use senet.Results.{StudentScore}
use senet.Prelude.{ℕ, Bool, true, false, some, List, [], ◌∷◌, ◌≡◌, refl, arith, Member, here, map}
use senet.Prelude.Text.{text}
use senet.Prelude.Int.{pos}
use senet.Grading.Scales.{grade_for_score}
use senet.Results.Status.{ResultStatus, draft, ratified_by_senate}
use senet.Results.Steps.Sound.{IsSound}
use senet.Results.Steps.History.{Extends}
use senet.Results.Steps.Trail.{AreTrailed}
use senet.Results.Steps.Frozen.{IsKept}
use senet.Results.Steps.Service.{
  Call, call_record_score, call_submit, call_approve, call_raise_amendment, call_approve_amendment,
  perform_all, perform_all-IsSound, perform_all-audit, perform_all-ratified, perform_all-score,
  perform_all-AreTrailed,
}
use senet.Examples.{lecturer, head, dean, senate, sheet, score, tables}

-- a sheet from its draft to its ratification
abbrev to_ratification : List Call
to_ratification =
    call_record_score lecturer 7 5 (pos 5000) (some (pos 2000))
    ∷ call_submit lecturer 7
    ∷ call_approve head 7
    ∷ call_approve dean 7
    ∷ call_approve senate 7
    ∷ []

-- a correction of the ratified sheet
abbrev correction : List Call
correction =
    call_raise_amendment lecturer 7 5 (pos 3500) (pos 4500) (text "added wrongly")
    ∷ call_approve_amendment head 9
    ∷ call_approve_amendment dean 9
    ∷ call_approve_amendment senate 9
    ∷ []

tables-IsSound : (status : ResultStatus) → IsSound (tables status)
tables-IsSound status = record {
  sheets = record {
    keyed = λ k. ground arith;
    below = (omega arith, tt);
    one_sheet = λ c s t. ground arith;
  };
  scores = record {
    keyed = λ k. ground arith;
    below = (omega arith, tt);
    one_current = λ r s. ground arith;
    totals = (refl, tt);
  };
  proposals = tt;
}

perform_all-IsSound_example : IsSound (perform_all to_ratification (tables draft))
perform_all-IsSound_example =
    perform_all-IsSound to_ratification (tables draft) (tables-IsSound draft)

perform_all-audit_example :
    Extends
      (tables ratified_by_senate).audit
      (perform_all correction (tables ratified_by_senate)).audit
perform_all-audit_example = perform_all-audit correction (tables ratified_by_senate)

perform_all-ratified_example :
    Member (sheet ratified_by_senate) (perform_all correction (tables ratified_by_senate)).results
perform_all-ratified_example =
    perform_all-ratified correction (tables ratified_by_senate) (sheet ratified_by_senate) refl here

perform_all-score_example : IsKept score (perform_all correction (tables ratified_by_senate))
perform_all-score_example =
    perform_all-score correction (tables ratified_by_senate) (sheet ratified_by_senate) score
      (tables-IsSound ratified_by_senate) here refl refl here

-- the calls of `correction` go through: the old row is kept, retired, beside the new one
correction_runs :
    map (λ s. s.is_current) (perform_all correction (tables ratified_by_senate)).scores
    ≡ false ∷ true ∷ []
unfolding perform_all grade_for_score
correction_runs = refl

-- two amendments raised on one row both apply, and the second replaces the score of the first
abbrev two_corrections : List Call
two_corrections =
    call_raise_amendment lecturer 7 5 (pos 3500) (pos 4500) (text "added wrongly")
    ∷ call_raise_amendment lecturer 7 5 (pos 3600) (pos 4500) (text "added wrongly")
    ∷ call_approve_amendment head 9
    ∷ call_approve_amendment dean 9
    ∷ call_approve_amendment senate 9
    ∷ call_approve_amendment head 10
    ∷ call_approve_amendment dean 10
    ∷ call_approve_amendment senate 10
    ∷ []

abbrev kept : StudentScore → ℕ × Bool
kept s = (s.total, s.is_current)

two_corrections_run :
    map kept (perform_all two_corrections (tables ratified_by_senate)).scores
    ≡ (7500, false) ∷ (8000, false) ∷ (8100, true) ∷ []
unfolding perform_all grade_for_score
two_corrections_run = refl

to_ratification_runs :
    map (λ r. r.status) (perform_all to_ratification (tables draft)).results
    ≡ ratified_by_senate ∷ []
unfolding perform_all grade_for_score
to_ratification_runs = refl

perform_all-AreTrailed_example : AreTrailed (perform_all to_ratification (tables draft))
perform_all-AreTrailed_example = perform_all-AreTrailed to_ratification (tables draft) (tt, tt)
