-- ===== src/Results/Steps/Sound.antt =====
-- The invariant of the tables of results, kept by every step.
use senet.Prelude.{
  ℕ, ◌+◌, ◌≤◌, ◌<◌, true, false, List, [], ◌∷◌, ◌++◌, ◌≡◌, refl, sym, count, exists, exists-count,
  count-append, save, All, All-append, All-save, All-member, Member, arith, Bool-cases, inl, inr,
}
use mathlib.Core.Path.{subst}
use senet.Prelude.Keys.{
  IsKeyed, AllBelow, IsKeyed-save, IsKeyed-append, AllBelow-save, AllBelow-mono, count-replace,
}
use senet.Results.{CourseResult, StudentScore, ResultAmendment}
use senet.Prelude.Text.{Text}
use senet.Results.Status.{ResultStatus}
use senet.Results.Rows.{result_key, score_key, amendment_key, is_current_for}
use senet.Results.Scores.{sheet_of}
use senet.Results.Pipeline.{moved}
use senet.Results.Steps.{
  Step, unchanged, sheet_created, sheet_moved, score_added, score_changed, amendment_raised,
  amendment_moved, amendment_applied, report_added, Steps, start, next, retired, superseding,
}
use senet.Database.{Db}

abbrev pub AddsUp : StudentScore → Type 0
AddsUp s = s.total ≡ s.ca_score + s.exam_score

abbrev pub ProposalAddsUp : ResultAmendment → Type 0
ProposalAddsUp a = a.proposed_total ≡ a.proposed_ca_score + a.proposed_exam_score

-- Sheets have unique keys below the next fresh one, and a course term has one sheet at most.
pub record SheetsSound (n : ℕ) (rows : List CourseResult) : Type 0 where
  pub keyed : IsKeyed result_key rows
  pub below : AllBelow result_key n rows
  pub one_sheet : (c s t : ℕ) → count (sheet_of c s t) rows ≤ 1

-- Score rows have unique keys below the next fresh one, a student has one current score at most
-- on a sheet, and every total is the sum of its parts.
pub record ScoresSound (n : ℕ) (rows : List StudentScore) : Type 0 where
  pub keyed : IsKeyed score_key rows
  pub below : AllBelow score_key n rows
  pub one_current : (r s : ℕ) → count (is_current_for r s) rows ≤ 1
  pub totals : All AddsUp rows

pub record IsSound (db : Db) : Type 0 where
  pub sheets : SheetsSound db.next_id db.results
  pub scores : ScoresSound db.next_id db.scores
  pub proposals : All ProposalAddsUp db.amendments

one_sheet-append :
    (c s t : ℕ) (row : CourseResult) (rows : List CourseResult)
    → count (sheet_of row.course.id row.session.id row.semester.id) rows ≡ 0
    → count (sheet_of c s t) rows ≤ 1
    → count (sheet_of c s t) (rows ++ row ∷ []) ≤ 1
one_sheet-append c s t row rows z h = rw count-append (elim (Bool-cases (sheet_of c s t row)) [
  | inl k ↦
      let e : (row.course.id ≡ c) × (row.session.id ≡ s) × (row.semester.id ≡ t) = ground arith in
      let z' : count (sheet_of c s t) rows ≡ 0 = cc (z, e.0, e.1, e.2) in ground arith
  | inr k ↦ ground arith
])

one_current-append :
    (r s : ℕ) (row : StudentScore) (rows : List StudentScore)
    → count (is_current_for row.result_id row.student_id) rows ≡ 0
    → count (is_current_for r s) rows ≤ 1
    → count (is_current_for r s) (rows ++ row ∷ []) ≤ 1
one_current-append r s row rows z h = rw count-append (elim (Bool-cases (is_current_for r s row)) [
  | inl k ↦
      let e : (row.result_id ≡ r) × (row.student_id ≡ s) = ground arith in
      let z' : count (is_current_for r s) rows ≡ 0 = cc (z, e.0, e.1) in ground arith
  | inr k ↦ ground arith
])

-- a fresh key is above all that were given out
below_next : {n : ℕ} {k : ℕ} → k ≡ n → k < n + 1
below_next e = omega arith

module _ (n : ℕ) where
  sheets_up : (rows : List CourseResult) → SheetsSound n rows → SheetsSound (n + 1) rows
  sheets_up rows h = record {
    keyed = h.keyed;
    below = AllBelow-mono result_key n (n + 1) rows (omega arith) h.below;
    one_sheet = h.one_sheet;
  }

  scores_up : (rows : List StudentScore) → ScoresSound n rows → ScoresSound (n + 1) rows
  scores_up rows h = record {
    keyed = h.keyed;
    below = AllBelow-mono score_key n (n + 1) rows (omega arith) h.below;
    one_current = h.one_current;
    totals = h.totals;
  }

  -- a new sheet, for a course term that has none
  sheets-append :
      (row : CourseResult) (rows : List CourseResult)
      → row.id ≡ n
      → exists (sheet_of row.course.id row.session.id row.semester.id) rows ≡ false
      → SheetsSound n rows
      → SheetsSound (n + 1) (rows ++ row ∷ [])
  sheets-append row rows fresh free h = record {
    keyed = IsKeyed-append result_key n row rows fresh h.below h.keyed;
    below =
        All-append (λ r. r.id < n + 1) rows (row ∷ []) (sheets_up rows h).below
          (below_next fresh, tt);
    one_sheet =
        λ c s t. one_sheet-append c s t row rows (exists-count _ rows free) (h.one_sheet c s t);
  }

  -- a new status on a stored sheet
  sheets-move :
      (sheet : CourseResult) (to_status : ResultStatus) (reason : Text) (rows : List CourseResult)
      → Member sheet rows
      → SheetsSound n rows
      → SheetsSound n (save result_key (moved sheet to_status reason) rows)
  sheets-move sheet to_status reason rows m h =
      let row = moved sheet to_status reason in
      record {
        keyed = IsKeyed-save result_key row rows h.keyed;
        below = AllBelow-save result_key n row rows (All-member (λ r. r.id < n) m h.below) h.below;
        one_sheet = λ c s t. ground (
          arith,
          h.one_sheet c s t,
          count-replace result_key (sheet_of c s t) sheet row rows h.keyed m refl,
        );
      }

  -- a new score row, for a student with no current one
  scores-append :
      (row : StudentScore) (rows : List StudentScore)
      → row.id ≡ n
      → AddsUp row
      → exists (is_current_for row.result_id row.student_id) rows ≡ false
      → ScoresSound n rows
      → ScoresSound (n + 1) (rows ++ row ∷ [])
  scores-append row rows fresh adds free h = record {
    keyed = IsKeyed-append score_key n row rows fresh h.below h.keyed;
    below =
        All-append (λ r. r.id < n + 1) rows (row ∷ []) (scores_up rows h).below
          (below_next fresh, tt);
    one_current =
        λ r s. one_current-append r s row rows (exists-count _ rows free) (h.one_current r s);
    totals = All-append AddsUp rows (row ∷ []) h.totals (adds, tt);
  }

  -- a stored score row written over, current only where it was
  scores-replace :
      (old new : StudentScore) (rows : List StudentScore)
      → Member old rows
      → new.id ≡ old.id
      → AddsUp new
      → ((r s : ℕ) → is_current_for r s new ≡ true → is_current_for r s old ≡ true)
      → ScoresSound n rows
      → ScoresSound n (save score_key new rows)
  scores-replace old new rows m e adds sub h = record {
    keyed = IsKeyed-save score_key new rows h.keyed;
    below =
        AllBelow-save score_key n new rows
          (subst (λ k. k < n) (sym e) (All-member (λ s. s.id < n) m h.below)) h.below;
    one_current = λ r s. ground (
      arith,
      h.one_current r s,
      sub r s,
      count-replace score_key (is_current_for r s) old new rows h.keyed m e,
    );
    totals = All-save AddsUp score_key new rows adds h.totals;
  }

-- a stored amendment written over with the same proposal
proposals-save :
    (old new : ResultAmendment) (rows : List ResultAmendment)
    → Member old rows
    → (ProposalAddsUp old → ProposalAddsUp new)
    → All ProposalAddsUp rows
    → All ProposalAddsUp (save amendment_key new rows)
proposals-save old new rows m f h =
    All-save ProposalAddsUp amendment_key new rows (f (All-member ProposalAddsUp m h)) h

-- Every step keeps the invariant.
pub Step-IsSound : {a b : Db} → Step a b → IsSound a → IsSound b
Step-IsSound (unchanged e) h = subst IsSound (sym e) h
Step-IsSound {a} (sheet_created row entry fresh new free e) h = subst IsSound (sym e) (record {
  sheets = sheets-append a.next_id row a.results fresh free h.sheets;
  scores = scores_up a.next_id a.scores h.scores;
  proposals = h.proposals;
})
Step-IsSound {a} (sheet_moved sheet to_status reason entry sent m listed open_sheet named after e)
      h =
    subst IsSound (sym e) (record {
      sheets = sheets-move a.next_id sheet to_status reason a.results m h.sheets;
      scores = h.scores;
      proposals = h.proposals;
    })
Step-IsSound {a} (score_added row entry fresh adds free open_sheet e) h =
    subst IsSound (sym e) (record {
      sheets = sheets_up a.next_id a.results h.sheets;
      scores = scores-append a.next_id row a.scores fresh adds free h.scores;
      proposals = h.proposals;
    })
Step-IsSound {a} (score_changed old ca exam grade entry m open_sheet e) h =
    subst IsSound (sym e) (record {
      sheets = h.sheets;
      scores = scores-replace a.next_id old _ a.scores m refl refl (λ r s t. t) h.scores;
      proposals = h.proposals;
    })
Step-IsSound {a} (amendment_raised row entry fresh adds pending e) h =
    subst IsSound (sym e) (record {
      sheets = sheets_up a.next_id a.results h.sheets;
      scores = scores_up a.next_id a.scores h.scores;
      proposals = All-append ProposalAddsUp a.amendments (row ∷ []) h.proposals (adds, tt);
    })
Step-IsSound {a} (amendment_moved old to_status reason entry m listed other e) h =
    subst IsSound (sym e) (record {
      sheets = h.sheets;
      scores = h.scores;
      proposals = proposals-save old _ a.amendments m (λ p. p) h.proposals;
    })
Step-IsSound {a} (amendment_applied old original institution one two m ready mo current free e) h =
    let kept =
      scores-replace a.next_id original (retired original) a.scores mo refl
        (All-member AddsUp mo h.scores.totals) (λ r s t. ground arith) h.scores in
    subst IsSound (sym e) (record {
      sheets = sheets_up a.next_id a.results h.sheets;
      scores =
          scores-append a.next_id (superseding old original a.next_id institution a.now) _ refl
            (All-member ProposalAddsUp m h.proposals) free kept;
      proposals = proposals-save old _ a.amendments m (λ p. p) h.proposals;
    })
Step-IsSound {a} (report_added row e) h = subst IsSound (sym e) (record {
  sheets = sheets_up a.next_id a.results h.sheets;
  scores = scores_up a.next_id a.scores h.scores;
  proposals = h.proposals;
})

pub Steps-IsSound : {a b : Db} → Steps a b → IsSound a → IsSound b
Steps-IsSound start h = h
Steps-IsSound (next r s) h = Step-IsSound s (Steps-IsSound r h)
