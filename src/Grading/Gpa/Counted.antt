-- ===== src/Grading/Gpa/Counted.antt =====
-- What a CGPA is taken over: every official attempt, or the best one of each course.
use senet.Prelude.{
  ℕ, ◌+◌, ◌*◌, ◌≤◌, Bool, ◌&&◌, Option, none, some, List, [], ◌∷◌, ◌≡◌, refl, arith, All, All-map,
  Member, count, sum_by, filter, first, ◌==◌, ap, sym, ◌∙◌, Option-cases, inl, inr, if◌then◌else◌,
}
use mathlib.Core.Path.{subst}
use senet.Prelude.Keys.{keyed_unique}
use senet.Prelude.Sorting.{sort_by, insert_by}
use senet.Tenancy.{Institution, all_attempts, highest_only}
use senet.Results.{StudentScore, CourseResult}
use senet.Results.Status.{ResultStatus}
use senet.Database.{Db}
use senet.Grading.Scales.{points_for_letter}
use senet.Grading.Gpa.{
  TranscriptRow, is_official, with_result, joined, earlier, official_rows, course_of,
  best_by_course, counted_rows, totals, gpa, units_of, cumulative_summary, status_is,
}
use senet.Grading.Gpa.Averages.{quality_of, totals-eq-sums}
use senet.Grading.Gpa.Attempts.{best_by_course_lem}
use senet.Grading.Gpa.Official.{
  IsOfficial, Beats, Beats-worse, official_rows_lem, counted_status, counted-or_else,
}

sum_by-insert_by :
    {A : Type 0} (before : A → A → Bool) (f : A → ℕ) (x : A) (ys : List A)
    → sum_by f (insert_by before x ys) ≡ f x + sum_by f ys
sum_by-insert_by before f x [] = refl
sum_by-insert_by before f x (y ∷ ys) = ground (arith, sum_by-insert_by before f x ys)

sum_by-sort_by :
    {A : Type 0} (before : A → A → Bool) (f : A → ℕ) (xs : List A)
    → sum_by f (sort_by before xs) ≡ sum_by f xs
sum_by-sort_by before f [] = refl
sum_by-sort_by before f (x ∷ xs) =
    sum_by-insert_by before f x (sort_by before xs) ∙ ap (λ n. f x + n) (sum_by-sort_by before f xs)

-- the best official attempts: no official attempt at the course of one of them beats it, each
-- course has one at most, and each course with an official attempt has one
pub record AreBest (db : Db) (i : Institution) (student : ℕ) (status : Option ResultStatus)
    (best : List TranscriptRow) : Type 0 where
  pub official : All (IsOfficial db i student status) best
  pub unbeaten :
      (c r : TranscriptRow)
      → Member c best
      → IsOfficial db i student status r
      → course_of r ≡ course_of c
      → Beats i r c
      → ⊥
  pub once : (course : ℕ) → count (λ c. course_of c == course) best ≤ 1
  pub covered :
      (r : TranscriptRow)
      → IsOfficial db i student status r
      → (c : TranscriptRow) × Member c best × (course_of c ≡ course_of r)

module _ (db : Db) (i : Institution) (student : ℕ) (status : Option ResultStatus) where
  pub best-AreBest :
      AreBest db i student status (best_by_course i (official_rows db i student status))
  best-AreBest =
      let rows = official_rows db i student status in
      let best = best_by_course i rows in
      let (members, once, covers) = best_by_course_lem i rows in
      record {
        official =
            All-map (λ c. Member c rows) (IsOfficial db i student status) best
              (λ c m. (official_rows_lem db i student status c).0 m) members;
        unbeaten = λ c r m o e b.
            let (c', m', e', w) = covers r ((official_rows_lem db i student status r).1 o) in
            let same : c' ≡ c = keyed_unique course_of best once m' m (e' ∙ e) in
            let t = Beats-worse i r c' (subst (λ x. Beats i r x) (sym same) b) in cc (w, t);
        once = once;
        covered = λ r o.
            let (c, m, e, w) = covers r ((official_rows_lem db i student status r).1 o) in
            (c, m, e);
      }

  -- Under HIGHEST_ONLY the cumulative quality points and credit units are those of the best
  -- official attempts: current scores of the student in the institution on sheets in the status
  -- that counts, one for each course attempted, which no official attempt at the course beats by
  -- grade points, then total, then time.
  pub cumulative-highest_only :
      i.carryover_cgpa_method ≡ highest_only
      → let s = cumulative_summary db i student status in
        (best : List TranscriptRow) × AreBest db i student status best
        × (s.quality_points
            ≡ sum_by (λ c. c.result.course.credit_units * points_for_letter i c.score.grade) best)
        × (s.credit_units ≡ sum_by (λ c. c.result.course.credit_units) best)
        × (s.cgpa ≡ gpa (s.quality_points, s.credit_units))
  unfolding cumulative_summary counted_rows
  cumulative-highest_only h =
      let best = best_by_course i (official_rows db i student status) in
      let sums = totals-eq-sums i best in
      let counted = ap (λ m. counted_rows m i (official_rows db i student status)) h in
      (
        best,
        best-AreBest,
        ap (λ rs. (totals i rs).0) counted ∙ ap (λ t. t.0) sums,
        ap (λ rs. (totals i rs).1) counted ∙ ap (λ t. t.1) sums,
        refl,
      )

  -- what one score row brings to a sum: `f` of it where it is the student's, in the institution,
  -- current, and on a sheet in the status that counts
  abbrev brings : (TranscriptRow → ℕ) → StudentScore → Option CourseResult → ℕ
  brings f s none = 0
  brings f s (some r) =
      if s.is_current
        && s.student_id == student
        && s.institution_id == i.id
        && status_is (counted_status i status) r.status
      then f (record { score = s; result = r })
      else 0

  abbrev pub earned : (TranscriptRow → ℕ) → StudentScore → ℕ
  earned f s = brings f s (first (λ r. r.id == s.result_id) db.results)

  joined-earned :
      (f : TranscriptRow → ℕ) (scores : List StudentScore)
      → sum_by f (filter (is_official i student status) (joined db.results scores))
        ≡ sum_by (earned f) scores
  unfolding joined with_result
  joined-earned f [] = refl
  joined-earned f (s ∷ scores) =
      elim (Option-cases (first (λ (r : CourseResult). r.id == s.result_id) db.results)) [
        | inl e ↦ let ih = joined-earned f scores in rw e (omega arith)
        | inr (r, e) ↦ rw e (ground (arith, joined-earned f scores, counted-or_else i status))
      ]

  -- Under ALL_ATTEMPTS the cumulative quality points and credit units are the sums over every
  -- score row of the student in the institution that is current and on a sheet in the status that
  -- counts.
  pub cumulative-all_attempts :
      i.carryover_cgpa_method ≡ all_attempts
      → let s = cumulative_summary db i student status in
        (s.quality_points
          ≡ sum_by
              (earned (λ c. c.result.course.credit_units * points_for_letter i c.score.grade))
              db.scores)
        × (s.credit_units ≡ sum_by (earned (λ c. c.result.course.credit_units)) db.scores)
        × (s.cgpa ≡ gpa (s.quality_points, s.credit_units))
  unfolding cumulative_summary counted_rows official_rows
  cumulative-all_attempts h =
      let rows = official_rows db i student status in
      let sums = totals-eq-sums i rows in
      let counted = ap (λ m. counted_rows m i rows) h in
      let raw = filter (is_official i student status) (joined db.results db.scores) in
      (
        ap (λ rs. (totals i rs).0) counted
            ∙ ap (λ t. t.0) sums
            ∙ sum_by-sort_by earlier (quality_of i) raw
            ∙ joined-earned (quality_of i) db.scores,
        ap (λ rs. (totals i rs).1) counted
            ∙ ap (λ t. t.1) sums
            ∙ sum_by-sort_by earlier units_of raw
            ∙ joined-earned units_of db.scores,
        refl,
      )
