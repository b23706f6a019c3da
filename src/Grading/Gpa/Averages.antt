-- ===== src/Grading/Gpa/Averages.antt =====
-- An average is the weighted mean of the points, correctly rounded, and stays on the scale.
use senet.Prelude.{ℕ, ◌+◌, ◌*◌, ◌≤◌, ◌<◌, some, List, [], ◌∷◌, ◌≡◌, ◌∙◌, All, sum_by, arith}
use senet.Prelude.Rounding.{half_up, half_up_bounds, half_up-le}
use senet.Tenancy.{Institution}
use senet.Grading.Scales.{points_for_letter, points_for_letter-le}
use senet.Grading.Gpa.{TranscriptRow, units_of, totals, totals_from, gpa}

-- the quality points of one row
abbrev pub quality_of : Institution → TranscriptRow → ℕ
quality_of i row = units_of row * points_for_letter i row.score.grade

totals_from-eq-sums :
    (i : Institution) (q u : ℕ) (rows : List TranscriptRow)
    → totals_from i (q, u) rows ≡ (q + sum_by (quality_of i) rows, u + sum_by units_of rows)
unfolding totals_from
totals_from-eq-sums i q u [] = ground arith
totals_from-eq-sums i q u (row ∷ rows) =
    totals_from-eq-sums i (q + quality_of i row) (u + units_of row) rows ∙ ground arith

-- the loop adds up the quality points and the credit units
pub totals-eq-sums :
    (i : Institution) (rows : List TranscriptRow)
    → totals i rows ≡ (sum_by (quality_of i) rows, sum_by units_of rows)
unfolding totals
totals-eq-sums i rows = totals_from-eq-sums i 0 0 rows ∙ ground arith

quality-le :
    (i : Institution) (top : ℕ) (rows : List TranscriptRow)
    → All (λ row. row.points ≤ top) i.grade_scale
    → sum_by (quality_of i) rows ≤ top * sum_by units_of rows
quality-le i top [] h = omega arith
quality-le i top (row ∷ rows) h =
    grind (arith, quality-le i top rows h, points_for_letter-le i row.score.grade top h)

-- Where credit units count a GPA is given: the quality points over the credit units, rounded to
-- hundredths with a tie going up, and no higher than any bound on the points of the scale.
pub gpa_lem :
    (i : Institution) (rows : List TranscriptRow) (top : ℕ)
    → All (λ row. row.points ≤ top) i.grade_scale
    → 0 < sum_by units_of rows
    → let q = sum_by (quality_of i) rows in
      let u = sum_by units_of rows in
      (g : ℕ) × (gpa (totals i rows) ≡ some g)
      × (2 * (g * u) ≤ 2 * q + u)
      × (2 * q < 2 * (g * u) + u)
      × (g ≤ top)
unfolding gpa
gpa_lem i rows top h u =
    let b = half_up_bounds (sum_by (quality_of i) rows) (sum_by units_of rows) u in
    (
      half_up (sum_by (quality_of i) rows) (sum_by units_of rows),
      rw totals-eq-sums (ground arith),
      b.0,
      b.1,
      half_up-le _ _ top u (quality-le i top rows h),
    )
