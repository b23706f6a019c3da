-- ===== src/Examples/Grading.antt =====
-- The theorems on grades, averages and standing at the default scale.
use senet.Prelude.{
  ℕ, ◌+◌, ◌*◌, ◌≤◌, ◌<◌, true, none, some, List, [], ◌∷◌, ◌≡◌, ◌≢◌, ◌↔◌, ◌⊎◌, refl, ap, arith,
  Member, All, sum_by, Member-cons, inl, inr,
}
use senet.Prelude.Text.{Text, text}
use senet.Prelude.Sorting.{IsSortedBy}
use senet.Tenancy.{Institution, GradeRow, ClassBand, highest_only}
use senet.Results.Status.{ratified_by_senate}
use senet.Grading.Scales.{
  points_for_letter, grade_for_score, IsBand, grade_for_score-IsBand, grade_for_score_total,
  grade_for_score_mono,
}
use senet.Grading.Gpa.{
  TranscriptRow, CourseName, by_code, name_of, outstanding_carryovers, totals, gpa, units_of,
  course_of, cumulative_summary,
}
use senet.Grading.Gpa.Averages.{quality_of, gpa_lem}
use senet.Grading.Gpa.Official.{IsOfficial, Beats}
use senet.Grading.Gpa.Counted.{AreBest, earned, cumulative-highest_only, cumulative-all_attempts}
use senet.Grading.Gpa.Carryovers.{outstanding_carryovers-are}
use senet.Grading.Standing.{classify}
use senet.Grading.Standing.Classes.{classify_name, classify_borderline}
use senet.Examples.{school, sheet, score, tables}

grade_for_score-IsBand_example :
    (row : GradeRow) × IsBand school 6999 row × (row.grade ≡ text "B") × (row.points ≡ 400)
unfolding grade_for_score
grade_for_score-IsBand_example = grade_for_score-IsBand school 6999 refl

grade_for_score_total_example : grade_for_score school 0 ≢ none
grade_for_score_total_example = grade_for_score_total school 0 (λ h. ground arith)

abbrev two_rows : Institution
two_rows = record school {
  grade_scale =
      record { grade = text "P"; min_score = 5000; points = 100 }
      ∷ record { grade = text "F"; min_score = 0; points = 0 }
      ∷ [];
}

row_of_two :
    (x : GradeRow)
    → Member x two_rows.grade_scale
    → (x.min_score ≡ 5000) × (x.points ≡ 100) ⊎ (x.min_score ≡ 0) × (x.points ≡ 0)
row_of_two x m = elim (Member-cons m) [
  | inl e ↦ inl (ap (λ r. r.min_score) e, ap (λ r. r.points) e)
  | inr n ↦ elim (Member-cons n) [
    | inl e ↦ inr (ap (λ r. r.min_score) e, ap (λ r. r.points) e)
    | inr none_left ↦ elim none_left [ ]
  ]
]

two_rows-rising :
    (x y : GradeRow)
    → Member x two_rows.grade_scale
    → Member y two_rows.grade_scale
    → x.min_score ≤ y.min_score
    → x.points ≤ y.points
two_rows-rising x y mx my h = elim (row_of_two x mx) [
  | inl a ↦ elim (row_of_two y my) [ inl b ↦ omega arith | inr b ↦ omega arith ]
  | inr a ↦ omega arith
]

grade_for_score_mono_example : 0 ≤ 100
unfolding grade_for_score
grade_for_score_mono_example =
    grade_for_score_mono two_rows 4999 5000 {a = text "F"} {b = text "P"} two_rows-rising
      (omega arith) refl refl

abbrev transcript : List TranscriptRow
transcript = record { score = score; result = sheet ratified_by_senate } ∷ []

gpa_lem_example :
    let q = sum_by (quality_of school) transcript in
    let u = sum_by units_of transcript in
    (g : ℕ) × (gpa (totals school transcript) ≡ some g)
    × (2 * (g * u) ≤ 2 * q + u)
    × (2 * q < 2 * (g * u) + u)
    × (g ≤ 500)
gpa_lem_example =
    gpa_lem school transcript 500
      (omega arith, (omega arith, (omega arith, (omega arith, (omega arith, (omega arith, tt))))))
      (omega arith)

abbrev highest : Institution
highest = record school { carryover_cgpa_method = highest_only }

cumulative-highest_only_example :
    let s = cumulative_summary (tables ratified_by_senate) highest 5 none in
    (best : List TranscriptRow) × AreBest (tables ratified_by_senate) highest 5 none best
    × (s.quality_points
        ≡ sum_by (λ c. c.result.course.credit_units * points_for_letter highest c.score.grade) best)
    × (s.credit_units ≡ sum_by (λ c. c.result.course.credit_units) best)
    × (s.cgpa ≡ gpa (s.quality_points, s.credit_units))
cumulative-highest_only_example =
    cumulative-highest_only (tables ratified_by_senate) highest 5 none refl

cumulative-all_attempts_example :
    let s = cumulative_summary (tables ratified_by_senate) school 5 none in
    (s.quality_points
      ≡ sum_by
          (earned
            (tables ratified_by_senate)
            school
            5
            none
            (λ c. c.result.course.credit_units * points_for_letter school c.score.grade))
          (score ∷ []))
    × (s.credit_units
        ≡ sum_by
            (earned (tables ratified_by_senate) school 5 none (λ c. c.result.course.credit_units))
            (score ∷ []))
    × (s.cgpa ≡ gpa (s.quality_points, s.credit_units))
cumulative-all_attempts_example =
    cumulative-all_attempts (tables ratified_by_senate) school 5 none refl

-- the one score passes 75 in 100, under a pass mark of 80
abbrev strict : Institution
strict = record school { carryover_pass_mark = 8000 }

outstanding_carryovers-are_example :
    IsSortedBy by_code (outstanding_carryovers (tables ratified_by_senate) strict 5)
    × ((name : CourseName)
        → Member name (outstanding_carryovers (tables ratified_by_senate) strict 5)
        → (row : TranscriptRow) × IsOfficial (tables ratified_by_senate) strict 5 none row
          × (row.score.total < 8000)
          × (name ≡ name_of row)
          × ((r : TranscriptRow)
              → IsOfficial (tables ratified_by_senate) strict 5 none r
              → course_of r ≡ course_of row
              → Beats strict r row
              → ⊥))
    × ((row : TranscriptRow)
        → IsOfficial (tables ratified_by_senate) strict 5 none row
        → row.score.total < 8000
        → ((r : TranscriptRow)
            → IsOfficial (tables ratified_by_senate) strict 5 none r
            → course_of r ≡ course_of row
            → Beats strict r row
            → ⊥)
        → (c : TranscriptRow) × IsOfficial (tables ratified_by_senate) strict 5 none c
          × (course_of c ≡ course_of row)
          × (c.score.total ≡ row.score.total)
          × Member (name_of c) (outstanding_carryovers (tables ratified_by_senate) strict 5))
outstanding_carryovers-are_example = outstanding_carryovers-are (tables ratified_by_senate) strict 5

classify_name_example :
    let name = (classify school (some 448)).name in
    ((band : ClassBand) × Member band school.classification_bands
      × (name ≡ some band.name)
      × (band.min_cgpa ≤ 448)
      × All (λ b. b.min_cgpa ≤ 448 → b.min_cgpa ≤ band.min_cgpa) school.classification_bands)
    ⊎ (name ≡ some (text "Fail")) × All (λ b. 448 < b.min_cgpa) school.classification_bands
classify_name_example = classify_name school 448

classify_borderline_example :
    let short = (λ (band : ClassBand).
      Member band school.classification_bands
      × (448 < band.min_cgpa)
      × (band.min_cgpa ≤ 448 + school.senate_review_margin)) in
    (((classify school (some 448)).is_borderline ≡ true) ↔ ((band : ClassBand) × short band))
    × ((name : Text)
        → (classify school (some 448)).borderline_band ≡ some name
        → (band : ClassBand) × short band × (name ≡ band.name))
    × ((margin : ℕ)
        → (classify (record school { senate_review_margin = margin }) (some 448)).name
          ≡ (classify school (some 448)).name)
classify_borderline_example = classify_borderline school 448
