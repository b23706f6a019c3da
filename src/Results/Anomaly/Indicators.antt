-- ===== src/Results/Anomaly/Indicators.antt =====
-- What the indicators of a sheet say about its score rows.
use senet.Prelude.{
  ℕ, ◌+◌, ◌*◌, ◌≤◌, some, List, [], ◌∷◌, ◌≡◌, sym, ◌∙◌, refl, ltb, map, filter, length, count,
  sum_by, arith,
}
use mathlib.Core.Path.{subst}
use senet.Prelude.Text.{Text}
use senet.Prelude.Rounding.{half_even, half_even-le, half_even-ge}
use senet.Grading.Scales.{scale_bands}
use senet.Results.{CourseResult, StudentScore}
use senet.Results.Pipeline.{scored}
use senet.Results.Anomaly.{
  Tally, zeros, get_or, tally, highest, lowest, stats_of, compute_anomaly_stats,
}
use senet.Results.Anomaly.Tallies.{
  fails, graded_with, total_of, tally-failures, tally-sum, highest_bound, lowest_bound, rate_flag,
  get_or-zeros, tally-distribution,
}
use senet.Database.{Db}

module _ (pass_mark : ℕ) (letters : List Text) where
  stats-flag :
      (rows : List StudentScore)
      → (stats_of pass_mark letters rows).high_failure_rate
        ≡ ltb (101 * length rows) (200 * count (fails pass_mark) rows)
  unfolding stats_of
  stats-flag [] = refl
  stats-flag (row ∷ rows) =
      let start : Tally = record {
        total_sum = 0;
        distribution = zeros letters [];
        failure_count = 0;
      } in
      let n = length (row ∷ rows) in
      let failures : (tally pass_mark start (row ∷ rows)).failure_count
          ≡ count (fails pass_mark) (row ∷ rows) =
        omega (arith, tally-failures pass_mark start (row ∷ rows)) in
      subst
        (λ f.
          ltb 50 (half_even (f * 100) n)
          ≡ ltb (101 * n) (200 * count (fails pass_mark) (row ∷ rows)))
        (sym failures) (rate_flag (count (fails pass_mark) (row ∷ rows)) n (omega arith))

  stats-distribution :
      (letter : Text) (rows : List StudentScore)
      → get_or letter 0 (stats_of pass_mark letters rows).grade_distribution
        ≡ count (graded_with letter) rows
  unfolding stats_of
  stats-distribution letter [] = get_or-zeros letter letters []
  stats-distribution letter (row ∷ rows) =
      let start : Tally = record {
        total_sum = 0;
        distribution = zeros letters [];
        failure_count = 0;
      } in
      tally-distribution pass_mark letter start (row ∷ rows)
      ∙ omega (arith, get_or-zeros letter letters [])

  stats-average :
      (rows : List StudentScore) (average : ℕ)
      → (stats_of pass_mark letters rows).class_average ≡ some average
      → (low : ℕ) × (high : ℕ) × ((stats_of pass_mark letters rows).lowest_score ≡ some low)
        × ((stats_of pass_mark letters rows).highest_score ≡ some high)
        × (low ≤ average)
        × (average ≤ high)
  unfolding stats_of
  stats-average [] average h = cc
  stats-average (row ∷ rows) average h =
      let start : Tally = record {
        total_sum = 0;
        distribution = zeros letters [];
        failure_count = 0;
      } in
      let n = length (row ∷ rows) in
      let low = lowest row.total rows in
      let high = highest row.total rows in
      let sum = (tally pass_mark start (row ∷ rows)).total_sum in
      let total : sum ≡ row.total + sum_by total_of rows =
        omega (arith, tally-sum pass_mark start (row ∷ rows)) in
      let e : half_even sum n ≡ average = cc h in
      let above : low * n ≤ sum = grind (arith, lowest_bound row.total rows) in
      let below : sum ≤ high * n = grind (arith, highest_bound row.total rows) in
      (
        low,
        high,
        refl,
        refl,
        subst (λ x. low ≤ x) e (half_even-ge sum n low (omega arith) above),
        subst (λ x. x ≤ high) e (half_even-le sum n high (omega arith) below),
      )

-- The failure flag is up when more than 101 in 200 students fail: the rate is rounded to
-- hundredths before the comparison with 0.50.
pub failure_flag_lem :
    (db : Db) (result : CourseResult)
    → let rows = filter (scored result.id) db.scores in
      (compute_anomaly_stats db result).high_failure_rate
      ≡ ltb (101 * length rows) (200 * count (fails result.institution.pass_mark) rows)
unfolding compute_anomaly_stats
failure_flag_lem db result =
    stats-flag result.institution.pass_mark (map (λ b. b.grade) (scale_bands result.institution))
      (filter (scored result.id) db.scores)

-- The distribution counts, for every letter, the current rows of the sheet that have it.
pub distribution_lem :
    (db : Db) (result : CourseResult) (letter : Text)
    → get_or letter 0 (compute_anomaly_stats db result).grade_distribution
      ≡ count (graded_with letter) (filter (scored result.id) db.scores)
unfolding compute_anomaly_stats
distribution_lem db result letter =
    stats-distribution result.institution.pass_mark
      (map (λ b. b.grade) (scale_bands result.institution)) letter
      (filter (scored result.id) db.scores)

-- Where there is a class average there are a lowest and a highest score, and it lies between them.
class_average_between :
    (db : Db) (result : CourseResult) (average : ℕ)
    → (compute_anomaly_stats db result).class_average ≡ some average
    → (low : ℕ) × (high : ℕ) × ((compute_anomaly_stats db result).lowest_score ≡ some low)
      × ((compute_anomaly_stats db result).highest_score ≡ some high)
      × (low ≤ average)
      × (average ≤ high)
unfolding compute_anomaly_stats
class_average_between db result average h =
    stats-average result.institution.pass_mark (map (λ b. b.grade) (scale_bands result.institution))
      (filter (scored result.id) db.scores) average h
