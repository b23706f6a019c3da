-- ===== src/Results/Anomaly.antt =====
-- The indicators that a Departmental Board reads: `compute_anomaly_stats` of
-- backend/results/services.py. Averages and rates are in hundredths.
pub mod Tallies
pub mod Indicators
use senet.Prelude.{
  ℕ, ◌+◌, ◌*◌, Bool, true, false, ◌&&◌, Option, none, some, List, [], ◌∷◌, ◌++◌, ◌==◌, ltb, leb,
  map, filter, length, if◌then◌else◌,
}
use senet.Prelude.Text.{Text, eq_text}
use senet.Prelude.Rounding.{half_even}
use senet.Grading.Scales.{scale_bands}
use senet.Results.{CourseResult, StudentScore}
use senet.Results.Pipeline.{scored}
use senet.Database.{Db}

abbrev pub Distribution : Type 0
Distribution = List (Text × ℕ)

-- `dict.fromkeys(letters, 0)`
unfoldable pub has_letter : Text → Distribution → Bool
has_letter letter [] = false
has_letter letter ((l, n) ∷ d) = if eq_text l letter then true else has_letter letter d

unfoldable pub zeros : List Text → Distribution → Distribution
zeros [] d = d
zeros (letter ∷ letters) d =
    zeros letters (if has_letter letter d then d else d ++ (letter, 0) ∷ [])

-- `distribution[grade] = distribution.get(grade, 0) + 1`
unfoldable pub bump : Text → Distribution → Distribution
bump grade [] = (grade, 1) ∷ []
bump grade ((l, n) ∷ d) = if eq_text l grade then (l, n + 1) ∷ d else (l, n) ∷ bump grade d

abbrev pub get_or : Text → ℕ → Distribution → ℕ
get_or letter default [] = default
get_or letter default ((l, n) ∷ d) = if eq_text l letter then n else get_or letter default d

-- the variables of the loop over the rows
pub record Tally : Type 0 where
  pub total_sum : ℕ
  pub distribution : Distribution
  pub failure_count : ℕ

-- one round of the loop
abbrev pub tally_row : ℕ → Tally → StudentScore → Tally
tally_row pass_mark t row = record {
  total_sum = t.total_sum + row.total;
  distribution = bump row.grade t.distribution;
  failure_count = if ltb row.total pass_mark then t.failure_count + 1 else t.failure_count;
}

unfoldable pub tally : ℕ → Tally → List StudentScore → Tally
tally pass_mark t [] = t
tally pass_mark t (row ∷ rows) = tally pass_mark (tally_row pass_mark t row) rows

-- `max(totals)` and `min(totals)`, from the first total on
unfoldable pub highest : ℕ → List StudentScore → ℕ
highest m [] = m
highest m (row ∷ rows) = highest (if ltb m row.total then row.total else m) rows

unfoldable pub lowest : ℕ → List StudentScore → ℕ
lowest m [] = m
lowest m (row ∷ rows) = lowest (if ltb row.total m then row.total else m) rows

pub record Stats : Type 0 where
  pub total_students : ℕ
  pub class_average : Option ℕ
  pub highest_score : Option ℕ
  pub lowest_score : Option ℕ
  pub failure_count : ℕ
  pub failure_rate : ℕ
  pub grade_distribution : Distribution
  pub high_failure_rate : Bool
  pub abnormally_high_grades : Bool

-- the thresholds 0.50, the first in hundredths, the second as one half
abbrev high_failure_rate_threshold : ℕ
high_failure_rate_threshold = 50

unfoldable pub top_count : List Text → Distribution → ℕ
top_count [] d = 0
top_count (letter ∷ letters) d = get_or letter 0 d

unfoldable pub stats_of : ℕ → List Text → List StudentScore → Stats
unfolding tally highest lowest half_even top_count
stats_of pass_mark letters [] = record {
  total_students = 0;
  class_average = none;
  highest_score = none;
  lowest_score = none;
  failure_count = 0;
  failure_rate = 0;
  grade_distribution = zeros letters [];
  high_failure_rate = false;
  abnormally_high_grades = false;
}
stats_of pass_mark letters (row ∷ rows) =
    let all = row ∷ rows in
    let n = length all in
    let t =
      tally pass_mark (record { total_sum = 0; distribution = zeros letters []; failure_count = 0 })
        all in
    let failure_rate = half_even (t.failure_count * 100) n in
    record {
      total_students = n;
      class_average = some (half_even t.total_sum n);
      highest_score = some (highest row.total rows);
      lowest_score = some (lowest row.total rows);
      failure_count = t.failure_count;
      failure_rate = failure_rate;
      grade_distribution = t.distribution;
      high_failure_rate = ltb high_failure_rate_threshold failure_rate;
      -- `distinction_count / n > 1/2`
      abnormally_high_grades = ltb n (2 * top_count letters t.distribution);
    }

unfoldable pub compute_anomaly_stats : Db → CourseResult → Stats
unfolding stats_of zeros has_letter bump
compute_anomaly_stats db result =
    stats_of result.institution.pass_mark (map (λ b. b.grade) (scale_bands result.institution))
      (filter (scored result.id) db.scores)
