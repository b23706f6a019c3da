-- ===== src/Tenancy.antt =====
-- backend/tenancy/models.py: an institution and its configuration. Decimals are held in
-- hundredths, so a pass mark of 40 is 4000 and a grade point of 4.5 is 450.
pub mod Rules
use senet.Prelude.{ℕ, ◌+◌, Bool, Option, some, List, [], ◌∷◌}
use senet.Prelude.Text.{Text, text}
use senet.Results.Status.{ResultStatus, ratified_by_senate}

-- `CARRYOVER_CGPA_METHOD_CHOICES`
pub data CarryoverMethod : Type 0 where
  all_attempts highest_only : CarryoverMethod

-- one row of `grade_scale`
pub record GradeRow : Type 0 where
  pub grade : Text
  pub min_score : ℕ
  pub points : ℕ

-- one row of `classification_bands`
pub record ClassBand : Type 0 where
  pub name : Text
  pub min_cgpa : ℕ

pub record Institution : Type 0 where
  pub id : ℕ
  pub default_ca_weight : ℕ
  pub default_exam_weight : ℕ
  pub pass_mark : ℕ
  pub probation_cgpa_threshold : ℕ
  pub min_credit_units_per_semester : ℕ
  pub max_credit_units_per_semester : ℕ
  pub carryover_cgpa_method : CarryoverMethod
  pub carryover_pass_mark : ℕ
  pub grade_scale : List GradeRow
  pub classification_bands : List ClassBand
  pub withdrawal_cgpa_threshold : ℕ
  pub senate_review_margin : ℕ
  -- `none` is a text that names no result status
  pub gpa_source_status : Option ResultStatus
  pub lecturer_ranks : List Text

abbrev pub default_grade_scale : List GradeRow
default_grade_scale =
    record { grade = text "A"; min_score = 7000; points = 500 }
    ∷ record { grade = text "B"; min_score = 6000; points = 400 }
    ∷ record { grade = text "C"; min_score = 5000; points = 300 }
    ∷ record { grade = text "D"; min_score = 4500; points = 200 }
    ∷ record { grade = text "E"; min_score = 4000; points = 100 }
    ∷ record { grade = text "F"; min_score = 0; points = 0 }
    ∷ []

abbrev pub default_classification_bands : List ClassBand
default_classification_bands =
    record { name = text "First Class"; min_cgpa = 450 }
    ∷ record { name = text "Second Class Upper"; min_cgpa = 350 }
    ∷ record { name = text "Second Class Lower"; min_cgpa = 240 }
    ∷ record { name = text "Third Class"; min_cgpa = 150 }
    ∷ []

abbrev pub university_lecturer_ranks : List Text
university_lecturer_ranks =
    text "Graduate Assistant"
    ∷ text "Assistant Lecturer"
    ∷ text "Lecturer II"
    ∷ text "Lecturer I"
    ∷ text "Senior Lecturer"
    ∷ text "Associate Professor"
    ∷ text "Professor"
    ∷ []

-- a new institution: the defaults of the model's fields
abbrev pub new_institution : ℕ → Institution
new_institution id = record {
  id = id;
  default_ca_weight = 40;
  default_exam_weight = 60;
  pass_mark = 4000;
  probation_cgpa_threshold = 150;
  min_credit_units_per_semester = 15;
  max_credit_units_per_semester = 24;
  carryover_cgpa_method = all_attempts;
  carryover_pass_mark = 4000;
  grade_scale = default_grade_scale;
  classification_bands = default_classification_bands;
  withdrawal_cgpa_threshold = 100;
  senate_review_margin = 5;
  gpa_source_status = some ratified_by_senate;
  lecturer_ranks = university_lecturer_ranks;
}
