-- ===== src/Tenancy/Rules.antt =====
-- `Institution.clean` of backend/tenancy/models.py. The JSON fields are typed here, so the tests
-- of their shape are not needed.
use senet.Prelude.{
  ◌+◌, Bool, true, false, not, ◌&&◌, ◌||◌, List, [], ◌∷◌, ◌==◌, ltb, map, if◌then◌else◌,
}
use senet.Prelude.Text.{Text, is_empty, strip, eq_text}
use senet.Exec.{Result, ok, err, invalid}
use senet.Tenancy.{Institution, GradeRow}

abbrev pub contains : Text → List Text → Bool
contains t [] = false
contains t (x ∷ xs) = eq_text t x || contains t xs

-- `len(set(names)) == len(names)`
abbrev pub all_distinct : List Text → Bool
all_distinct [] = true
all_distinct (x ∷ xs) = not (contains x xs) && all_distinct xs

-- `all(r.strip() for r in ranks)`
abbrev pub none_blank : List Text → Bool
none_blank [] = true
none_blank (x ∷ xs) = not (is_empty (strip x)) && none_blank xs

abbrev pub letters : List GradeRow → List Text
letters = map (λ row. row.grade)

abbrev pub is_nil {ℓ} : {A : Type ℓ} → List A → Bool
is_nil [] = true
is_nil (x ∷ xs) = false

unfoldable pub clean : Institution → Result (Unit {0})
clean i =
    if not (i.default_ca_weight + i.default_exam_weight == 100)
    then err (invalid "CA weight and Exam weight must sum to 100.")
    else if ltb i.max_credit_units_per_semester i.min_credit_units_per_semester
    then err (invalid "Minimum credit units cannot exceed the maximum.")
    else if not (none_blank i.lecturer_ranks)
    then err (invalid "Lecturer ranks must be a list of non-empty names.")
    else if not (all_distinct i.lecturer_ranks)
    then err (invalid "Lecturer ranks must not contain duplicates.")
    else if is_nil i.grade_scale
    then err (invalid "Grade scale must be a non-empty list of {grade, min_score, points} rows.")
    else if not (all_distinct (letters i.grade_scale))
    then err (invalid "Grade scale letters must be unique.")
    else ok tt
