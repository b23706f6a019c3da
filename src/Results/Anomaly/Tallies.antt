-- ===== src/Results/Anomaly/Tallies.antt =====
-- What the loops of `compute_anomaly_stats` count.
use senet.Prelude.{
  ℕ, ◌+◌, ◌*◌, ◌/◌, ◌%◌, ◌≤◌, ◌<◌, Bool, false, List, [], ◌∷◌, ◌++◌, ◌≡◌, inl, inr, Bool-cases, sym,
  ap, ◌∙◌, refl, ◌==◌, ltb, length, count, sum_by, arith, tests, if_ind, if◌then◌else◌,
}
use mathlib.Core.Path.{subst}
use native.Mathlib.Nat.{div-add-mod, mod-lt, eq-or-lt_of_le}
use senet.Prelude.Text.{Text, eq_text, eq_text→eq}
use senet.Prelude.Rounding.{half_even, half_even-IsNear}
use senet.Results.{StudentScore}
use senet.Results.Anomaly.{
  Distribution, Tally, tally_row, has_letter, zeros, bump, get_or, tally, highest, lowest,
}

abbrev pub fails : ℕ → StudentScore → Bool
fails pass_mark s = ltb s.total pass_mark

abbrev pub total_of : StudentScore → ℕ
total_of s = s.total

pub tally-failures :
    (pass_mark : ℕ) (t : Tally) (rows : List StudentScore)
    → (tally pass_mark t rows).failure_count ≡ t.failure_count + count (fails pass_mark) rows
unfolding tally
tally-failures pass_mark t [] = omega arith
tally-failures pass_mark t (row ∷ rows) =
    grind (tests, tally-failures pass_mark (tally_row pass_mark t row) rows)

pub tally-sum :
    (pass_mark : ℕ) (t : Tally) (rows : List StudentScore)
    → (tally pass_mark t rows).total_sum ≡ t.total_sum + sum_by total_of rows
unfolding tally
tally-sum pass_mark t [] = omega arith
tally-sum pass_mark t (row ∷ rows) =
    grind (tests, tally-sum pass_mark (tally_row pass_mark t row) rows)

pub highest_bound :
    (m : ℕ) (rows : List StudentScore)
    → (m ≤ highest m rows) × (sum_by total_of rows ≤ highest m rows * length rows)
unfolding highest
highest_bound m [] = omega arith
highest_bound m (row ∷ rows) =
    let next = if ltb m row.total then row.total else m in
    let bound : (m ≤ next) × (row.total ≤ next) =
      if_ind (λ x. (m ≤ x) × (row.total ≤ x)) (ltb m row.total) (λ t. omega tests)
        (λ t. omega tests) in
    grind (arith, highest_bound next rows)

pub lowest_bound :
    (m : ℕ) (rows : List StudentScore)
    → (lowest m rows ≤ m) × (lowest m rows * length rows ≤ sum_by total_of rows)
unfolding lowest
lowest_bound m [] = omega arith
lowest_bound m (row ∷ rows) =
    let next = if ltb row.total m then row.total else m in
    let bound : (next ≤ m) × (next ≤ row.total) =
      if_ind (λ x. (x ≤ m) × (x ≤ row.total)) (ltb row.total m) (λ t. omega tests)
        (λ t. omega tests) in
    grind (arith, lowest_bound next rows)

rate_above : (f n : ℕ) → 0 < n → 101 * n < 200 * f → 50 < half_even (f * 100) n
rate_above f n h l = grind (arith, half_even-IsNear (f * 100) n)

rate_below : (f n : ℕ) → 0 < n → 200 * f ≤ 101 * n → half_even (f * 100) n ≤ 50
unfolding half_even
rate_below f n h l =
    let q = f * 100 / n in
    let r = f * 100 % n in
    let m : r < n = mod-lt (f * 100) h in
    let e : n * q + r ≡ f * 100 = div-add-mod (f * 100) n in
    let small : q ≤ 50 = grind arith in
    if_ind (λ x. x ≤ 50) (ltb (2 * r) n) (λ t. small)
      λ t.
        let even : q ≡ 50 → 2 * r ≡ n = λ k.
          let e' : n * 50 + r ≡ f * 100 = subst (λ x. n * x + r ≡ f * 100) k e in omega tests in
        elim (eq-or-lt_of_le small) [
          | inr below ↦
              if_ind (λ x. x ≤ 50) (ltb n (2 * r)) (λ u. omega arith)
                λ u. if_ind (λ x. x ≤ 50) (q % 2 == 0) (λ v. omega arith) (λ v. omega arith)
          | inl k ↦
              if_ind (λ x. x ≤ 50) (ltb n (2 * r)) (λ u. omega (tests, even k))
                λ u.
                  if_ind (λ x. x ≤ 50) (q % 2 == 0) (λ v. small)
                    λ v. cc (subst (λ x. (x % 2 == 0) ≡ false) k v)
        ]

pub rate_flag : (f n : ℕ) → 0 < n → ltb 50 (half_even (f * 100) n) ≡ ltb (101 * n) (200 * f)
rate_flag f n h = elim (Bool-cases (ltb (101 * n) (200 * f))) [
  | inl t ↦ grind (tests, rate_above f n)
  | inr t ↦ grind (tests, rate_below f n)
]

abbrev pub graded_with : Text → StudentScore → Bool
graded_with letter s = eq_text s.grade letter

get_or-zeros_append :
    (letter other : Text) (d : Distribution)
    → get_or letter 0 (d ++ (other, 0) ∷ []) ≡ get_or letter 0 d
get_or-zeros_append letter other [] = ground arith
get_or-zeros_append letter other ((l, n) ∷ d) = ground (arith, get_or-zeros_append letter other d)

pub get_or-zeros :
    (letter : Text) (letters : List Text) (d : Distribution)
    → get_or letter 0 (zeros letters d) ≡ get_or letter 0 d
unfolding zeros
get_or-zeros letter [] d = refl
get_or-zeros letter (l ∷ letters) d =
    let next = if has_letter l d then d else d ++ (l, 0) ∷ [] in
    let kept : get_or letter 0 next ≡ get_or letter 0 d =
      if_ind (λ x. get_or letter 0 x ≡ get_or letter 0 d) (has_letter l d) (λ _. refl)
        (λ _. get_or-zeros_append letter l d) in
    get_or-zeros letter letters next ∙ kept

get_or-bump :
    (letter grade : Text) (d : Distribution)
    → get_or letter 0 (bump grade d) ≡ get_or letter 0 d + (if eq_text grade letter then 1 else 0)
unfolding bump
get_or-bump letter grade [] = ground arith
get_or-bump letter grade ((l, n) ∷ d) = elim (Bool-cases (eq_text l grade)) [
  | inl t ↦
      let same : eq_text grade letter ≡ eq_text l letter =
        ap (λ x. eq_text x letter) (sym (eq_text→eq l grade t)) in
      ground arith
  | inr f ↦ elim (Bool-cases (eq_text grade letter)) [
    | inl t ↦
        let other : eq_text l letter ≡ false =
          subst (λ x. eq_text l x ≡ false) (eq_text→eq grade letter t) f in
        ground (arith, get_or-bump letter grade d)
    | inr g ↦ ground (arith, get_or-bump letter grade d)
  ]
]

pub tally-distribution :
    (pass_mark : ℕ) (letter : Text) (t : Tally) (rows : List StudentScore)
    → get_or letter 0 (tally pass_mark t rows).distribution
      ≡ get_or letter 0 t.distribution + count (graded_with letter) rows
unfolding tally
tally-distribution pass_mark letter t [] = omega arith
tally-distribution pass_mark letter t (row ∷ rows) = ground (
  arith,
  tally-distribution pass_mark letter (tally_row pass_mark t row) rows,
  get_or-bump letter row.grade t.distribution,
)
