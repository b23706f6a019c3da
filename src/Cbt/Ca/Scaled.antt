-- ===== src/Cbt/Ca/Scaled.antt =====
-- The bounds of the score that `sync_ca_grade_for_attempt` writes.
use senet.Prelude.{
  ℕ, zero, suc, ◌+◌, ◌*◌, ◌^◌, ◌≤◌, ◌<◌, ◌≡◌, refl, arith, tests, ltb, if_ind, sym, ap, ◌∙◌,
}
use mathlib.Core.Path.{subst}
use native.Mathlib.Nat.{mul-le-mul_right, mul_comm, mul-lt-mul_of_pos_right, pow-suc, one-le-pow}
use senet.Prelude.Rounding.{half_even, half_even-le}
use senet.Prelude.Decimal.{places_of, fit, dec_div, dec_mul, quantize}
use senet.Cbt.Ca.{scaled_score}

places_of-ge : (fuel k n d : ℕ) → k ≤ places_of fuel k n d
unfolding places_of
places_of-ge zero k n d = omega arith
places_of-ge (suc fuel) k n d =
    let ih = places_of-ge fuel (k + 1) n d in
    if_ind (λ m. k ≤ m) (ltb (n * 10 ^ (k + 1)) (d * 10 ^ 28)) (λ _. omega arith) (λ _. omega arith)

two_places : (n d : ℕ) → n * 100 < d * 10 ^ 28 → 2 ≤ places_of 128 0 n d
unfolding places_of
two_places n d h =
    let deep = places_of-ge 126 2 n d in
    if_ind (λ m. 2 ≤ m) (ltb (n * 10 ^ 1) (d * 10 ^ 28))
      (λ _. if_ind (λ m. 2 ≤ m) (ltb (n * 10 ^ 2) (d * 10 ^ 28)) (λ _. deep) (λ t. omega tests))
      (λ t. omega tests)

-- a quotient that is at most one
rounded_le : (n d k : ℕ) → 0 < d → n ≤ d → half_even (n * 10 ^ k) d ≤ 10 ^ k
rounded_le n d k h le = half_even-le (n * 10 ^ k) d (10 ^ k) h (
    let p : n * 10 ^ k ≤ d * 10 ^ k = mul-le-mul_right (10 ^ k) le in
    subst (λ x. n * 10 ^ k ≤ x) (mul_comm d (10 ^ k)) p)

fit_le : (n d : ℕ) → 0 < d → n ≤ d → (fit n d).coef ≤ 10 ^ (fit n d).places
unfolding fit
fit_le n d h le = rounded_le n d (places_of 128 0 n d) h le

add_two : (p : ℕ) → p + 2 ≡ suc (suc p)
add_two p = omega arith

pow_add_two : (p : ℕ) → 10 ^ (p + 2) ≡ 10 ^ p * 100
pow_add_two p =
    let a : 10 ^ suc (suc p) ≡ 10 ^ suc p * 10 = pow-suc 10 (suc p) in
    let b : 10 ^ suc p ≡ 10 ^ p * 10 = pow-suc 10 p in
    ap (λ k. 10 ^ k) (add_two p) ∙ a ∙ omega arith

-- rounding to `j + 2` places and then to two
quantized_le :
    (n d i j : ℕ)
    → 0 < d
    → n * 100 ≤ i * d
    → half_even (half_even (n * 10 ^ suc (suc j)) d * 100) (10 ^ suc (suc j)) ≤ i
quantized_le n d i j h le =
    let q = 10 ^ j in
    let e : 10 ^ suc (suc j) ≡ q * 100 =
      (let a : 10 ^ suc (suc j) ≡ 10 ^ suc j * 10 = pow-suc 10 (suc j) in
        let b : 10 ^ suc j ≡ q * 10 = pow-suc 10 j in omega arith) in
    let inner : half_even (n * (q * 100)) d ≤ i * q =
      half_even-le (n * (q * 100)) d (i * q) h
        (let p : n * 100 * q ≤ i * d * q = mul-le-mul_right q le in omega arith) in
    rw e (
      half_even-le (half_even (n * (q * 100)) d * 100) (q * 100) i
        (let p : 1 ≤ q = one-le-pow j 10 (omega arith) in omega arith) (omega arith))

places-cases : (k : ℕ) → 2 ≤ k → (j : ℕ) × (k ≡ suc (suc j))
places-cases zero h = absurd (omega arith)
places-cases (suc zero) h = absurd (omega arith)
places-cases (suc (suc j)) h = (j, refl)

quantize-fit : (n d i : ℕ) → 0 < d → n * 100 ≤ i * d → i < 10 ^ 28 → quantize (fit n d) ≤ i
unfolding quantize fit
quantize-fit n d i h le small =
    let below : i * d < 10 ^ 28 * d = mul-lt-mul_of_pos_right small h in
    let (j, e) = places-cases (places_of 128 0 n d) (two_places n d (omega arith)) in
    subst (λ k. half_even (half_even (n * 10 ^ k) d * 100) (10 ^ k) ≤ i) (sym e)
      (quantized_le n d i j h le)

-- A score of at most the maximum is scaled to at most the item's maximum, whatever the roundings
-- on the way.
pub scaled_score-le :
    (score max_score item_max : ℕ)
    → 0 < max_score
    → score ≤ max_score
    → item_max < 10 ^ 28
    → scaled_score score max_score item_max ≤ item_max
unfolding scaled_score dec_div dec_mul
scaled_score-le score max_score item_max pos le small =
    let n = score * 100 in
    let d = max_score * 100 in
    let ratio = fit n d in
    let p = ratio.places in
    let below : ratio.coef ≤ 10 ^ p = fit_le n d (omega arith) (omega arith) in
    let e : 10 ^ (p + 2) ≡ 10 ^ p * 100 = pow_add_two p in
    let f : item_max * 10 ^ (p + 2) ≡ item_max * (10 ^ p * 100) = ap (λ x. item_max * x) e in
    let times : ratio.coef * item_max ≤ 10 ^ p * item_max = mul-le-mul_right item_max below in
    let one : 1 ≤ 10 ^ p = one-le-pow p 10 (omega arith) in
    quantize-fit (ratio.coef * item_max) (10 ^ (p + 2)) item_max (omega arith) (omega arith) small
