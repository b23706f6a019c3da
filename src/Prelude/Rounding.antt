-- ===== src/Prelude/Rounding.antt =====
-- `Decimal.quantize` to hundredths of a quotient, by the two rounding rules the program uses.
use Prim.Native.Nat.{ℕ, ◌+◌, ◌*◌, ◌/◌, ◌%◌, ◌≤◌, ◌<◌}
use mathlib.Core.Path.{◌≡◌}
use native.Mathlib.Omega.{arith}
use native.Mathlib.Nat.{div-add-mod, mod-lt}
use senet.Prelude.Tests.{ltb, ◌==◌, if◌then◌else◌, if_ind, tests}

-- `n / d` to the nearest whole number, a tie going up (ROUND_HALF_UP).
unfoldable pub half_up : ℕ → ℕ → ℕ
half_up n d = (2 * n + d) / (2 * d)

-- `n / d` to the nearest whole number, a tie going to the even one (ROUND_HALF_EVEN).
unfoldable pub half_even : ℕ → ℕ → ℕ
half_even n d =
    let q = n / d in
    let r = n % d in
    if ltb (2 * r) d then q else if ltb d (2 * r) then q + 1 else if q % 2 == 0 then q else q + 1

-- The rounded value `q` is the one whole number with `n / d - 1/2 < q ≤ n / d + 1/2`.
pub half_up_bounds :
    (n d : ℕ) → 0 < d → (2 * (half_up n d * d) ≤ 2 * n + d) × (2 * n < 2 * (half_up n d * d) + d)
unfolding half_up
half_up_bounds n d h =
    let m : (2 * n + d) % (2 * d) < 2 * d = mod-lt (2 * n + d) (omega arith) in
    omega (arith, div-add-mod (2 * n + d) (2 * d))

-- the nearest whole numbers
abbrev pub IsNear : ℕ → ℕ → ℕ → Type 0
IsNear n d q = (2 * (q * d) ≤ 2 * n + d) × (2 * n ≤ 2 * (q * d) + d)

pub half_even-IsNear : (n d : ℕ) → 0 < d → IsNear n d (half_even n d)
unfolding half_even
half_even-IsNear n d h =
    let m : n % d < d = mod-lt n h in
    let e : d * (n / d) + n % d ≡ n = div-add-mod n d in
    if_ind (IsNear n d) (ltb (2 * (n % d)) d) (λ t. omega tests)
      λ t.
        if_ind (IsNear n d) (ltb d (2 * (n % d))) (λ u. omega tests)
          λ u. if_ind (IsNear n d) (n / d % 2 == 0) (λ v. omega tests) (λ v. omega tests)

-- Rounding does not pass a whole bound.
pub half_up-le : (n d b : ℕ) → 0 < d → n ≤ b * d → half_up n d ≤ b
half_up-le n d b h k = grind (arith, half_up_bounds n d)

pub half_even-le : (n d b : ℕ) → 0 < d → n ≤ b * d → half_even n d ≤ b
half_even-le n d b h k = grind (arith, half_even-IsNear n d)

pub half_even-ge : (n d b : ℕ) → 0 < d → b * d ≤ n → b ≤ half_even n d
half_even-ge n d b h k = grind (arith, half_even-IsNear n d)
