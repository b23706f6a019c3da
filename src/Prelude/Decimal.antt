-- ===== src/Prelude/Decimal.antt =====
-- Python's `decimal` at its default context (28 significant digits, ROUND_HALF_EVEN), for
-- numbers that are not negative. Every operation rounds the exact result, a quotient of whole
-- numbers. A value of 10^28 or more would lose digits before the point; none arises here.
use Prim.Native.Nat.{ℕ, zero, suc, ◌+◌, ◌*◌, ◌^◌}
use senet.Prelude.Tests.{ltb, if◌then◌else◌}
use senet.Prelude.Rounding.{half_even}

-- `coef / 10 ^ places`
pub record Decimal : Type 0 where
  pub coef : ℕ
  pub places : ℕ

-- How many places of `n / d` fit in 28 digits, at most `fuel` more than `k`.
unfoldable pub places_of : ℕ → ℕ → ℕ → ℕ → ℕ
places_of zero k n d = k
places_of (suc fuel) k n d =
    let more = places_of fuel (k + 1) n d in
    if ltb (n * 10 ^ (k + 1)) (d * 10 ^ 28) then more else k

-- `n / d`, rounded to the context's precision
unfoldable pub fit : ℕ → ℕ → Decimal
unfolding places_of half_even
fit n d = let k = places_of 128 0 n d in record { coef = half_even (n * 10 ^ k) d; places = k }

abbrev pub hundredths : ℕ → Decimal
hundredths h = record { coef = h; places = 2 }

unfoldable pub dec_div : Decimal → Decimal → Decimal
unfolding fit
dec_div a b = fit (a.coef * 10 ^ b.places) (b.coef * 10 ^ a.places)

unfoldable pub dec_mul : Decimal → Decimal → Decimal
unfolding fit
dec_mul a b = fit (a.coef * b.coef) (10 ^ (a.places + b.places))

unfoldable pub dec_add : Decimal → Decimal → Decimal
unfolding fit
dec_add a b = fit (a.coef * 10 ^ b.places + b.coef * 10 ^ a.places) (10 ^ (a.places + b.places))

-- `value.quantize(Decimal("0.01"))`, in hundredths
unfoldable pub quantize : Decimal → ℕ
unfolding half_even
quantize a = half_even (a.coef * 100) (10 ^ a.places)
