-- ===== src/Prelude/Sets.antt =====
-- Sets of numbers as Python's `sorted({…})` gives them: rising lists without repeats.
use Prim.Native.Nat.{ℕ, zero, suc}
use mathlib.Core.Path.{◌≡◌, refl, sym, subst, ◌∙◌}
use mathlib.Core.Logic.{◌↔◌, inl, inr}
use mathlib.Core.Bool.{Bool, true, false, ◌&&◌, ◌||◌}
use mathlib.Core.List.{List, [], ◌∷◌}
use native.Mathlib.Omega.{arith}
use senet.Prelude.Tests.{◌==◌, ltb, if◌then◌else◌, Bool-cases, ==→eq, ==_refl}

-- `n in xs`
abbrev pub has : ℕ → List ℕ → Bool
has n [] = false
has n (x ∷ xs) = n == x || has n xs

-- a number put into a rising list, where it is not there yet
abbrev pub adjoin : ℕ → List ℕ → List ℕ
adjoin n [] = n ∷ []
adjoin n (x ∷ xs) = if ltb n x then n ∷ x ∷ xs else if n == x then x ∷ xs else x ∷ adjoin n xs

-- `sorted(set(xs))`
abbrev pub sorted_set : List ℕ → List ℕ
sorted_set [] = []
sorted_set (x ∷ xs) = adjoin x (sorted_set xs)

abbrev pub is_subset : List ℕ → List ℕ → Bool
is_subset [] ys = true
is_subset (x ∷ xs) ys = has x ys && is_subset xs ys

-- `set(xs) == set(ys)`
abbrev pub same_set : List ℕ → List ℕ → Bool
same_set xs ys = is_subset xs ys && is_subset ys xs

has-adjoin : (k n : ℕ) (xs : List ℕ) → has k (adjoin n xs) ≡ (k == n || has k xs)
has-adjoin k n [] = ground arith
has-adjoin k n (x ∷ xs) = ground (arith, has-adjoin k n xs)

-- a sorted set has the numbers of the list
pub has-sorted_set : (k : ℕ) (xs : List ℕ) → has k (sorted_set xs) ≡ has k xs
has-sorted_set k [] = refl
has-sorted_set k (x ∷ xs) = ground (arith, has-adjoin k x (sorted_set xs), has-sorted_set k xs)

-- `range(n)`, from `k` on
abbrev pub range_from : ℕ → ℕ → List ℕ
range_from k zero = []
range_from k (suc n) = k ∷ range_from (suc k) n

has-subset : (k : ℕ) (xs ys : List ℕ) → is_subset xs ys ≡ true → has k xs ≡ true → has k ys ≡ true
has-subset k [] ys h m = cc
has-subset k (x ∷ xs) ys h m = elim (Bool-cases (k == x)) [
  | inl e ↦ subst (λ n. has n ys ≡ true) (sym (==→eq k x e)) (ground (arith, h))
  | inr e ↦ has-subset k xs ys (ground (arith, h)) (ground (arith, m))
]

has→subset :
    (xs ys : List ℕ) → ((k : ℕ) → has k xs ≡ true → has k ys ≡ true) → is_subset xs ys ≡ true
has→subset [] ys f = refl
has→subset (x ∷ xs) ys f =
    let tail : is_subset xs ys ≡ true = has→subset xs ys (λ k m. f k (ground (arith, m))) in
    ground (arith, f x, ==_refl x, tail)

same_set→has : (xs ys : List ℕ) → same_set xs ys ≡ true → (k : ℕ) → has k xs ≡ has k ys
same_set→has xs ys h k =
    let f : is_subset xs ys ≡ true = ground arith in
    let g : is_subset ys xs ≡ true = ground arith in
    elim (Bool-cases (has k xs)) [
      | inl a ↦ cc (has-subset k xs ys f a)
      | inr a ↦ elim (Bool-cases (has k ys)) [ inl b ↦ cc (has-subset k ys xs g b) | inr b ↦ cc ]
    ]

has→same_set : (xs ys : List ℕ) → ((k : ℕ) → has k xs ≡ has k ys) → same_set xs ys ≡ true
has→same_set xs ys f =
    let a : is_subset xs ys ≡ true = has→subset xs ys (λ k m. sym (f k) ∙ m) in
    let b : is_subset ys xs ≡ true = has→subset ys xs (λ k m. f k ∙ m) in ground arith

-- two lists are the same set where they have the same members
pub same_set-iff-has : (xs ys : List ℕ) → (same_set xs ys ≡ true) ↔ ((k : ℕ) → has k xs ≡ has k ys)
same_set-iff-has xs ys = (same_set→has xs ys, has→same_set xs ys)
