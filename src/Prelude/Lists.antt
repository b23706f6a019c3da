-- ===== src/Prelude/Lists.antt =====
-- Lists as tables and query sets: `filter`, `first`, `exists`, `save`, with their laws.
use Prim.Native.Nat.{ℕ, suc, ◌+◌, ◌≤◌}
use mathlib.Core.Path.{◌≡◌, refl, sym, ap, subst}
use mathlib.Core.Logic.{◌⊎◌, inl, inr}
use mathlib.Core.Bool.{Bool, true, false, ◌||◌}
use mathlib.Core.Option.{Option, none, some}
use mathlib.Core.List.{List, [], ◌∷◌, ◌++◌, map}
use native.Mathlib.Omega.{arith}
use senet.Prelude.Tests.{◌==◌, if◌then◌else◌, is_some, Bool-cases, if_ind}

module _ {ℓ} {A : Type ℓ} where
  abbrev pub length : List A → ℕ
  length [] = 0
  length (x ∷ xs) = suc (length xs)

  -- every row
  abbrev pub All {κ} : (A → Type κ) → List A → Type κ
  All P [] = Unit
  All P (x ∷ xs) = P x × All P xs

  -- some row, with its place
  pub data Member (a : A) : List A → Type ℓ where
    here : {xs : List A} → Member a (a ∷ xs)
    there : {x : A} {xs : List A} → Member a xs → Member a (x ∷ xs)

  -- `qs.filter(p)`
  abbrev pub filter : (A → Bool) → List A → List A
  filter p [] = []
  filter p (x ∷ xs) = if p x then x ∷ filter p xs else filter p xs

  -- `qs.filter(p).first()`
  abbrev pub first : (A → Bool) → List A → Option A
  first p [] = none
  first p (x ∷ xs) = if p x then some x else first p xs

  -- `rows[-1]`
  abbrev pub last : List A → Option A
  last [] = none
  last (x ∷ []) = some x
  last (x ∷ y ∷ ys) = last (y ∷ ys)

  -- `qs.filter(p).exists()`
  abbrev pub exists : (A → Bool) → List A → Bool
  exists p [] = false
  exists p (x ∷ xs) = p x || exists p xs

  abbrev pub sum_by : (A → ℕ) → List A → ℕ
  sum_by f [] = 0
  sum_by f (x ∷ xs) = f x + sum_by f xs

  -- how many rows pass
  abbrev pub count : (A → Bool) → List A → ℕ
  count p [] = 0
  count p (x ∷ xs) = if p x then suc (count p xs) else count p xs

  -- `row.save()`: the row of the table with the same primary key is overwritten.
  abbrev pub save : (A → ℕ) → A → List A → List A
  save key a [] = []
  save key a (x ∷ xs) = (if key x == key a then a else x) ∷ save key a xs

  pub All-append {κ} : (P : A → Type κ) (xs ys : List A) → All P xs → All P ys → All P (xs ++ ys)
  All-append P [] ys hx hy = hy
  All-append P (x ∷ xs) ys hx hy = (hx.0, All-append P xs ys hx.1 hy)

  pub All-member {κ} : (P : A → Type κ) {a : A} {xs : List A} → Member a xs → All P xs → P a
  All-member P here h = h.0
  All-member P (there m) h = All-member P m h.1

  pub All_of_member {κ} : {P : A → Type κ} (xs : List A) → ((a : A) → Member a xs → P a) → All P xs
  All_of_member [] h = tt
  All_of_member (x ∷ xs) h = (h x here, All_of_member xs (λ a m. h a (there m)))

  pub All-map {κ μ} :
      (P : A → Type κ) (Q : A → Type μ) (xs : List A) → ((a : A) → P a → Q a) → All P xs → All Q xs
  All-map P Q [] f h = tt
  All-map P Q (x ∷ xs) f h = (f x h.0, All-map P Q xs f h.1)

  pub All_members : (xs : List A) → All (λ a. Member a xs) xs
  All_members [] = tt
  All_members (x ∷ xs) =
      (here, All-map (λ a. Member a xs) (λ a. Member a (x ∷ xs)) xs (λ a. there) (All_members xs))

  pub Member-cons : {x : A} {xs : List A} {a : A} → Member a (x ∷ xs) → (a ≡ x) ⊎ Member a xs
  Member-cons here = inl refl
  Member-cons (there m) = inr m

  pub Member-eq : {x : A} (xs : List A) {a : A} → a ≡ x → Member a (x ∷ xs)
  Member-eq {x} xs e = subst (λ b. Member b (x ∷ xs)) (sym e) here

  pub Member-append_left : (xs ys : List A) {a : A} → Member a xs → Member a (xs ++ ys)
  Member-append_left [] ys m = elim m [ ]
  Member-append_left (x ∷ xs) ys here = here
  Member-append_left (x ∷ xs) ys (there m) = there (Member-append_left xs ys m)

  pub Member-append_right : (xs ys : List A) {a : A} → Member a ys → Member a (xs ++ ys)
  Member-append_right [] ys m = m
  Member-append_right (x ∷ xs) ys m = there (Member-append_right xs ys m)

  pub Member-append : (xs ys : List A) {a : A} → Member a (xs ++ ys) → Member a xs ⊎ Member a ys
  Member-append [] ys m = inr m
  Member-append (x ∷ xs) ys here = inl here
  Member-append (x ∷ xs) ys (there m) = elim (Member-append xs ys m) [
    | inl l ↦ inl (there l)
    | inr r ↦ inr r
  ]

  pub All-filter {κ} :
      (P : A → Type κ) (p : A → Bool) (xs : List A) → All P xs → All P (filter p xs)
  All-filter P p [] h = tt
  All-filter P p (x ∷ xs) h =
      if_ind (All P) (p x) (λ _. (h.0, All-filter P p xs h.1)) (λ _. All-filter P p xs h.1)

  -- every row that a filter keeps passes its test
  pub filter-All : (p : A → Bool) (xs : List A) → All (λ x. p x ≡ true) (filter p xs)
  filter-All p [] = tt
  filter-All p (x ∷ xs) =
      if_ind (All (λ y. p y ≡ true)) (p x) (λ e. (e, filter-All p xs)) (λ _. filter-All p xs)

  pub Member-filter :
      (p : A → Bool) (xs : List A) {a : A} → Member a (filter p xs) → (p a ≡ true) × Member a xs
  Member-filter p xs m = (
    All-member (λ x. p x ≡ true) m (filter-All p xs),
    All-member (λ x. Member x xs) m (All-filter (λ x. Member x xs) p xs (All_members xs)),
  )

  pub filter-Member :
      (p : A → Bool) (xs : List A) {a : A} → Member a xs → p a ≡ true → Member a (filter p xs)
  filter-Member p [] m t = elim m [ ]
  filter-Member p (x ∷ xs) {a} m t = elim (Member-cons m) [
    | inl e ↦ if_ind (λ l. Member a l) (p x) (λ _. Member-eq (filter p xs) e) (λ f. cc (ap p e))
    | inr l ↦
        if_ind (λ ys. Member a ys) (p x) (λ _. there (filter-Member p xs l t))
          (λ _. filter-Member p xs l t)
  ]

  pub All-save {κ} :
      (P : A → Type κ) (key : A → ℕ) (a : A) (xs : List A) → P a → All P xs → All P (save key a xs)
  All-save P key a [] pa h = tt
  All-save P key a (x ∷ xs) pa h =
      (if_ind P (key x == key a) (λ _. pa) (λ _. h.0), All-save P key a xs pa h.1)

  pub first-All {κ} :
      (P : A → Type κ) (p : A → Bool) (xs : List A) {a : A} → first p xs ≡ some a → All P xs → P a
  first-All P p [] e h = cc
  first-All P p (x ∷ xs) {a} e h = elim (Bool-cases (p x)) [
    | inl t ↦ subst P (cc t) h.0
    | inr f ↦ first-All P p xs (ground arith) h.1
  ]

  pub first-test : (p : A → Bool) (xs : List A) {a : A} → first p xs ≡ some a → p a ≡ true
  first-test p [] e = cc
  first-test p (x ∷ xs) {a} e = ground (arith, first-test p xs {a = a})

  pub first-Member : (p : A → Bool) (xs : List A) {a : A} → first p xs ≡ some a → Member a xs
  first-Member p [] e = cc
  first-Member p (x ∷ xs) {a} e = elim (Bool-cases (p x)) [
    | inl t ↦ subst (λ y. Member y (x ∷ xs)) (cc t) here
    | inr f ↦ there (first-Member p xs (ground arith))
  ]

  pub Member-exists :
      (p : A → Bool) (xs : List A) {a : A} → Member a xs → p a ≡ true → exists p xs ≡ true
  Member-exists p [] m t = elim m [ ]
  Member-exists p (x ∷ xs) {a} m t = elim (Member-cons m) [
    | inl e ↦ let q : p a ≡ p x = ap p e in ground arith
    | inr l ↦ ground (arith, Member-exists p xs l t)
  ]

  pub first_exists : (p : A → Bool) (xs : List A) → first p xs ≡ none → exists p xs ≡ false
  first_exists p [] e = refl
  first_exists p (x ∷ xs) e = ground (arith, first_exists p xs)

  pub first-none : (p : A → Bool) (xs : List A) → first p xs ≡ none → count p xs ≡ 0
  first-none p [] e = refl
  first-none p (x ∷ xs) e = ground (arith, first-none p xs)

  pub exists-eq-is_some : (p : A → Bool) (xs : List A) → exists p xs ≡ is_some (first p xs)
  exists-eq-is_some p [] = refl
  exists-eq-is_some p (x ∷ xs) = ground (arith, exists-eq-is_some p xs)

  pub exists-count : (p : A → Bool) (xs : List A) → exists p xs ≡ false → count p xs ≡ 0
  exists-count p [] e = refl
  exists-count p (x ∷ xs) e = ground (arith, exists-count p xs)

  pub count-append : (p : A → Bool) (xs ys : List A) → count p (xs ++ ys) ≡ count p xs + count p ys
  count-append p [] ys = omega arith
  count-append p (x ∷ xs) ys = ground (arith, count-append p xs ys)

  pub length-append : (xs ys : List A) → length (xs ++ ys) ≡ length xs + length ys
  length-append [] ys = omega arith
  length-append (x ∷ xs) ys = omega (arith, length-append xs ys)

  pub sum_by-append : (f : A → ℕ) (xs ys : List A) → sum_by f (xs ++ ys) ≡ sum_by f xs + sum_by f ys
  sum_by-append f [] ys = omega arith
  sum_by-append f (x ∷ xs) ys = omega (arith, sum_by-append f xs ys)

  pub filter-append :
      (p : A → Bool) (xs ys : List A) → filter p (xs ++ ys) ≡ filter p xs ++ filter p ys
  filter-append p [] ys = refl
  filter-append p (x ∷ xs) ys = ground (arith, filter-append p xs ys)

  pub sum_by_le : (f g : A → ℕ) (xs : List A) → All (λ x. f x ≤ g x) xs → sum_by f xs ≤ sum_by g xs
  sum_by_le f g [] h = omega arith
  sum_by_le f g (x ∷ xs) h = omega (arith, h.0, sum_by_le f g xs h.1)

module _ {ℓ κ} {A : Type ℓ} {B : Type κ} (f : A → B) where
  pub map-Member : (xs : List A) {a : A} → Member a xs → Member (f a) (map f xs)
  map-Member [] m = elim m [ ]
  map-Member (x ∷ xs) m = elim (Member-cons m) [
    | inl e ↦ Member-eq (map f xs) (ap f e)
    | inr l ↦ there (map-Member xs l)
  ]

  pub Member-map : (xs : List A) {b : B} → Member b (map f xs) → (a : A) × Member a xs × (b ≡ f a)
  Member-map [] m = elim m [ ]
  Member-map (x ∷ xs) m = elim (Member-cons m) [
    | inl e ↦ (x, here, e)
    | inr l ↦ let (a, m', e) = Member-map xs l in (a, there m', e)
  ]
