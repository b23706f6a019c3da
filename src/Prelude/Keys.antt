-- ===== src/Prelude/Keys.antt =====
-- Tables with unique primary keys.
use Prim.Native.Nat.{ℕ, ◌+◌, ◌≤◌, ◌<◌}
use mathlib.Core.Path.{◌≡◌, refl, sym, ap, subst, ◌∙◌}
use mathlib.Core.Logic.{inl, inr, ◌≢◌, ◌⊎◌}
use mathlib.Core.Bool.{Bool, true, false, ◌&&◌}
use mathlib.Core.Option.{none, some}
use mathlib.Core.List.{List, [], ◌∷◌, ◌++◌}
use native.Mathlib.Omega.{arith}
use senet.Prelude.Tests.{◌==◌, ==_refl, ==→eq, if◌then◌else◌, if_ind, Bool-cases}
use senet.Prelude.Lists.{
  here, Member, there, Member-cons, Member-eq, count, first, exists, save, All, All-save, All-map,
  count-append,
}

and_true : (b : Bool) → b ≡ (b && true)
and_true true = refl
and_true false = refl

-- a lookup by two tests that agree
pub first_cong {ℓ} :
    {A : Type ℓ} (p q : A → Bool) (xs : List A) → ((x : A) → q x ≡ p x) → first q xs ≡ first p xs
first_cong p q [] h = refl
first_cong p q (x ∷ xs) h = ground (arith, h x, first_cong p q xs h)

module _ {ℓ} {A : Type ℓ} (key : A → ℕ) where
  abbrev pub has_key : ℕ → A → Bool
  has_key k x = key x == k

  -- every key once at most
  abbrev pub IsKeyed : List A → Type 0
  IsKeyed xs = (k : ℕ) → count (has_key k) xs ≤ 1

  -- every key below the next fresh one
  abbrev pub AllBelow : ℕ → List A → Type 0
  AllBelow n xs = All (λ x. key x < n) xs

  IsKeyed-tail : (x : A) (xs : List A) → IsKeyed (x ∷ xs) → IsKeyed xs
  IsKeyed-tail x xs h k = ground (arith, h k)

  count_zero :
      (k : ℕ) (q : A → Bool) (xs : List A)
      → count (has_key k) xs ≡ 0
      → (first (λ x. key x == k && q x) xs ≡ none) × (exists (λ x. key x == k && q x) xs ≡ false)
  count_zero k q [] h = (refl, refl)
  count_zero k q (x ∷ xs) h = ground (arith, count_zero k q xs)

  Member-count : (xs : List A) {a : A} → Member a xs → 0 < count (has_key (key a)) xs
  Member-count [] m = elim m [ ]
  Member-count (x ∷ xs) {a} m = elim (Member-cons m) [
    | inl e ↦
        subst (λ b. 0 < count (has_key (key b)) (x ∷ xs)) (sym e) (ground (arith, ==_refl (key x)))
    | inr l ↦ ground (arith, Member-count xs l)
  ]

  -- A lookup by a unique key finds the row that has it, if the row passes the rest of the test.
  pub keyed_first :
      (q : A → Bool) (xs : List A) {a : A}
      → IsKeyed xs
      → Member a xs
      → (first (λ x. key x == key a && q x) xs ≡ (if q a then some a else none))
        × (exists (λ x. key x == key a && q x) xs ≡ q a)
  keyed_first q [] h m = elim m [ ]
  keyed_first q (x ∷ xs) {a} h m = elim (Member-cons m) [
    | inl e ↦
        subst
          (λ b.
            (first (λ y. key y == key b && q y) (x ∷ xs) ≡ (if q b then some b else none))
            × (exists (λ y. key y == key b && q y) (x ∷ xs) ≡ q b))
          (sym e)
          (let z = count_zero (key x) q xs (ground (arith, h (key x), ==_refl (key x))) in
            ground (arith, ==_refl (key x)))
    | inr l ↦
        let (f, g) = keyed_first q xs (IsKeyed-tail x xs h) l in
        let other : (key x == key a) ≡ false = ground (arith, h (key a), Member-count xs l) in
        ground arith
  ]

  count-save :
      (k : ℕ) (a : A) (xs : List A) → count (has_key k) (save key a xs) ≡ count (has_key k) xs
  count-save k a [] = refl
  count-save k a (x ∷ xs) = ground (arith, count-save k a xs, ==→eq (key x) (key a))

  pub IsKeyed-save : (a : A) (xs : List A) → IsKeyed xs → IsKeyed (save key a xs)
  IsKeyed-save a xs h k = rw count-save (h k)

  pub AllBelow-save :
      (n : ℕ) (a : A) (xs : List A) → key a < n → AllBelow n xs → AllBelow n (save key a xs)
  AllBelow-save n a xs l h = All-save (λ x. key x < n) key a xs l h

  pub AllBelow-mono : (n m : ℕ) (xs : List A) → n ≤ m → AllBelow n xs → AllBelow m xs
  AllBelow-mono n m xs l h = All-map (λ x. key x < n) (λ x. key x < m) xs (λ x b. omega arith) h

  pub AllBelow-count : (n : ℕ) (xs : List A) → AllBelow n xs → count (has_key n) xs ≡ 0
  AllBelow-count n [] h = refl
  AllBelow-count n (x ∷ xs) h = ground (arith, AllBelow-count n xs h.1)

  -- a row with a fresh key
  pub IsKeyed-append :
      (n : ℕ) (a : A) (xs : List A)
      → key a ≡ n
      → AllBelow n xs
      → IsKeyed xs
      → IsKeyed (xs ++ a ∷ [])
  IsKeyed-append n a xs e b h k = rw count-append (ground (arith, AllBelow-count n xs b, h k))

  save_absent : (a : A) (xs : List A) → count (has_key (key a)) xs ≡ 0 → save key a xs ≡ xs
  save_absent a [] h = refl
  save_absent a (x ∷ xs) h = ground (arith, save_absent a xs)

  -- Saving a row over the one that has its key changes a count by what those two rows add.
  pub count-replace :
      (p : A → Bool) (old new : A) (xs : List A)
      → IsKeyed xs
      → Member old xs
      → key new ≡ key old
      → count p (save key new xs) + count p (old ∷ []) ≡ count p xs + count p (new ∷ [])
  count-replace p old new [] h m e = elim m [ ]
  count-replace p old new (x ∷ xs) h m e = elim (Member-cons m) [
    | inl same ↦
        let k : key x ≡ key new = ap key (sym same) ∙ sym e in
        let z : save key new xs ≡ xs =
          save_absent new xs (ground (arith, h (key new), ==_refl (key new))) in
        let q : p old ≡ p x = ap p same in ground (arith, ==_refl (key new))
    | inr l ↦
        let ih = count-replace p old new xs (IsKeyed-tail x xs h) l e in
        let other : (key x == key new) ≡ false = ground (arith, h (key old), Member-count xs l) in
        ground arith
  ]

  -- a saved table holds the new row and the old ones
  pub Member-save :
      (new : A) (xs : List A) {a : A} → Member a xs → key a ≢ key new → Member a (save key new xs)
  Member-save new [] m ne = elim m [ ]
  Member-save new (x ∷ xs) {a} m ne = elim (Member-cons m) [
    | inl e ↦
        if_ind (λ y. Member a (y ∷ save key new xs)) (key x == key new)
          (λ t. absurd (ne (ap key e ∙ ==→eq (key x) (key new) t)))
          (λ _. Member-eq (save key new xs) e)
    | inr l ↦ there (Member-save new xs l ne)
  ]

  -- the row written over
  pub Member-save_new :
      (old new : A) (xs : List A) → Member old xs → key old ≡ key new → Member new (save key new xs)
  Member-save_new old new [] m e = elim m [ ]
  Member-save_new old new (x ∷ xs) m e = elim (Member-cons m) [
    | inl same ↦
        if_ind (λ y. Member new (y ∷ save key new xs)) (key x == key new) (λ _. here)
          (λ f.
            let k : key x ≡ key new = ap key (sym same) ∙ e in ground (arith, ==_refl (key x), k))
    | inr l ↦ there (Member-save_new old new xs l e)
  ]

  -- a key names one row
  pub keyed_unique :
      (xs : List A) {a b : A} → IsKeyed xs → Member a xs → Member b xs → key a ≡ key b → a ≡ b
  keyed_unique xs {a} {b} h ma mb e =
      let fa : first (λ x. key x == key a && true) xs ≡ some a =
        (keyed_first (λ _. true) xs h ma).0 in
      let fb : first (λ x. key x == key b && true) xs ≡ some b =
        (keyed_first (λ _. true) xs h mb).0 in
      let fc : first (λ x. key x == key b && true) xs ≡ some a =
        subst (λ k. first (λ x. key x == k && true) xs ≡ some a) e fa in
      ground (arith, fb, fc)

  -- a row is found by its key
  pub keyed_find :
      (xs : List A) {a : A} → IsKeyed xs → Member a xs → first (λ x. key x == key a) xs ≡ some a
  keyed_find xs {a} h m =
      first_cong (λ x. key x == key a && true) (λ x. key x == key a) xs
        (λ x. and_true (key x == key a))
      ∙ (keyed_first (λ _. true) xs h m).0

  -- none where the one row with the key fails the rest of the test
  pub keyed_none :
      (q : A → Bool) (xs : List A) {a : A}
      → IsKeyed xs
      → Member a xs
      → q a ≡ false
      → first (λ x. key x == key a && q x) xs ≡ none
  keyed_none q xs {a} h m f = ground (arith, (keyed_first q xs h m).0)

  -- the rows of a saved table
  pub save-Member :
      (new : A) (xs : List A) {a : A}
      → Member a (save key new xs)
      → (a ≡ new) ⊎ (Member a xs × (key a ≢ key new))
  save-Member new [] m = elim m [ ]
  save-Member new (x ∷ xs) {a} m = elim (Member-cons m) [
    | inl e ↦ elim (Bool-cases (key x == key new)) [
      | inl t ↦ inl (e ∙ (rw t refl))
      | inr f ↦
          let same : a ≡ x = e ∙ (rw f refl) in
          inr (
            Member-eq xs same,
            λ k. let z : key x ≡ key new = ap key (sym same) ∙ k in ground (arith, ==_refl (key x)),
          )
    ]
    | inr l ↦ elim (save-Member new xs l) [ inl e ↦ inl e | inr (m', ne) ↦ inr (there m', ne) ]
  ]

  -- a row saved over the one that a lookup finds is what the lookup then finds
  pub first-save_same :
      (p : A → Bool) (old new : A) (xs : List A)
      → first p xs ≡ some old
      → key old ≡ key new
      → p new ≡ true
      → first p (save key new xs) ≡ some new
  first-save_same p old new [] f e t = cc
  first-save_same p old new (x ∷ xs) f e t = elim (Bool-cases (key x == key new)) [
    | inl same ↦ ground arith
    | inr other ↦ elim (Bool-cases (p x)) [
      | inl t1 ↦
          let z : x ≡ old = ground (arith, f, t1) in
          let k : key x ≡ key new = ap key z ∙ e in ground (arith, k, ==_refl (key x))
      | inr t2 ↦ let ih = first-save_same p old new xs (ground (arith, f)) e t in ground (arith, ih)
    ]
  ]

  -- other lookups find what they found
  pub first-save_other :
      (p : A → Bool) (old new : A) (xs : List A)
      → IsKeyed xs
      → Member old xs
      → key old ≡ key new
      → p old ≡ false
      → p new ≡ false
      → first p (save key new xs) ≡ first p xs
  first-save_other p old new xs h m e fo fn = go xs (λ x mx. keyed_unique xs h mx m)
    where
      go :
          (ys : List A)
          → ((x : A) → Member x ys → key x ≡ key old → x ≡ old)
          → first p (save key new ys) ≡ first p ys
      go [] u = refl
      go (x ∷ ys) u = elim (Bool-cases (key x == key new)) [
        | inl same ↦
            let z : x ≡ old = u x here (==→eq (key x) (key new) same ∙ sym e) in
            let px : p x ≡ false = ap p z ∙ fo in
            let ih = go ys (λ y my. u y (there my)) in ground (arith, px, ih)
        | inr other ↦ let ih = go ys (λ y my. u y (there my)) in ground (arith, ih)
      ]
