-- ===== src/Prelude/Sorting.antt =====
-- Python's stable `sort` and `sorted`, by insertion. `before x y` says that `x` may stand
-- before `y` when it came before it.
use Prim.Native.Nat.{suc}
use mathlib.Core.Path.{◌≡◌, refl}
use native.Mathlib.Omega.{arith}
use mathlib.Core.Bool.{Bool, true, false}
use mathlib.Core.List.{List, [], ◌∷◌}
use mathlib.Core.List.{Perm}
use mathlib.Core.List.Perm
use senet.Prelude.Tests.{if◌then◌else◌, if_ind}
use senet.Prelude.Lists.{All, All-map, All-member, All_members, Member, length}

module _ {ℓ} {A : Type ℓ} (before : A → A → Bool) where
  abbrev pub insert_by : A → List A → List A
  insert_by x [] = x ∷ []
  insert_by x (y ∷ ys) = if before x y then x ∷ y ∷ ys else y ∷ insert_by x ys

  abbrev pub sort_by : List A → List A
  sort_by [] = []
  sort_by (x ∷ xs) = insert_by x (sort_by xs)

  -- each row may stand before all that follow it
  abbrev pub IsSortedBy : List A → Type 0
  IsSortedBy [] = Unit
  IsSortedBy (x ∷ xs) = All (λ y. before x y ≡ true) xs × IsSortedBy xs

  pub All-insert_by {κ} :
      (P : A → Type κ) (x : A) (ys : List A) → P x → All P ys → All P (insert_by x ys)
  All-insert_by P x [] px h = (px, tt)
  All-insert_by P x (y ∷ ys) px h =
      if_ind (All P) (before x y) (λ _. (px, h)) (λ _. (h.0, All-insert_by P x ys px h.1))

  pub All-sort_by {κ} : (P : A → Type κ) (xs : List A) → All P xs → All P (sort_by xs)
  All-sort_by P [] h = tt
  All-sort_by P (x ∷ xs) h = All-insert_by P x (sort_by xs) h.0 (All-sort_by P xs h.1)

  insert_by-All {κ} :
      (P : A → Type κ) (x : A) (ys : List A) → All P (insert_by x ys) → P x × All P ys
  insert_by-All P x [] h = h
  insert_by-All P x (y ∷ ys) h =
      if_ind (λ l. All P l → P x × All P (y ∷ ys)) (before x y) (λ _ h. h)
        (λ _ h. let r = insert_by-All P x ys h.1 in (r.0, (h.0, r.1))) h

  -- what holds of every row of the sorted list holds of every row of the list
  pub sort_by-All {κ} : (P : A → Type κ) (xs : List A) → All P (sort_by xs) → All P xs
  sort_by-All P [] h = tt
  sort_by-All P (x ∷ xs) h = let r = insert_by-All P x (sort_by xs) h in (r.0, sort_by-All P xs r.1)

  pub Member-sort_by : (xs : List A) {a : A} → Member a (sort_by xs) → Member a xs
  Member-sort_by xs {a} m =
      All-member (λ y. Member y xs) m (All-sort_by (λ y. Member y xs) xs (All_members xs))

  pub sort_by-Member : (xs : List A) {a : A} → Member a xs → Member a (sort_by xs)
  sort_by-Member xs m =
      All-member (λ y. Member y (sort_by xs)) m
        (sort_by-All (λ y. Member y (sort_by xs)) xs (All_members (sort_by xs)))

  insert_by-perm : (x : A) (ys : List A) → Perm (insert_by x ys) (x ∷ ys)
  insert_by-perm x [] = Perm.refl (x ∷ [])
  insert_by-perm x (y ∷ ys) =
      if_ind (λ l. Perm l (x ∷ y ∷ ys)) (before x y) (λ _. Perm.refl (x ∷ y ∷ ys))
        (λ _. Perm.trans (Perm.cons y (insert_by-perm x ys)) (Perm.swap x y ys))

  -- sorting loses and invents no row
  pub sort_by-perm : (xs : List A) → Perm (sort_by xs) xs
  sort_by-perm [] = Perm.refl []
  sort_by-perm (x ∷ xs) = Perm.trans (insert_by-perm x (sort_by xs)) (Perm.cons x (sort_by-perm xs))

  length-insert_by : (x : A) (ys : List A) → length (insert_by x ys) ≡ suc (length ys)
  length-insert_by x [] = refl
  length-insert_by x (y ∷ ys) = ground (arith, length-insert_by x ys)

  pub length-sort_by : (xs : List A) → length (sort_by xs) ≡ length xs
  length-sort_by [] = refl
  length-sort_by (x ∷ xs) =
      let ih = length-sort_by xs in let one = length-insert_by x (sort_by xs) in omega arith

  module _ (total : (x y : A) → before x y ≡ false → before y x ≡ true)
      (trans : (x y z : A) → before x y ≡ true → before y z ≡ true → before x z ≡ true) where
    insert_by-IsSortedBy : (x : A) (ys : List A) → IsSortedBy ys → IsSortedBy (insert_by x ys)
    insert_by-IsSortedBy x [] h = (tt, tt)
    insert_by-IsSortedBy x (y ∷ ys) h =
        if_ind IsSortedBy (before x y)
          (λ e. ((e, All-map _ (λ z. before x z ≡ true) ys (λ z. trans x y z e) h.0), h))
          (λ e. (
            All-insert_by (λ z. before y z ≡ true) x ys (total x y e) h.0,
            insert_by-IsSortedBy x ys h.1,
          ))

    pub sort_by-IsSortedBy : (xs : List A) → IsSortedBy (sort_by xs)
    sort_by-IsSortedBy [] = tt
    sort_by-IsSortedBy (x ∷ xs) = insert_by-IsSortedBy x (sort_by xs) (sort_by-IsSortedBy xs)
