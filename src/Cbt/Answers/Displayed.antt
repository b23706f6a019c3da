-- ===== src/Cbt/Answers/Displayed.antt =====
-- The way of a choice from the shown options to the stored answer and back.
use senet.Prelude.{
  ℕ, suc, true, some, List, [], ◌∷◌, ◌==◌, ◌≡◌, ◌↔◌, refl, arith, All, map, if◌then◌else◌, ==→eq,
  Bool-cases, inl, inr, sym, ap,
}
use senet.Prelude.Text.{Text}
use senet.Prelude.Int.{pos}
use senet.Prelude.Sets.{has, sorted_set}
use senet.Exec.{ok}
use senet.Cbt.Marking.{is_correct}
use senet.Cbt.Marking.Choices.{mcq_correct_iff, multi_correct_iff}
use senet.Cbt.{key_index, key_indices, mcq, multi, Scalar, integer, scalar, list, index, indices}
use senet.Cbt.Answers.{nth, originals, to_stored_response}

-- where an option is shown: its first place in the order
abbrev pub place : List ℕ → ℕ → ℕ
place [] k = 0
place (x ∷ xs) k = if k == x then 0 else suc (place xs k)

-- the position that a client sends for an option
abbrev pub shown : List ℕ → ℕ → Scalar
shown order k = integer (pos (place order k))

nth-place : (order : List ℕ) (k : ℕ) → has k order ≡ true → nth order (place order k) ≡ some k
nth-place [] k h = cc
nth-place (x ∷ xs) k h = elim (Bool-cases (k == x)) [
  | inl e ↦ let same : k ≡ x = ==→eq k x e in rw e (ap some (sym same))
  | inr e ↦ rw e (nth-place xs k (ground (arith, h)))
]

originals-shown :
    (order ks : List ℕ)
    → All (λ k. has k order ≡ true) ks
    → originals order (map (shown order) ks) ≡ some ks
originals-shown order [] h = refl
originals-shown order (k ∷ ks) h =
    ground (arith, nth-place order k h.0, originals-shown order ks h.1)

pub choices-shown :
    (order ks : List ℕ) (printed : Text)
    → All (λ i. has i order ≡ true) ks
    → to_stored_response multi order (list printed (map (shown order) ks))
      ≡ ok (indices (sorted_set ks))
unfolding to_stored_response
choices-shown order ks printed hs = rw (originals-shown order ks hs) refl

pub choice-shown :
    (order : List ℕ) (k : ℕ)
    → has k order ≡ true
    → to_stored_response mcq order (scalar (shown order k)) ≡ ok (index k)
unfolding to_stored_response
choice-shown order k h = rw (nth-place order k h) refl

-- Choosing options at the places where an order shows them stores the options themselves: for one
-- choice the option, for several the sorted set of them. One choice is marked correct exactly when
-- it is the key; several are exactly when they are the options of the key, each of them and no
-- other. So the mark does not depend on the order, as long as it shows the options that are
-- chosen.
pub shown-marked :
    (lower : Text → Text) (order : List ℕ) (k key : ℕ) (ks keys : List ℕ) (printed : Text)
    → has k order ≡ true
    → All (λ i. has i order ≡ true) ks
    → (to_stored_response mcq order (scalar (shown order k)) ≡ ok (index k))
      × ((is_correct lower mcq (key_index key) (index k) ≡ true) ↔ (k ≡ key))
      × (to_stored_response multi order (list printed (map (shown order) ks))
          ≡ ok (indices (sorted_set ks)))
      × ((is_correct lower multi (key_indices (sorted_set keys)) (indices (sorted_set ks)) ≡ true)
          ↔ ((i : ℕ) → has i ks ≡ has i keys))
shown-marked lower order k key ks keys printed h hs = (
  choice-shown order k h,
  mcq_correct_iff lower k key,
  choices-shown order ks printed hs,
  multi_correct_iff lower ks keys,
)
