-- ===== src/Cbt/Marking/Choices.antt =====
-- What the marking of backend/cbt/grading.py says of choice answers.
use senet.Prelude.{ℕ, true, List, ◌==◌, ◌≡◌, ◌↔◌, ==→eq, ==_refl, sym, ap, ◌∙◌}
use senet.Prelude.Text.{Text}
use senet.Prelude.Sets.{has, sorted_set, has-sorted_set, same_set-iff-has}
use senet.Cbt.{mcq, multi, key_index, key_indices, index, indices}
use senet.Cbt.Marking.{is_correct}

pub mcq_correct_iff :
    (lower : Text → Text) (k key : ℕ)
    → (is_correct lower mcq (key_index key) (index k) ≡ true) ↔ (k ≡ key)
unfolding is_correct
mcq_correct_iff lower k key = (==→eq k key, λ e. ap (λ n. k == n) (sym e) ∙ ==_refl k)

-- the order of the options, and how often each was listed, does not matter on either side
pub multi_correct_iff :
    (lower : Text → Text) (chosen key : List ℕ)
    → (is_correct lower multi (key_indices (sorted_set key)) (indices (sorted_set chosen)) ≡ true)
      ↔ ((k : ℕ) → has k chosen ≡ has k key)
unfolding is_correct
multi_correct_iff lower chosen key =
    let (f, g) = same_set-iff-has (sorted_set chosen) (sorted_set key) in
    (
      λ h k. sym (has-sorted_set k chosen) ∙ f h k ∙ has-sorted_set k key,
      λ h. g (λ k. has-sorted_set k chosen ∙ h k ∙ sym (has-sorted_set k key)),
    )
