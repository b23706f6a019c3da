-- ===== src/Cbt/Marking.antt =====
-- backend/cbt/grading.py: the marking of one objective answer.
pub mod Choices
use senet.Prelude.{
  ℕ, Bool, true, false, ◌&&◌, ◌||◌, Option, none, some, List, [], ◌∷◌, ◌==◌, same_key, map,
  if◌then◌else◌,
}
use senet.Prelude.Text.{Text, is_space, strip, is_empty}
use senet.Prelude.Sets.{same_set}
use senet.Tenancy.Rules.{contains}
use senet.Cbt.{
  QuestionType, mcq, multi, true_false, fill_blank, short_answer, Key, no_key, key_index,
  key_indices, key_truth, key_words, Response, nothing, index, indices, truth, words, Question,
}

-- `_WHITESPACE.sub(" ", …)`: a run of spaces is one space. The flag says that the last code point
-- was a space.
abbrev squeeze_from : Bool → Text → Text
squeeze_from after [] = []
squeeze_from after (c ∷ s) =
    let rest = squeeze_from (is_space c) s in
    if is_space c then if after then rest else 32 ∷ rest else c ∷ rest

-- `normalize_text` of a text; `lower` is `str.lower`
unfoldable pub normalize_text : (Text → Text) → Text → Text
unfolding strip
normalize_text lower value = squeeze_from false (lower (strip value))

pub record Outcome : Type 0 where
  pub is_correct : Bool
  pub awarded_marks : ℕ

abbrev bit : Bool → ℕ
bit true = 1
bit false = 0

-- An `int` for `isinstance` and `==`: Python's truth values are the numbers 1 and 0.
abbrev int_response : Response → Option ℕ
int_response (index n) = some n
int_response (truth b) = some (bit b)
int_response _ = none

abbrev int_key : Key → Option ℕ
int_key (key_index n) = some n
int_key (key_truth b) = some (bit b)
int_key _ = none

abbrev same_indices : Response → Key → Bool
same_indices (indices xs) (key_indices ys) = same_set xs ys
same_indices _ _ = false

-- `bool(key)`
abbrev is_truthy : Key → Bool
is_truthy no_key = false
is_truthy (key_index n) = if n == 0 then false else true
is_truthy (key_indices []) = false
is_truthy (key_indices (x ∷ xs)) = true
is_truthy (key_truth b) = b
is_truthy (key_words []) = false
is_truthy (key_words (x ∷ xs)) = true

abbrev eq_bool : Bool → Bool → Bool
eq_bool true b = b
eq_bool false true = false
eq_bool false false = true

abbrev same_truth : Response → Key → Bool
same_truth (truth b) key = eq_bool b (is_truthy key)
same_truth _ key = false

-- an accepted text, both sides normalised; a blank one is wrong
abbrev accepts : (Text → Text) → Response → Key → Bool
accepts lower (words []) key = false
accepts lower (words (c ∷ s)) (key_words ws) =
    contains (normalize_text lower (c ∷ s)) (map (normalize_text lower) ws)
accepts lower _ key = false

-- `_is_correct`
unfoldable pub is_correct : (Text → Text) → QuestionType → Key → Response → Bool
unfolding normalize_text
is_correct lower mcq key response = same_key (int_response response) (int_key key)
is_correct lower multi key response = same_indices response key
is_correct lower true_false key response = same_truth response key
is_correct lower fill_blank key response = accepts lower response key
is_correct lower short_answer key response = false

abbrev outcome_of : Bool → ℕ → Outcome
outcome_of correct marks = record {
  is_correct = correct;
  awarded_marks = if correct then marks else 0;
}

-- `none` for a question that a human marks
unfoldable pub grade_answer : (Text → Text) → Question → Response → Option Outcome
unfolding is_correct
grade_answer lower question response = elim question.question_type [
  | short_answer ↦ none
  | kind ↦ some (outcome_of (is_correct lower kind question.correct_answer response) question.marks)
]
