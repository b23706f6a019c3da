-- ===== src/Cbt/Authoring/Checks.antt =====
-- The checks of a new question: `_validate_question_payload` of backend/cbt/services.py.
use senet.Prelude.{
  ℕ, Bool, true, false, Option, none, some, List, [], ◌∷◌, ltb, length, map, if◌then◌else◌,
}
use senet.Prelude.Text.{Text, is_empty, strip}
use senet.Prelude.Int.{pos}
use senet.Prelude.Sets.{sorted_set}
use senet.Exec.{Error, Result, ok, err, validation}
use senet.Cbt.{
  QuestionType, mcq, multi, true_false, fill_blank, short_answer, Scalar, integer, boolean, Value,
  scalar, list, Key, no_key, key_index, key_indices, key_truth, key_words,
}
use senet.Cbt.Values.{str}

-- what `_validate_question_payload` returns: options, key, and whether a human marks
pub record Payload : Type 0 where
  pub options : List Text
  pub correct_answer : Key
  pub requires_manual : Bool

abbrev pub choice_key : List Text → Result Key → Result Payload
choice_key options (ok key) =
    ok (record { options = options; correct_answer = key; requires_manual = false })
choice_key options (err e) = err e

abbrev answer_error : Error
answer_error = validation ("correct_answer" ∷ [])

-- an index into the options
abbrev pub option_index : ℕ → Value → Result Key
option_index n (scalar (integer (pos k))) = if ltb k n then ok (key_index k) else err answer_error
option_index n _ = err answer_error

-- indices into the options, each an `int`
abbrev pub all_indices : ℕ → List Scalar → Option (List ℕ)
all_indices n [] = some []
all_indices n (integer (pos k) ∷ xs) = elim (all_indices n xs) [
  | none ↦ none
  | some ks ↦ if ltb k n then some (k ∷ ks) else none
]
all_indices n _ = none

abbrev pub index_list : Option (List ℕ) → Result Key
index_list none = err answer_error
index_list (some []) = err answer_error
index_list (some (k ∷ ks)) = ok (key_indices (sorted_set (k ∷ ks)))

abbrev pub option_indices : ℕ → Value → Result Key
option_indices n (list t xs) = index_list (all_indices n xs)
option_indices n (scalar s) = err answer_error

abbrev pub truth_key : Value → Result Key
truth_key (scalar (boolean b)) = ok (key_truth b)
truth_key _ = err answer_error

abbrev pub all_words : List Scalar → Option (List Text)
all_words [] = some []
all_words (x ∷ xs) = elim (all_words xs) [
  | none ↦ none
  | some ws ↦ if is_empty (strip (str x)) then none else some (str x ∷ ws)
]

abbrev pub word_list : Option (List Text) → Result Key
word_list none = err answer_error
word_list (some []) = err answer_error
word_list (some (w ∷ ws)) = ok (key_words (w ∷ ws))

abbrev pub accepted_words : Value → Result Key
accepted_words (list t xs) = word_list (all_words xs)
accepted_words (scalar s) = err answer_error

abbrev manual : Payload
manual = record { options = []; correct_answer = no_key; requires_manual = true }

-- `[str(o) for o in options]`; what is no list counts as an empty one
abbrev pub option_texts : Value → List Text
option_texts (list t xs) = map str xs
option_texts (scalar s) = []

-- choice questions need two options
abbrev pub choice : List Text → Result Key → Result Payload
choice options key =
    if ltb (length options) 2 then err (validation ("options" ∷ [])) else choice_key options key

-- `_validate_question_payload`
unfoldable pub validate_question_payload : QuestionType → Value → Value → Result Payload
unfolding strip str
validate_question_payload mcq options answer =
    choice (option_texts options) (option_index (length (option_texts options)) answer)
validate_question_payload multi options answer =
    choice (option_texts options) (option_indices (length (option_texts options)) answer)
validate_question_payload true_false options answer = choice_key [] (truth_key answer)
validate_question_payload fill_blank options answer = choice_key [] (accepted_words answer)
validate_question_payload short_answer options answer = ok manual
