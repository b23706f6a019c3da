-- ===== src/Cbt/Answers.antt =====
-- The saving of answers: `_to_stored_response` and `_upsert_answer` of backend/cbt/services.py.
pub mod Kept
pub mod Displayed
use senet.Prelude.{
  ℕ, zero, suc, ◌+◌, Bool, true, false, not, ◌&&◌, Option, none, some, List, [], ◌∷◌, ◌++◌, ◌==◌,
  first, save, if◌then◌else◌,
}
use senet.Prelude.Text.{Text}
use senet.Prelude.Int.{ℤ, pos, negsuc}
use senet.Prelude.Sets.{sorted_set}
use senet.Exec.{
  Error, Result, ok, err, validation, not_found, Exec, pure, gets, or_raise, ◌>>=◌, ◌>>◌,
}
use senet.Cbt.{
  QuestionType, mcq, multi, true_false, fill_blank, short_answer, Scalar, null, integer, boolean,
  string, other, Value, scalar, list, Response, nothing, index, indices, truth, words, Question,
  ExamAttempt, AttemptQuestion, Answer,
}
use senet.Cbt.Values.{str}
use senet.Database.{Db}

abbrev pub response_error : Error
response_error = validation ("response" ∷ [])

-- `option_order[n]`, where there is one
abbrev pub nth : List ℕ → ℕ → Option ℕ
nth [] n = none
nth (x ∷ xs) zero = some x
nth (x ∷ xs) (suc n) = nth xs n

-- The original index at a display position, or the error of `_as_option_position`.
abbrev pub original_at : List ℕ → Scalar → Option ℕ
original_at order (integer (pos n)) = nth order n
original_at order _ = none

abbrev pub originals : List ℕ → List Scalar → Option (List ℕ)
originals order [] = some []
originals order (x ∷ xs) = elim (original_at order x) [
  | none ↦ none
  | some k ↦ elim (originals order xs) [ none ↦ none | some ks ↦ some (k ∷ ks) ]
]

abbrev stored_index : Option ℕ → Result Response
stored_index none = err response_error
stored_index (some k) = ok (index k)

abbrev stored_indices : Option (List ℕ) → Result Response
stored_indices none = err response_error
stored_indices (some ks) = ok (indices (sorted_set ks))

abbrev stored_choice : List ℕ → Value → Result Response
stored_choice order (scalar s) = stored_index (original_at order s)
stored_choice order (list t xs) = err response_error

abbrev stored_choices : List ℕ → Value → Result Response
stored_choices order (scalar s) = err response_error
stored_choices order (list t xs) = stored_indices (originals order xs)

abbrev stored_truth : Value → Result Response
stored_truth (scalar (boolean b)) = ok (truth b)
stored_truth _ = err response_error

abbrev stored_words : Value → Result Response
stored_words (scalar null) = ok (words [])
stored_words (scalar s) = ok (words (str s))
stored_words (list t xs) = ok (words t)

unfoldable pub to_stored_response : QuestionType → List ℕ → Value → Result Response
unfolding str
to_stored_response mcq order raw = stored_choice order raw
to_stored_response multi order raw = stored_choices order raw
to_stored_response true_false order raw = stored_truth raw
to_stored_response fill_blank order raw = stored_words raw
to_stored_response short_answer order raw = stored_words raw

abbrev pub is_answer : ℕ → ℕ → Answer → Bool
is_answer attempt question a = a.attempt_id == attempt && a.question_id == question

abbrev pub answer_key : Answer → ℕ
answer_key a = a.id

-- `Answer.all_objects.update_or_create`
unfoldable pub write_answer : ExamAttempt → ℕ → Response → Option Answer → Exec Db Answer
write_answer attempt question response none db =
    let row : Answer = record {
      id = db.next_id;
      institution_id = attempt.institution_id;
      attempt_id = attempt.id;
      question_id = question;
      response = response;
      is_correct = none;
      awarded_marks = none;
      graded_manually = false;
    } in
    (ok row, record db { answers = db.answers ++ row ∷ []; next_id = db.next_id + 1 })
write_answer attempt question response (some old) db =
    let row = record old {
      institution_id = attempt.institution_id;
      response = response;
      is_correct = none;
      awarded_marks = none;
      graded_manually = false;
    } in
    (ok row, record db { answers = save answer_key row db.answers })

abbrev pub asks : ℕ → ℕ → AttemptQuestion → Bool
asks attempt question row = row.attempt_id == attempt && row.question.id == question

abbrev pub stored_or_raise {ℓ} : {S A : Type ℓ} → Result A → Exec S A
stored_or_raise r s = (r, s)

unfoldable pub upsert_answer : ExamAttempt → ℕ → Value → Exec Db Answer
unfolding to_stored_response write_answer
upsert_answer attempt question raw = do
  found ← gets (λ db. first (asks attempt.id question) db.papers)
  row ← or_raise found (not_found "Question is not part of this attempt.")
  stored ← stored_or_raise (to_stored_response row.question.question_type row.option_order raw)
  existing ← gets (λ db. first (is_answer attempt.id row.question.id) db.answers)
  write_answer attempt row.question.id stored existing
