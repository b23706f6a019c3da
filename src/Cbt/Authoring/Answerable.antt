-- ===== src/Cbt/Authoring/Answerable.antt =====
-- A question that the checks accept can be answered correctly.
use senet.Prelude.{
  ℕ, ◌<◌, true, false, Option, none, some, List, [], ◌∷◌, ◌≡◌, refl, sym, ap, ◌∙◌, arith, All,
  All-map, length, map, ltb, ltb→lt, Bool-cases, Option-cases, inl, inr, ==_refl,
}
use mathlib.Core.Path.{subst}
use senet.Prelude.Text.{Text, strip, is_empty, eq_text_refl}
use senet.Prelude.Int.{pos}
use senet.Prelude.Sets.{has, sorted_set}
use senet.Exec.{Result, ok, err}
use senet.Tenancy.Rules.{contains}
use senet.Cbt.{
  QuestionType, mcq, multi, true_false, fill_blank, short_answer, is_objective, Scalar, integer,
  boolean, string, Value, scalar, list, Key, key_index, key_indices, key_truth, key_words, Response,
  index, indices, truth, words,
}
use senet.Cbt.Values.{str}
use senet.Cbt.Marking.{is_correct, normalize_text}
use senet.Cbt.Marking.Choices.{multi_correct_iff}
use senet.Cbt.Answers.{to_stored_response}
use senet.Cbt.Answers.Displayed.{shown, choice-shown, choices-shown}
use senet.Cbt.Authoring.Checks.{
  Payload, choice, choice_key, validate_question_payload, option_index, all_indices, index_list,
  word_list, option_indices, accepted_words, truth_key, all_words, option_texts,
}

-- an order that shows every option of `n`
abbrev pub ShowsAll : ℕ → List ℕ → Type 0
ShowsAll n order = (k : ℕ) → k < n → has k order ≡ true

-- a response whose stored form is marked correct
abbrev pub IsAnswerable : (Text → Text) → QuestionType → List ℕ → Key → Type 0
IsAnswerable lower kind order key =
    (raw : Value) × (stored : Response) × (to_stored_response kind order raw ≡ ok stored)
    × (is_correct lower kind key stored ≡ true)

mcq-IsAnswerable :
    (lower : Text → Text) (order : List ℕ) (n : ℕ) (answer : Value) (key : Key)
    → ShowsAll n order
    → option_index n answer ≡ ok key
    → IsAnswerable lower mcq order key
unfolding is_correct
mcq-IsAnswerable lower order n (scalar (integer (pos k))) key shows e =
    elim (Bool-cases (ltb k n)) [
      | inl t ↦
          let z : key_index k ≡ key = ground (arith, e, t) in
          subst (IsAnswerable lower mcq order) z (
            scalar (shown order k),
            index k,
            choice-shown order k (shows k (ltb→lt k n t)),
            ==_refl k,
          )
      | inr f ↦ ground (arith, e, f)
    ]
mcq-IsAnswerable lower order n _ key shows e = cc

all_indices-All :
    (n : ℕ) (xs : List Scalar) (ks : List ℕ) → all_indices n xs ≡ some ks → All (λ k. k < n) ks
all_indices-All n [] ks e = let z : [] ≡ ks = cc in subst (All (λ k. k < n)) z tt
all_indices-All n (integer (pos k) ∷ xs) ks e = elim (Option-cases (all_indices n xs)) [
  | inl f ↦ ground (arith, e, f)
  | inr (js, f) ↦ elim (Bool-cases (ltb k n)) [
    | inl t ↦
        let z : k ∷ js ≡ ks = ground (arith, e, f, t) in
        subst (All (λ i. i < n)) z (ltb→lt k n t, all_indices-All n xs js f)
    | inr t ↦ ground (arith, e, f, t)
  ]
]
all_indices-All n _ ks e = cc

index_list_ok :
    (o : Option (List ℕ)) (ks : List ℕ) (key : Key)
    → o ≡ some ks
    → index_list o ≡ ok key
    → key_indices (sorted_set ks) ≡ key
index_list_ok none ks key e h = cc
index_list_ok (some []) ks key e h = cc
index_list_ok (some (j ∷ js)) ks key e h =
    let z : j ∷ js ≡ ks = cc in ap (λ l. key_indices (sorted_set l)) (sym z) ∙ cc

multi-IsAnswerable :
    (lower : Text → Text) (order : List ℕ) (n : ℕ) (answer : Value) (key : Key)
    → ShowsAll n order
    → option_indices n answer ≡ ok key
    → IsAnswerable lower multi order key
multi-IsAnswerable lower order n (scalar s) key shows e = cc
multi-IsAnswerable lower order n (list t xs) key shows e = elim (Option-cases (all_indices n xs)) [
  | inl f ↦ ground (arith, e, f)
  | inr (ks, f) ↦
      let z = index_list_ok (all_indices n xs) ks key f e in
      let seen =
        All-map (λ k. k < n) (λ k. has k order ≡ true) ks shows (all_indices-All n xs ks f) in
      subst (IsAnswerable lower multi order) z (
        list [] (map (shown order) ks),
        indices (sorted_set ks),
        choices-shown order ks [] seen,
        (multi_correct_iff lower ks ks).1 (λ k. refl),
      )
]

true_false-IsAnswerable :
    (lower : Text → Text) (order : List ℕ) (answer : Value) (key : Key)
    → truth_key answer ≡ ok key
    → IsAnswerable lower true_false order key
unfolding is_correct to_stored_response
true_false-IsAnswerable lower order (scalar (boolean true)) key e =
    let z : key_truth true ≡ key = cc in
    subst (IsAnswerable lower true_false order) z (scalar (boolean true), truth true, refl, refl)
true_false-IsAnswerable lower order (scalar (boolean false)) key e =
    let z : key_truth false ≡ key = cc in
    subst (IsAnswerable lower true_false order) z (scalar (boolean false), truth false, refl, refl)
true_false-IsAnswerable lower order _ key e = cc

contains_first : (w : Text) (ws : List Text) → contains w (w ∷ ws) ≡ true
contains_first w ws = ground (arith, eq_text_refl w)

first_word :
    (lower : Text → Text) (order w : Text) (ws : List Text)
    → is_empty (strip w) ≡ false
    → IsAnswerable lower fill_blank order (key_words (w ∷ ws))
unfolding is_correct strip to_stored_response str
first_word lower order [] ws h = cc
first_word lower order (c ∷ s) ws h = (
  scalar (string (c ∷ s)),
  words (c ∷ s),
  refl,
  contains_first (normalize_text lower (c ∷ s)) (map (normalize_text lower) ws),
)

word_list_ok :
    (lower : Text → Text) (order : List ℕ) (xs : List Scalar) (key : Key)
    → word_list (all_words xs) ≡ ok key
    → IsAnswerable lower fill_blank order key
word_list_ok lower order [] key e = cc
word_list_ok lower order (x ∷ xs) key e = elim (Option-cases (all_words xs)) [
  | inl f ↦ ground (arith, e, f)
  | inr (ws, f) ↦ elim (Bool-cases (is_empty (strip (str x)))) [
    | inl t ↦ ground (arith, e, f, t)
    | inr t ↦
        let z : key_words (str x ∷ ws) ≡ key = ground (arith, e, f, t) in
        subst (IsAnswerable lower fill_blank order) z (first_word lower order (str x) ws t)
  ]
]

fill-IsAnswerable :
    (lower : Text → Text) (order : List ℕ) (answer : Value) (key : Key)
    → accepted_words answer ≡ ok key
    → IsAnswerable lower fill_blank order key
fill-IsAnswerable lower order (list t xs) key e = word_list_ok lower order xs key e
fill-IsAnswerable lower order (scalar s) key e = cc

choice_ok :
    (options : List Text) (r : Result Key) (p : Payload)
    → choice options r ≡ ok p
    → (p.options ≡ options) × (p.requires_manual ≡ false) × (r ≡ ok p.correct_answer)
choice_ok options (ok key) p e = elim (Bool-cases (ltb (length options) 2)) [
  | inl t ↦ ground (arith, e, t)
  | inr t ↦ ground (arith, e, t)
]
choice_ok options (err x) p e = ground (arith, e)

choice_key_ok :
    (options : List Text) (r : Result Key) (p : Payload)
    → choice_key options r ≡ ok p
    → (p.requires_manual ≡ false) × (r ≡ ok p.correct_answer)
choice_key_ok options (ok key) p e = ground (arith, e)
choice_key_ok options (err x) p e = cc

-- A question of an objective type that the checks accept is not marked by hand, and can be
-- answered correctly in every order that shows all its options: some response is stored in a form
-- that the marking takes for correct.
pub validated-IsAnswerable :
    (lower : Text → Text) (kind : QuestionType) (options answer : Value) (order : List ℕ)
    (p : Payload)
    → is_objective kind ≡ true
    → validate_question_payload kind options answer ≡ ok p
    → ShowsAll (length p.options) order
    → (p.requires_manual ≡ false) × IsAnswerable lower kind order p.correct_answer
unfolding validate_question_payload
validated-IsAnswerable lower mcq options answer order p o e shows =
    let texts = option_texts options in
    let (same, m, k) = choice_ok texts (option_index (length texts) answer) p e in
    let all : ShowsAll (length texts) order = subst (λ l. ShowsAll (length l) order) same shows in
    (m, mcq-IsAnswerable lower order (length texts) answer p.correct_answer all k)
validated-IsAnswerable lower multi options answer order p o e shows =
    let texts = option_texts options in
    let (same, m, k) = choice_ok texts (option_indices (length texts) answer) p e in
    let all : ShowsAll (length texts) order = subst (λ l. ShowsAll (length l) order) same shows in
    (m, multi-IsAnswerable lower order (length texts) answer p.correct_answer all k)
validated-IsAnswerable lower true_false options answer order p o e shows =
    let (m, k) = choice_key_ok [] (truth_key answer) p e in
    (m, true_false-IsAnswerable lower order answer p.correct_answer k)
validated-IsAnswerable lower fill_blank options answer order p o e shows =
    let (m, k) = choice_key_ok [] (accepted_words answer) p e in
    (m, fill-IsAnswerable lower order answer p.correct_answer k)
validated-IsAnswerable lower short_answer options answer order p o e shows = cc
