-- ===== src/Cbt/Attempts/LastWrite.antt =====
-- A batch of saves as writes to a map from questions to answers: the last one wins.
use senet.Prelude.{
  ℕ, false, Option, some, List, [], ◌∷◌, ◌==◌, ◌≡◌, refl, sym, ap, ◌∙◌, arith, if◌then◌else◌, inl,
  inr, ==→eq, Bool-cases, Member, first-Member, first-test, true,
}
use senet.Exec.{Result-cases, ok}
use mathlib.Core.Path.{subst}
use senet.Cbt.{Value, ExamAttempt, AttemptQuestion, Answer}
use senet.Cbt.Answers.{upsert_answer, asks, to_stored_response}
use senet.Cbt.Answers.Kept.{kept, HasAnswerKeys, Keeps, upsert_answer-Keeps}
use senet.Cbt.Attempts.{upsert_all}
use senet.Database.{Db}

-- the specification: one answer a question at most, and a write that replaces it
abbrev pub Kept : Type 0
Kept = ℕ → Option Answer

abbrev pub put : Kept → ℕ → Answer → Kept
put m q row k = if k == q then some row else m k

abbrev pub put_all : Kept → List Answer → Kept
put_all m [] = m
put_all m (row ∷ rows) = put_all (put m row.question_id row) rows

put_all_cong :
    (m n : Kept) (rows : List Answer) (k : ℕ)
    → ((j : ℕ) → m j ≡ n j)
    → put_all m rows k ≡ put_all n rows k
put_all_cong m n [] k h = h k
put_all_cong m n (row ∷ rows) k h =
    put_all_cong (put m row.question_id row) (put n row.question_id row) rows k
      (λ j. ground (arith, h j))

-- one write
one_put :
    (a : ExamAttempt) (q : ℕ) (row : Answer) (db after : Db) (k : ℕ)
    → Keeps a q row db after
    → kept after a.id k ≡ put (kept db a.id) row.question_id row k
one_put a q row db after k (ea, qe, now, others) =
    let w : put (kept db a.id) row.question_id row k ≡ put (kept db a.id) q row k =
      ap (λ j. put (kept db a.id) j row k) qe in
    elim (Bool-cases (k == q)) [
      | inl t ↦
          let z : k ≡ q = ==→eq k q t in ap (λ j. kept after a.id j) z ∙ now ∙ sym (w ∙ rw t refl)
      | inr f ↦ others a.id k (ground (arith, f)) ∙ sym (w ∙ rw f refl)
    ]

upsert_all_ok :
    (a : ExamAttempt) (q : ℕ) (raw : Value) (items : List (ℕ × Value)) (db : Db)
    (rows : List Answer)
    → (upsert_all a ((q, raw) ∷ items) db).0 ≡ ok rows
    → (row : Answer) × (rest : List Answer) × (rows ≡ row ∷ rest)
      × ((upsert_answer a q raw db).0 ≡ ok row)
      × ((upsert_all a items (upsert_answer a q raw db).1).0 ≡ ok rest)
      × ((upsert_all a ((q, raw) ∷ items) db).1
          ≡ (upsert_all a items (upsert_answer a q raw db).1).1)
unfolding upsert_all
upsert_all_ok a q raw items db rows h = elim (Result-cases (upsert_answer a q raw db).0) [
  | inl (row, e) ↦ elim (Result-cases (upsert_all a items (upsert_answer a q raw db).1).0) [
    | inl (rest, f) ↦ (row, rest, ground (arith, e, f, h), e, f, ground (arith, e, f))
    | inr (x, f) ↦ ground (arith, e, f, h)
  ]
  | inr (x, e) ↦ ground (arith, e, h)
]

-- the answer that is stored for an item: what its response becomes on the paper's row of its
-- question, in the row's order of options
abbrev pub Stores : ℕ → List AttemptQuestion → ℕ → Value → Answer → Type 0
Stores attempt papers q raw row =
    (row.attempt_id ≡ attempt)
    × (row.question_id ≡ q)
    × (p : AttemptQuestion) × Member p papers
    × (p.attempt_id ≡ attempt)
    × (p.question.id ≡ q)
    × (to_stored_response p.question.question_type p.option_order raw ≡ ok row.response)

-- an answer for each item, in their order
abbrev pub AllStores : ℕ → List AttemptQuestion → List (ℕ × Value) → List Answer → Type 0
AllStores attempt papers [] [] = Unit
AllStores attempt papers ((q, raw) ∷ items) (row ∷ rows) =
    Stores attempt papers q raw row × AllStores attempt papers items rows
AllStores attempt papers items rows = ⊥

asks-keys :
    (attempt q : ℕ) (p : AttemptQuestion)
    → asks attempt q p ≡ true
    → (p.attempt_id ≡ attempt) × (p.question.id ≡ q)
asks-keys attempt q p t = ground arith

-- A batch of saves that returns, in tables whose answers have unique keys below the next fresh
-- one, returns an answer for each item in their order, for its question and with what its response
-- becomes on the paper's row of the question. What is then kept for the attempt is what was kept
-- before with these answers put in one after another, so that the last item for a question wins.
-- What is kept for other attempts is as it was.
pub upsert_all-puts :
    (a : ExamAttempt) (items : List (ℕ × Value)) (db : Db) (rows : List Answer)
    → HasAnswerKeys db
    → (upsert_all a items db).0 ≡ ok rows
    → AllStores a.id db.papers items rows
      × ((q : ℕ) → kept (upsert_all a items db).1 a.id q ≡ put_all (kept db a.id) rows q)
      × ((b q : ℕ) → (b == a.id) ≡ false → kept (upsert_all a items db).1 b q ≡ kept db b q)
unfolding upsert_all
upsert_all-puts a [] db rows keys h =
    let z : [] ≡ rows = cc in
    (subst (AllStores a.id db.papers []) z tt, λ q. rw (sym z) refl, λ b q ne. refl)
upsert_all-puts a ((q, raw) ∷ items) db rows keys h =
    let (row, rest, z, e, f, after) = upsert_all_ok a q raw items db rows h in
    let mid = (upsert_answer a q raw db).1 in
    let (k, keys', papers, p, found, stored) = upsert_answer-Keeps a q raw db row keys e in
    let (ea, qe, _, elsewhere) = k in
    let (attempt, question) = asks-keys a.id q p (first-test (asks a.id q) db.papers found) in
    let (stores, puts, others) = upsert_all-puts a items mid rest keys' f in
    (
      subst (AllStores a.id db.papers ((q, raw) ∷ items)) (sym z) (
        (ea, qe, p, first-Member (asks a.id q) db.papers found, attempt, question, stored),
        subst (λ ps. AllStores a.id ps items rest) papers stores,
      ),
      λ j.
          ap (λ s. kept s a.id j) after
          ∙ puts j
          ∙ put_all_cong (kept mid a.id) (put (kept db a.id) row.question_id row) rest j
              (λ i. one_put a q row db mid i k)
          ∙ ap (λ rs. put_all (kept db a.id) rs j) (sym z),
      λ b j ne. ap (λ s. kept s b j) after ∙ others b j ne ∙ elsewhere b j (ground (arith, ne)),
    )
