-- ===== src/Cbt/Answers/Kept.antt =====
-- The table of answers as a map from an attempt and a question to the answer kept for them.
use senet.Prelude.{
  ℕ, ◌+◌, ◌<◌, Bool, true, false, ◌&&◌, Option, none, some, List, [], ◌∷◌, ◌++◌, ◌==◌, ◌≡◌, refl,
  sym, ap, ◌∙◌, arith, first, save, All-append, All-member, first-test, first-Member, inl, inr,
  Option-cases, ==→eq, ==_refl,
}
use mathlib.Core.Path.{subst}
use senet.Prelude.Keys.{
  IsKeyed, IsKeyed-save, IsKeyed-append, AllBelow, AllBelow-save, AllBelow-mono, first-save_same,
  first-save_other,
}
use senet.Exec.{Result, Result-cases, ok}
use senet.Cbt.{Value, Response, ExamAttempt, AttemptQuestion, Answer}
use senet.Cbt.Answers.{is_answer, answer_key, write_answer, asks, upsert_answer, to_stored_response}
use senet.Database.{Db}

-- the answer kept for a question of an attempt
abbrev pub kept : Db → ℕ → ℕ → Option Answer
kept db attempt question = first (is_answer attempt question) db.answers

-- unique keys below the next fresh one
abbrev pub HasAnswerKeys : Db → Type 0
HasAnswerKeys db = IsKeyed answer_key db.answers × AllBelow answer_key db.next_id db.answers

-- `after` keeps `row` for its question, and for every other what `db` keeps
abbrev pub Keeps : ExamAttempt → ℕ → Answer → Db → Db → Type 0
Keeps a q row db after =
    (row.attempt_id ≡ a.id)
    × (row.question_id ≡ q)
    × (kept after a.id q ≡ some row)
    × ((attempt question : ℕ)
        → (attempt == a.id && question == q) ≡ false
        → kept after attempt question ≡ kept db attempt question)

ok_injective : {a b : Answer} → ok a ≡ ok b → a ≡ b
ok_injective h = cc

first_append :
    (p : Answer → Bool) (xs : List Answer) (row : Answer)
    → first p xs ≡ none
    → p row ≡ true
    → first p (xs ++ row ∷ []) ≡ some row
first_append p [] row e t = rw t refl
first_append p (x ∷ xs) row e t = ground (arith, e, first_append p xs row)

first_skip :
    (p : Answer → Bool) (xs : List Answer) (row : Answer)
    → p row ≡ false
    → first p (xs ++ row ∷ []) ≡ first p xs
first_skip p [] row f = rw f refl
first_skip p (x ∷ xs) row f = ground (arith, first_skip p xs row f)

is_answer_refl :
    (a q : ℕ) (row : Answer) → row.attempt_id ≡ a → row.question_id ≡ q → is_answer a q row ≡ true
is_answer_refl a q row e f = ground (arith, e, f, ==_refl a, ==_refl q)

is_answer_other :
    (a q b r : ℕ) (row : Answer)
    → row.attempt_id ≡ a
    → row.question_id ≡ q
    → (b == a && r == q) ≡ false
    → is_answer b r row ≡ false
is_answer_other a q b r row e f h = ground (arith, e, f, h)

-- a row under a fresh key, where none was kept
new-Keeps :
    (a : ExamAttempt) (q : ℕ) (row : Answer) (db : Db)
    → row.id ≡ db.next_id
    → row.attempt_id ≡ a.id
    → row.question_id ≡ q
    → kept db a.id q ≡ none
    → HasAnswerKeys db
    → Keeps a q row db (record db { answers = db.answers ++ row ∷ []; next_id = db.next_id + 1 })
      × HasAnswerKeys (record db { answers = db.answers ++ row ∷ []; next_id = db.next_id + 1 })
new-Keeps a q row db i ea qe e (keyed, below) =
    let next = db.next_id + 1 in
    let up = AllBelow-mono answer_key db.next_id next db.answers (omega arith) below in
    (
      (
        ea,
        qe,
        first_append (is_answer a.id q) db.answers row e (is_answer_refl a.id q row ea qe),
        λ b r ne.
            first_skip (is_answer b r) db.answers row (is_answer_other a.id q b r row ea qe ne),
      ),
      (
        IsKeyed-append answer_key db.next_id row db.answers i below keyed,
        All-append (λ x. x.id < next) db.answers (row ∷ []) up (omega arith, tt),
      ),
    )

-- a row over the one that was kept
over-Keeps :
    (a : ExamAttempt) (q : ℕ) (old row : Answer) (db : Db)
    → row.id ≡ old.id
    → row.attempt_id ≡ old.attempt_id
    → row.question_id ≡ old.question_id
    → kept db a.id q ≡ some old
    → HasAnswerKeys db
    → Keeps a q row db (record db { answers = save answer_key row db.answers })
      × HasAnswerKeys (record db { answers = save answer_key row db.answers })
over-Keeps a q old row db i ra rq e (keyed, below) =
    let t : is_answer a.id q old ≡ true = first-test (is_answer a.id q) db.answers e in
    let m = first-Member (is_answer a.id q) db.answers e in
    let oa : old.attempt_id ≡ a.id = ==→eq old.attempt_id a.id (ground arith) in
    let oq : old.question_id ≡ q = ==→eq old.question_id q (ground arith) in
    let low : old.id < db.next_id = All-member (λ x. x.id < db.next_id) m below in
    let ea : row.attempt_id ≡ a.id = ra ∙ oa in
    let qe : row.question_id ≡ q = rq ∙ oq in
    (
      (
        ea,
        qe,
        first-save_same answer_key (is_answer a.id q) old row db.answers e (sym i)
            (is_answer_refl a.id q row ea qe),
        λ b r ne.
            first-save_other answer_key (is_answer b r) old row db.answers keyed m (sym i)
              (is_answer_other a.id q b r old oa oq ne) (is_answer_other a.id q b r row ea qe ne),
      ),
      (
        IsKeyed-save answer_key row db.answers keyed,
        AllBelow-save answer_key db.next_id row db.answers (omega (arith, low, i)) below,
      ),
    )

write-Keeps :
    (a : ExamAttempt) (q : ℕ) (r : Response) (o : Option Answer) (db : Db) (row : Answer)
    → kept db a.id q ≡ o
    → HasAnswerKeys db
    → (write_answer a q r o db).0 ≡ ok row
    → Keeps a q row db (write_answer a q r o db).1
      × HasAnswerKeys (write_answer a q r o db).1
      × (row.response ≡ r)
unfolding write_answer
write-Keeps a q r none db row e keys h =
    subst
      (λ x.
        Keeps a q x db (write_answer a q r none db).1
        × HasAnswerKeys (write_answer a q r none db).1
        × (x.response ≡ r))
      (ok_injective h) (let (k, l) = new-Keeps a q _ db refl refl refl e keys in (k, l, refl))
write-Keeps a q r (some old) db row e keys h =
    subst
      (λ x.
        Keeps a q x db (write_answer a q r (some old) db).1
        × HasAnswerKeys (write_answer a q r (some old) db).1
        × (x.response ≡ r))
      (ok_injective h) (let (k, l) = over-Keeps a q old _ db refl refl refl e keys in (k, l, refl))

-- the row of the paper that a save is for, and what it then does
upsert_ok :
    (a : ExamAttempt) (q : ℕ) (raw : Value) (db : Db) (row : Answer)
    → (upsert_answer a q raw db).0 ≡ ok row
    → (p : AttemptQuestion) × (r : Response) × (first (asks a.id q) db.papers ≡ some p)
      × (to_stored_response p.question.question_type p.option_order raw ≡ ok r)
      × (upsert_answer a q raw db ≡ write_answer a p.question.id r (kept db a.id p.question.id) db)
unfolding upsert_answer
upsert_ok a q raw db row h = elim (Option-cases (first (asks a.id q) db.papers)) [
  | inl e ↦ ground (arith, e, h)
  | inr (p, e) ↦
      elim (Result-cases (to_stored_response p.question.question_type p.option_order raw)) [
        | inl (r, s) ↦ (p, r, e, s, ground (arith, e, s))
        | inr (x, s) ↦ ground (arith, e, s, h)
      ]
]

write-papers :
    (a : ExamAttempt) (q : ℕ) (r : Response) (o : Option Answer) (db : Db)
    → (write_answer a q r o db).1.papers ≡ db.papers
unfolding write_answer
write-papers a q r none db = refl
write-papers a q r (some old) db = refl

-- A save that returns an answer, in tables whose answers have unique keys below the next fresh
-- one: the answer is for that attempt and question, it holds what `_to_stored_response` makes of
-- the response for the row of the paper that has the question, it is the one that is kept for them
-- from then on, and what is kept for every other question and attempt is as it was. The keys stay
-- unique and below the next fresh one, and the papers are as they were.
pub upsert_answer-Keeps :
    (a : ExamAttempt) (q : ℕ) (raw : Value) (db : Db) (row : Answer)
    → HasAnswerKeys db
    → (upsert_answer a q raw db).0 ≡ ok row
    → Keeps a q row db (upsert_answer a q raw db).1
      × HasAnswerKeys (upsert_answer a q raw db).1
      × ((upsert_answer a q raw db).1.papers ≡ db.papers)
      × (p : AttemptQuestion) × (first (asks a.id q) db.papers ≡ some p)
      × (to_stored_response p.question.question_type p.option_order raw ≡ ok row.response)
upsert_answer-Keeps a q raw db row keys h =
    let (p, r, e, s, z) = upsert_ok a q raw db row h in
    let t = first-test (asks a.id q) db.papers e in
    let same : p.question.id ≡ q = ==→eq p.question.id q (ground (arith, t)) in
    let z' : upsert_answer a q raw db ≡ write_answer a q r (kept db a.id q) db =
      z ∙ ap (λ k. write_answer a k r (kept db a.id k) db) same in
    let h' : (write_answer a q r (kept db a.id q) db).0 ≡ ok row =
      subst (λ (u : Result Answer × Db). u.0 ≡ ok row) z' h in
    let (k, l, m) = write-Keeps a q r (kept db a.id q) db row refl keys h' in
    subst
      (λ (u : Result Answer × Db).
        Keeps a q row db u.1
        × HasAnswerKeys u.1
        × (u.1.papers ≡ db.papers)
        × (p : AttemptQuestion) × (first (asks a.id q) db.papers ≡ some p)
        × (to_stored_response p.question.question_type p.option_order raw ≡ ok row.response))
      (sym z') (k, l, write-papers a q r (kept db a.id q) db, p, e, s ∙ ap ok (sym m))
