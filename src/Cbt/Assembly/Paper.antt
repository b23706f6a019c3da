-- ===== src/Cbt/Assembly/Paper.antt =====
-- The paper that an attempt gets, for any draws the interpreter may make.
use senet.Prelude.{
  ℕ, suc, ◌≤◌, Bool, true, false, List, [], ◌∷◌, ◌++◌, ◌≡◌, ◌⊎◌, refl, sym, ap, ◌∙◌, arith, map,
  length, leb, exists, All, if◌then◌else◌, if_ind, leb→le, Bool-cases, inl, inr,
}
use mathlib.Core.Path.{subst}
use mathlib.Core.List.{Perm}
use mathlib.Core.List.Perm
use senet.Prelude.Sets.{range_from}
use senet.Prelude.Sorting.{sort_by-perm, length-sort_by}
use senet.Exec.{ok, err, validation}
use senet.Cbt.{Question, Exam, ExamAttempt, AttemptQuestion, Runtime, is_choice}
use senet.Cbt.Assembly.{
  bank_question_pool, option_order, paper_rows, drawn, older, of_attempt, draw_paper,
  assemble_attempt_questions,
}
use senet.Database.{Db}

-- what `SystemRandom` documents: a sample of `n` places of the list, and a shuffle of the list
pub record IsFair (rt : Runtime) : Type 0 where
  pub sample-length :
      (pool : List Question) (n : ℕ) → n ≤ length pool → length (rt.sample pool n) ≡ n
  pub sample-perm :
      (pool : List Question) (n : ℕ)
      → n ≤ length pool
      → (rest : List Question) × Perm (rt.sample pool n ++ rest) pool
  pub shuffle-perm : (k : ℕ) (xs : List ℕ) → Perm (rt.shuffle k xs) xs

-- the order of the options of one row
abbrev pub HasOptions : AttemptQuestion → Type 0
HasOptions row =
    if is_choice row.question.question_type
    then Perm row.option_order (range_from 0 (length row.question.options))
    else row.option_order ≡ []

-- the rows of a paper of `n` questions out of a pool
pub record IsPaper (attempt : ExamAttempt) (n : ℕ) (pool : List Question)
    (rows : List AttemptQuestion) : Type 0 where
  pub positions : map (λ (r : AttemptQuestion). r.position) rows ≡ range_from 0 n
  pub questions :
      (rest : List Question) × Perm (map (λ (r : AttemptQuestion). r.question) rows ++ rest) pool
  pub owned : All (λ (r : AttemptQuestion). r.attempt_id ≡ attempt.id) rows
  pub options : All HasOptions rows

module _ (rt : Runtime) (fair : IsFair rt) (attempt : ExamAttempt) (exam : Exam) where
  option_order-Perm :
      (k : ℕ) (q : Question)
      → if is_choice q.question_type
        then Perm (option_order rt exam.shuffle_options k q) (range_from 0 (length q.options))
        else option_order rt exam.shuffle_options k q ≡ []
  unfolding option_order
  option_order-Perm k q = go (is_choice q.question_type) exam.shuffle_options
    where
      order : List ℕ
      order = range_from 0 (length q.options)

      go :
          (choice mixed : Bool)
          → if choice
            then Perm (if choice then if mixed then rt.shuffle k order else order else []) order
            else ((if choice then if mixed then rt.shuffle k order else order else []) ≡ [])
      go true true = fair.shuffle-perm k order
      go true false = Perm.refl order
      go false mixed = refl

  rows-positions :
      (k : ℕ) (qs : List Question)
      → map (λ (r : AttemptQuestion). r.position) (paper_rows rt attempt exam k qs)
        ≡ range_from k (length qs)
  unfolding paper_rows
  rows-positions k [] = refl
  rows-positions k (q ∷ qs) = ap (λ t. k ∷ t) (rows-positions (suc k) qs)

  rows-questions :
      (k : ℕ) (qs : List Question)
      → map (λ (r : AttemptQuestion). r.question) (paper_rows rt attempt exam k qs) ≡ qs
  unfolding paper_rows
  rows-questions k [] = refl
  rows-questions k (q ∷ qs) = ap (λ t. q ∷ t) (rows-questions (suc k) qs)

  rows-All :
      (k : ℕ) (qs : List Question)
      → All (λ (r : AttemptQuestion). r.attempt_id ≡ attempt.id) (paper_rows rt attempt exam k qs)
        × All HasOptions (paper_rows rt attempt exam k qs)
  unfolding paper_rows
  rows-All k [] = (tt, tt)
  rows-All k (q ∷ qs) =
      let (own, opts) = rows-All (suc k) qs in ((refl, own), (option_order-Perm k q, opts))

  -- sampling and sorting draw as many places of the pool as are asked for
  drawn_lem :
      (pool : List Question)
      → exam.num_questions ≤ length pool
      → (length (drawn rt exam pool) ≡ exam.num_questions)
        × (rest : List Question) × Perm (drawn rt exam pool ++ rest) pool
  drawn_lem pool enough =
      let picked = rt.sample pool exam.num_questions in
      let n = fair.sample-length pool exam.num_questions enough in
      let (rest, p) = fair.sample-perm pool exam.num_questions enough in
      if_ind
        (λ qs. (length qs ≡ exam.num_questions) × (rest : List Question) × Perm (qs ++ rest) pool)
        exam.shuffle_questions (λ _. (n, rest, p))
        (λ _. (
          length-sort_by older picked ∙ n,
          rest,
          Perm.trans (Perm.append_right rest (sort_by-perm older picked)) p,
        ))

  rows-IsPaper :
      (pool : List Question)
      → exam.num_questions ≤ length pool
      → IsPaper attempt exam.num_questions pool (paper_rows rt attempt exam 0 (drawn rt exam pool))
  rows-IsPaper pool enough =
      let qs = drawn rt exam pool in
      let (n, rest, p) = drawn_lem pool enough in
      let (own, opts) = rows-All 0 qs in
      record {
        positions = rows-positions 0 qs ∙ ap (range_from 0) n;
        questions = (rest, subst (λ xs. Perm (xs ++ rest) pool) (sym (rows-questions 0 qs)) p);
        owned = own;
        options = opts;
      }

-- Where the interpreter's draws are a sample and a shuffle, an assembly for an attempt without a
-- paper either refuses, because the banks hold fewer questions than the exam needs, and writes
-- nothing, or it adds to the papers, and to no other table, the rows of a paper for the attempt:
-- as many as the exam has questions, at the positions from 0 on, each with another question of the
-- banks, with an order of all the options for a choice question and none for others.
pub assemble-IsPaper :
    (rt : Runtime) (attempt : ExamAttempt) (exam : Exam) (db : Db)
    → IsFair rt
    → exists (of_attempt attempt.id) db.papers ≡ false
    → ((leb exam.num_questions (length (bank_question_pool exam db)) ≡ false)
        × (assemble_attempt_questions rt attempt exam db
            ≡ (err (validation ("num_questions" ∷ [])), db)))
      ⊎ (rows : List AttemptQuestion) × IsPaper attempt exam.num_questions
          (bank_question_pool exam db)
          rows
        × (assemble_attempt_questions rt attempt exam db
            ≡ (ok tt, record db { papers = db.papers ++ rows }))
unfolding assemble_attempt_questions draw_paper
assemble-IsPaper rt attempt exam db fair none_yet =
    let pool = bank_question_pool exam db in
    elim (Bool-cases (leb exam.num_questions (length pool))) [
      | inl t ↦ inr (
        paper_rows rt attempt exam 0 (drawn rt exam pool),
        rows-IsPaper rt fair attempt exam pool (leb→le exam.num_questions (length pool) t),
        ground (arith, none_yet, t),
      )
      | inr f ↦ inl (f, ground (arith, none_yet, f))
    ]
