-- ===== src/Cbt/Finalizing/Totals.antt =====
-- What the loop of `_grade_objective` adds up, against sums over the paper.
use senet.Prelude.{
  ℕ, ◌+◌, ◌≤◌, Bool, true, false, ◌||◌, List, [], ◌∷◌, ◌≡◌, refl, arith, filter, sum_by, exists,
  if◌then◌else◌, if_ind, ap, ◌∙◌,
}
use senet.Prelude.Text.{Text}
use senet.Cbt.{QuestionType, short_answer, AttemptQuestion, Answer}
use senet.Cbt.Marking.{grade_answer, is_correct}
use senet.Cbt.Assembly.{of_attempt}
use senet.Cbt.Finalizing.{
  PaperTotals, add_marks, save_outcome, answer_to, response_of, is_given, grade_rows,
  grade_objective, no_marks,
}
use senet.Database.{Db}

-- the marks of one row: all of them for a correct answer to an objective question
abbrev pub earned : (Text → Text) → ℕ → List Answer → AttemptQuestion → ℕ
earned lower attempt given row =
    let q = row.question in
    if is_correct lower q.question_type q.correct_answer
      (response_of (answer_to attempt q.id given))
    then q.marks
    else 0

abbrev pub is_short : QuestionType → Bool
is_short short_answer = true
is_short _ = false

-- a row that waits for a human
abbrev pub awaits_marking : ℕ → List Answer → AttemptQuestion → Bool
awaits_marking attempt given row =
    if is_short row.question.question_type
    then is_given (response_of (answer_to attempt row.question.id given))
    else false

abbrev pub row_marks : AttemptQuestion → ℕ
row_marks row = row.question.marks

or_assoc : (a b c : Bool) → ((a || b) || c) ≡ (a || (b || c))
or_assoc true b c = refl
or_assoc false b c = refl

earned_le :
    (lower : Text → Text) (attempt : ℕ) (given : List Answer) (rows : List AttemptQuestion)
    → sum_by (earned lower attempt given) rows ≤ sum_by row_marks rows
unfolding is_correct
earned_le lower attempt given [] = omega arith
earned_le lower attempt given (row ∷ rows) =
    let le = earned_le lower attempt given rows in
    let one : earned lower attempt given row ≤ row.question.marks =
      if_ind (λ n. n ≤ row.question.marks)
        (is_correct lower row.question.question_type row.question.correct_answer
          (response_of (answer_to attempt row.question.id given)))
        (λ _. omega arith) (λ _. omega arith) in
    omega arith

-- `after` is `t` with these marks, this maximum and this wait added
abbrev Adds : PaperTotals → PaperTotals → ℕ → ℕ → Bool → Type 0
Adds after t marks most waits =
    (after.objective_total ≡ t.objective_total + marks)
    × (after.max_total ≡ t.max_total + most)
    × (after.manual_pending ≡ (t.manual_pending || waits))

-- what one row adds
row-Adds :
    (lower : Text → Text) (attempt : ℕ) (given : List Answer) (row : AttemptQuestion)
    (t : PaperTotals)
    → Adds
        (add_marks row.question.marks
          (answer_to attempt row.question.id given)
          (grade_answer lower row.question (response_of (answer_to attempt row.question.id given)))
          t)
        t
        (earned lower attempt given row)
        row.question.marks
        (awaits_marking attempt given row)
unfolding grade_answer is_correct
row-Adds lower attempt given row t = ground arith

module _ (lower : Text → Text) (attempt : ℕ) (given : List Answer) where
  rows_totals :
      (rows : List AttemptQuestion) (t : PaperTotals) (table : List Answer)
      → Adds
          (grade_rows lower attempt given rows t table).0
          t
          (sum_by (earned lower attempt given) rows)
          (sum_by row_marks rows)
          (exists (awaits_marking attempt given) rows)
  unfolding grade_rows
  rows_totals [] t table = ground arith
  rows_totals (row ∷ rows) t table =
      let answer = answer_to attempt row.question.id given in
      let outcome = grade_answer lower row.question (response_of answer) in
      let (a, b, c) =
        rows_totals rows (add_marks row.question.marks answer outcome t)
          (save_outcome answer outcome table) in
      let (x, y, z) = row-Adds lower attempt given row t in
      let more = exists (awaits_marking attempt given) rows in
      (
        omega arith,
        omega arith,
        c
            ∙ ap (λ w. w || more) z
            ∙ or_assoc t.manual_pending (awaits_marking attempt given row) more,
      )

-- The totals of a paper are sums over the rows that the attempt was given. The score adds the
-- marks of the objective questions whose answers are correct, an unanswered question counting
-- as answered by nothing; the maximum adds the marks of all; a human is awaited exactly where a
-- short answer is there and not blank. The score is at most the maximum.
pub grade_objective_lem :
    (lower : Text → Text) (attempt : ℕ) (db : Db)
    → ((grade_objective lower attempt db).0.objective_total
        ≡ sum_by (earned lower attempt db.answers) (filter (of_attempt attempt) db.papers))
      × ((grade_objective lower attempt db).0.max_total
          ≡ sum_by row_marks (filter (of_attempt attempt) db.papers))
      × ((grade_objective lower attempt db).0.manual_pending
          ≡ exists (awaits_marking attempt db.answers) (filter (of_attempt attempt) db.papers))
      × ((grade_objective lower attempt db).0.objective_total
          ≤ (grade_objective lower attempt db).0.max_total)
unfolding grade_objective
grade_objective_lem lower attempt db =
    let rows = filter (of_attempt attempt) db.papers in
    let (a, b, c) = rows_totals lower attempt db.answers rows no_marks db.answers in
    let le = earned_le lower attempt db.answers rows in
    (omega (arith, a), omega (arith, b), c, omega (arith, a, b, le))
