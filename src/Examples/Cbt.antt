-- ===== src/Examples/Cbt.antt =====
-- The theorems on computer-based tests at one exam of two questions, and one attempt at it.
use senet.Prelude.{
  ℕ, zero, suc, ◌≤◌, true, false, none, some, List, [], ◌∷◌, ◌++◌, ◌≡◌, ◌≢◌, ◌↔◌, ◌⊎◌, ◌==◌, refl,
  ap, arith, Member, here, exists, length, leb,
}
use mathlib.Core.Path.{subst}
use mathlib.Core.List.{Perm}
use mathlib.Core.List.Perm
use senet.Prelude.Text.{text}
use senet.Prelude.Int.{pos}
use senet.Prelude.Sets.{has}
use senet.Exec.{ok, err, validation}
use senet.Assessments.{AssessmentItem, AssessmentGrade, Kind}
use senet.Results.Status.{draft}
use senet.Cbt.{
  mcq, multi, short_answer, Value, scalar, list, integer, string, key_index, key_indices, no_key,
  Response, index, indices, QuestionBank, Question, Exam, main, ExamAttempt, AttemptQuestion,
  Answer, in_progress, graded, Runtime,
}
use senet.Cbt.Marking.{is_correct}
use senet.Cbt.Answers.{to_stored_response}
use senet.Cbt.Answers.Displayed.{shown-marked}
use senet.Cbt.Answers.Kept.{kept}
use senet.Cbt.Access.{can_manage_exam}
use senet.Cbt.Assembly.{assemble_attempt_questions, bank_question_pool}
use senet.Cbt.Assembly.Paper.{IsFair, IsPaper, assemble-IsPaper}
use senet.Cbt.Authoring.{ExamRequest, exam_errors, exam_row, create_exam}
use senet.Cbt.Authoring.Checks.{validate_question_payload}
use senet.Cbt.Authoring.Answerable.{IsAnswerable, validated-IsAnswerable}
use senet.Cbt.Authoring.Scheduled.{create_exam_short}
use senet.Cbt.Finalizing.{grade_objective, finalize, finalize_expired_attempts, take}
use senet.Cbt.Finalizing.Totals.{grade_objective_lem}
use senet.Cbt.Finalizing.Synced.{HasGrades, finalize-HasGrades}
use senet.Cbt.Finalizing.Swept.{is_overdue, finalize_expired_attempts-closes}
use senet.Cbt.Finalizing.Frozen.{Holds}
use senet.Cbt.Attempts.{save_answer, save_answers_batch, submit_attempt, upsert_all}
use senet.Cbt.Attempts.Closed.{saves, submits, sweeps, waits, run_all, settled_frozen}
use senet.Cbt.Attempts.Refused.{settled_refuses}
use senet.Cbt.Attempts.LastWrite.{AllStores, put_all, upsert_all-puts}
use senet.Database.{Db}
use senet.Examples.{course, session, semester, lecturer, student, tables}

abbrev swap_first : List ℕ → List ℕ
swap_first (x ∷ y ∷ ks) = y ∷ x ∷ ks
swap_first ks = ks

-- draws the first questions, and swaps the first two options
abbrev runtime : Runtime
runtime = record { lower = λ s. s; sample = λ pool n. take n pool; shuffle = λ k ks. swap_first ks }

drop : ℕ → List Question → List Question
drop zero qs = qs
drop (suc n) [] = []
drop (suc n) (q ∷ qs) = drop n qs

length-take : (pool : List Question) (n : ℕ) → n ≤ length pool → length (take n pool) ≡ n
length-take pool zero h = refl
length-take [] (suc n) h = absurd (omega arith)
length-take (q ∷ qs) (suc n) h = let ih = length-take qs n (omega arith) in omega arith

take-drop : (pool : List Question) (n : ℕ) → take n pool ++ drop n pool ≡ pool
unfolding drop
take-drop pool zero = refl
take-drop [] (suc n) = refl
take-drop (q ∷ qs) (suc n) = ap (λ t. q ∷ t) (take-drop qs n)

swapped : (ks : List ℕ) → Perm (swap_first ks) ks
swapped [] = Perm.refl []
swapped (x ∷ []) = Perm.refl (x ∷ [])
swapped (x ∷ y ∷ ks) = Perm.swap x y ks

runtime-IsFair : IsFair runtime
runtime-IsFair = record {
  sample-length = length-take;
  sample-perm = λ pool n h. (
    drop n pool,
    subst (λ qs. Perm (take n pool ++ drop n pool) qs) (take-drop pool n)
        (Perm.refl (take n pool ++ drop n pool)),
  );
  shuffle-perm = λ k ks. swapped ks;
}

abbrev bank : QuestionBank
bank = record {
  id = 30;
  institution_id = 1;
  course = course;
  title = text "Week 1";
  description = [];
  created_by = 1;
}

abbrev choice_question : Question
choice_question = record {
  id = 31;
  institution_id = 1;
  bank_id = 30;
  question_type = multi;
  prompt = text "Which are even?";
  options = text "1" ∷ text "2" ∷ text "4" ∷ [];
  correct_answer = key_indices (1 ∷ 2 ∷ []);
  marks = 200;
  requires_manual_grading = false;
  difficulty = [];
  topic = [];
  created_by = 1;
  created_at = 1;
}

abbrev essay_question : Question
essay_question = record {
  id = 32;
  institution_id = 1;
  bank_id = 30;
  question_type = short_answer;
  prompt = text "Why?";
  options = [];
  correct_answer = no_key;
  marks = 300;
  requires_manual_grading = true;
  difficulty = [];
  topic = [];
  created_by = 1;
  created_at = 1;
}

abbrev exam : Exam
exam = record {
  id = 33;
  institution_id = 1;
  course = course;
  session_id = 200;
  semester_id = 300;
  created_by = 1;
  banks = 30 ∷ [];
  assessment_item = none;
  title = text "Test";
  exam_type = main;
  duration_minutes = 30;
  opens_at = 0;
  closes_at = 1000;
  num_questions = 2;
  shuffle_questions = true;
  shuffle_options = true;
  pass_mark = 4000;
}

abbrev pub attempt : ExamAttempt
attempt = record {
  id = 34;
  institution_id = 1;
  exam_id = 33;
  student_id = 5;
  started_at = 1;
  deadline = 1;
  submitted_at = none;
  status = in_progress;
  score = none;
  max_score = none;
  requires_manual_grading = false;
}

abbrev settled_attempt : ExamAttempt
settled_attempt = record attempt {
  status = graded;
  score = some 200;
  max_score = some 200;
  submitted_at = some 1;
}

abbrev given : Answer
given = record {
  id = 35;
  institution_id = 1;
  attempt_id = 34;
  question_id = 31;
  response = indices (1 ∷ 2 ∷ []);
  is_correct = none;
  awarded_marks = none;
  graded_manually = false;
}

abbrev row_of : Question → ℕ → List ℕ → AttemptQuestion
row_of q position order = record {
  institution_id = 1;
  attempt_id = 34;
  question = q;
  position = position;
  option_order = order;
}

-- the attempt with its paper and one answer
abbrev pub db : ExamAttempt → Db
db a = record (tables draft) {
  banks = bank ∷ [];
  questions = choice_question ∷ essay_question ∷ [];
  exams = exam ∷ [];
  attempts = a ∷ [];
  papers = row_of choice_question 0 (1 ∷ 0 ∷ 2 ∷ []) ∷ row_of essay_question 1 [] ∷ [];
  answers = given ∷ [];
  now = 2;
  next_id = 36;
}

grade_objective_lem_example :
    ((grade_objective runtime.lower 34 (db attempt)).0.objective_total ≡ 200)
    × ((grade_objective runtime.lower 34 (db attempt)).0.max_total ≡ 500)
    × ((grade_objective runtime.lower 34 (db attempt)).0.manual_pending ≡ false)
    × ((grade_objective runtime.lower 34 (db attempt)).0.objective_total
        ≤ (grade_objective runtime.lower 34 (db attempt)).0.max_total)
unfolding is_correct
grade_objective_lem_example = grade_objective_lem runtime.lower 34 (db attempt)

-- the first two options, shown in the order 1, 0, 2
shown-marked_example :
    (to_stored_response mcq (1 ∷ 0 ∷ 2 ∷ []) (scalar (integer (pos 1))) ≡ ok (index 0))
    × ((is_correct runtime.lower mcq (key_index 0) (index 0) ≡ true) ↔ (◌≡◌ {A = ℕ} 0 0))
    × (to_stored_response multi (1 ∷ 0 ∷ 2 ∷ []) (list [] (integer (pos 2) ∷ integer (pos 0) ∷ []))
        ≡ ok (indices (1 ∷ 2 ∷ [])))
    × ((is_correct runtime.lower multi (key_indices (1 ∷ 2 ∷ [])) (indices (1 ∷ 2 ∷ [])) ≡ true)
        ↔ ((i : ℕ) → has i (2 ∷ 1 ∷ []) ≡ has i (1 ∷ 2 ∷ [])))
shown-marked_example =
    shown-marked runtime.lower (1 ∷ 0 ∷ 2 ∷ []) 0 0 (2 ∷ 1 ∷ []) (1 ∷ 2 ∷ []) [] refl
      (refl, (refl, tt))

attempts_keyed : (a : ExamAttempt) → a.id ≡ 34 → Holds a (db a)
attempts_keyed a e = record { keyed = λ k. ground arith; below = (omega arith, tt); kept = here }

assemble-IsPaper_example :
    ((leb 2 (length (bank_question_pool exam (db attempt))) ≡ false)
      × (assemble_attempt_questions runtime (record attempt { id = 36 }) exam (db attempt)
          ≡ (err (validation ("num_questions" ∷ [])), db attempt)))
    ⊎ (rows : List AttemptQuestion) × IsPaper
        (record attempt { id = 36 })
        2
        (bank_question_pool exam (db attempt))
        rows
      × (assemble_attempt_questions runtime (record attempt { id = 36 }) exam (db attempt)
          ≡ (ok tt, record (db attempt) { papers = (db attempt).papers ++ rows }))
assemble-IsPaper_example =
    assemble-IsPaper runtime (record attempt { id = 36 }) exam (db attempt) runtime-IsFair refl

-- the exam counts for an item of 20 marks, on which the student has a grade of 3 from before
abbrev linked : AssessmentItem
linked = record {
  id = 37;
  institution_id = 1;
  course = course;
  session_id = 200;
  semester_id = 300;
  created_by = 1;
  title = text "Test 1";
  kind = Kind.test;
  max_score = 2000;
  weight = 1500;
  due_date = 10;
}

abbrev old_grade : AssessmentGrade
old_grade = record {
  id = 38;
  institution_id = 1;
  item = linked;
  student_id = 5;
  submission = none;
  score = 300;
  feedback = [];
  graded_by = 1;
  is_released = false;
}

-- the paper has only the question that is marked at once
abbrev linked_db : Db
linked_db = record (db attempt) {
  exams = record exam { assessment_item = some 37 } ∷ [];
  papers = row_of choice_question 0 (1 ∷ 0 ∷ 2 ∷ []) ∷ [];
  items = linked ∷ [];
  grades = old_grade ∷ [];
  next_id = 39;
}

linked-HasGrades : HasGrades linked_db
linked-HasGrades = record {
  keyed = λ k. ground arith;
  small = (omega arith, tt);
  listed = (here, tt);
  within = (omega arith, tt);
}

finalize-HasGrades_example : HasGrades (finalize runtime true attempt linked_db)
finalize-HasGrades_example = finalize-HasGrades runtime true attempt linked_db linked-HasGrades

-- the grade of 3 becomes the full 20 marks
linked_grade :
    (finalize runtime true attempt linked_db).grades
    ≡ record old_grade { score = 2000; is_released = true } ∷ []
unfolding finalize
linked_grade = refl

settled_frozen_example :
    Member settled_attempt
      (run_all runtime
        (submits student attempt ∷ waits 5 ∷ saves student attempt 31 (list [] []) ∷ sweeps 10 ∷ [])
        (db settled_attempt)).attempts
settled_frozen_example =
    settled_frozen runtime settled_attempt
      (submits student attempt ∷ waits 5 ∷ saves student attempt 31 (list [] []) ∷ sweeps 10 ∷ [])
      (db settled_attempt) refl (attempts_keyed settled_attempt refl)

settled_refuses_example :
    ((save_answer runtime student attempt 31 (list [] []) (db settled_attempt)).1
      ≡ db settled_attempt)
    × ((a : Answer)
        → (save_answer runtime student attempt 31 (list [] []) (db settled_attempt)).0 ≢ ok a)
    × ((save_answers_batch runtime student attempt [] (db settled_attempt)).1 ≡ db settled_attempt)
    × ((rows : List Answer)
        → (save_answers_batch runtime student attempt [] (db settled_attempt)).0 ≢ ok rows)
    × (submit_attempt runtime student attempt (db settled_attempt)
        ≡ (ok settled_attempt, db settled_attempt))
settled_refuses_example =
    settled_refuses runtime settled_attempt attempt (db settled_attempt) student 31 (list [] []) []
      (attempts_keyed settled_attempt refl).keyed here refl refl refl

finalize_expired_attempts-closes_example :
    exists (is_overdue 2) (finalize_expired_attempts runtime 500 (db attempt)).1.attempts ≡ false
finalize_expired_attempts-closes_example =
    finalize_expired_attempts-closes runtime 500 (db attempt) (attempts_keyed attempt refl).keyed
      (omega arith)

-- the second response replaces the first
abbrev twice : List (ℕ × Value)
twice = (31, list [] (integer (pos 0) ∷ [])) ∷ (31, list [] (integer (pos 1) ∷ [])) ∷ []

abbrev saved : Response → Answer
saved r = record given { response = r }

upsert_all-puts_example :
    AllStores 34
      (db attempt).papers
      twice
      (saved (indices (1 ∷ [])) ∷ saved (indices (0 ∷ [])) ∷ [])
    × ((q : ℕ)
        → kept (upsert_all attempt twice (db attempt)).1 34 q
          ≡ put_all
              (kept (db attempt) 34)
              (saved (indices (1 ∷ [])) ∷ saved (indices (0 ∷ [])) ∷ [])
              q)
    × ((b q : ℕ)
        → (b == 34) ≡ false
        → kept (upsert_all attempt twice (db attempt)).1 b q ≡ kept (db attempt) b q)
unfolding upsert_all
upsert_all-puts_example =
    upsert_all-puts attempt twice (db attempt)
      (saved (indices (1 ∷ [])) ∷ saved (indices (0 ∷ [])) ∷ [])
      ((λ k. ground arith), (omega arith, tt)) refl

validated-IsAnswerable_example :
    (false ≡ false) × IsAnswerable runtime.lower mcq (1 ∷ 0 ∷ []) (key_index 1)
unfolding validate_question_payload
validated-IsAnswerable_example =
    validated-IsAnswerable runtime.lower mcq (list [] (string (text "a") ∷ string (text "b") ∷ []))
      (scalar (integer (pos 1))) (1 ∷ 0 ∷ [])
      (record {
        options = text "a" ∷ text "b" ∷ [];
        correct_answer = key_index 1;
        requires_manual = false;
      })
      refl refl (λ k h. ground arith)

abbrev request : ExamRequest
request = record {
  title = text "Test";
  exam_type = main;
  duration_minutes = pos 30;
  opens_at = 0;
  closes_at = 1000;
  num_questions = pos 3;
  shuffle_questions = true;
  shuffle_options = true;
  pass_mark = pos 4000;
}

-- three questions out of a bank of two
create_exam_short_example :
    create_exam lecturer course session semester (bank ∷ []) request (db attempt) ≡ (
      err (validation ("num_questions" ∷ [])),
      record (db attempt) {
        exams =
            (db attempt).exams
            ++ exam_row lecturer course session semester (bank ∷ []) request 36 1 ∷ [];
        next_id = 37;
      },
    )
unfolding can_manage_exam exam_errors bank_question_pool
create_exam_short_example =
    create_exam_short lecturer course session semester (bank ∷ []) request 1 (db attempt) refl refl
      refl refl (omega arith)
