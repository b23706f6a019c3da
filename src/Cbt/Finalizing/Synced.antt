-- ===== src/Cbt/Finalizing/Synced.antt =====
-- The grades that settling an attempt writes stay within the maximum of their item.
use senet.Prelude.{
  ℕ, ◌^◌, ◌≤◌, ◌<◌, Bool, Option, none, some, ◌==◌, ◌≡◌, refl, sym, arith, All, All-append,
  All-save, All-member, Member, first, first-Member, first-test, save, if_ind, ==→eq,
}
use mathlib.Core.Path.{subst}
use senet.Prelude.Keys.{IsKeyed, keyed_unique}
use senet.Assessments.{AssessmentItem, AssessmentGrade}
use senet.Assessments.Items.{is_grade}
use senet.Cbt.{graded, eq_attempt_status, Exam, ExamAttempt, Runtime}
use senet.Cbt.Ca.{
  sync_ca_grade_for_attempt, sync_exam, sync_grade, exam_of, linked_item, scaled_score,
  upsert_grade,
}
use senet.Cbt.Ca.Scaled.{scaled_score-le}
use senet.Cbt.Finalizing.{attempt_key, grade_objective, finalize, settled}
use senet.Cbt.Finalizing.Totals.{grade_objective_lem}
use senet.Database.{Db}

abbrev pub item_key : AssessmentItem → ℕ
item_key i = i.id

abbrev pub IsWithin : AssessmentGrade → Type 0
IsWithin g = g.score ≤ g.item.max_score

-- grades within their item's maximum, which are of items of the table; maxima that the context's
-- precision can hold
pub record HasGrades (db : Db) : Type 0 where
  pub keyed : IsKeyed item_key db.items
  pub small : All (λ (i : AssessmentItem). i.max_score < 10 ^ 28) db.items
  pub listed : All (λ (g : AssessmentGrade). Member g.item db.items) db.grades
  pub within : All IsWithin db.grades

-- the scores of an attempt, where both are there
abbrev FitsMaximum : Option ℕ → Option ℕ → Type 0
FitsMaximum (some score) (some most) = score ≤ most
FitsMaximum _ _ = Unit

upsert-HasGrades :
    (a : ExamAttempt) (exam : Exam) (item : AssessmentItem) (scaled : ℕ)
    (o : Option AssessmentGrade) (db : Db)
    → first (is_grade item.id a.student_id) db.grades ≡ o
    → Member item db.items
    → scaled ≤ item.max_score
    → HasGrades db
    → HasGrades (upsert_grade a exam item scaled o db)
unfolding upsert_grade
upsert-HasGrades a exam item scaled none db e m le h = record {
  keyed = h.keyed;
  small = h.small;
  listed =
      All-append (λ (g : AssessmentGrade). Member g.item db.items) db.grades _ h.listed (m, tt);
  within = All-append IsWithin db.grades _ h.within (le, tt);
}
upsert-HasGrades a exam item scaled (some old) db e m le h =
    let t = first-test (is_grade item.id a.student_id) db.grades e in
    let mo = first-Member (is_grade item.id a.student_id) db.grades e in
    let lo : Member old.item db.items =
      All-member (λ (g : AssessmentGrade). Member g.item db.items) mo h.listed in
    let same : old.item ≡ item =
      keyed_unique item_key db.items h.keyed lo m (==→eq old.item.id item.id (ground (arith, t))) in
    let fits : scaled ≤ old.item.max_score =
      subst (λ (i : AssessmentItem). scaled ≤ i.max_score) (sym same) le in
    record {
      keyed = h.keyed;
      small = h.small;
      listed =
          All-save (λ (g : AssessmentGrade). Member g.item db.items) (λ g. g.id) _ db.grades lo
            h.listed;
      within = All-save IsWithin (λ g. g.id) _ db.grades fits h.within;
    }

sync_grade-HasGrades :
    (a : ExamAttempt) (exam : Exam) (o : Option AssessmentItem) (score most : Option ℕ) (db : Db)
    → ((i : AssessmentItem) → o ≡ some i → Member i db.items)
    → FitsMaximum score most
    → HasGrades db
    → HasGrades (sync_grade a exam o score most db)
sync_grade-HasGrades a exam none score most db f le h = h
sync_grade-HasGrades a exam (some i) none most db f le h = h
sync_grade-HasGrades a exam (some i) (some score) none db f le h = h
sync_grade-HasGrades a exam (some i) (some score) (some most) db f le h =
    let m = f i refl in
    if_ind HasGrades (most == 0) (λ _. h)
      λ t.
        upsert-HasGrades a exam i (scaled_score score most i.max_score) _ db refl m
          (scaled_score-le score most i.max_score (ground (arith, t)) le
            (All-member (λ (i : AssessmentItem). i.max_score < 10 ^ 28) m h.small))
          h

linked-Member :
    (o : Option ℕ) (db : Db) (i : AssessmentItem) → linked_item o db ≡ some i → Member i db.items
linked-Member none db i e = cc
linked-Member (some id) db i e = first-Member (λ j. j.id == id) db.items e

sync_exam-HasGrades :
    (a : ExamAttempt) (o : Option Exam) (db : Db)
    → FitsMaximum a.score a.max_score
    → HasGrades db
    → HasGrades (sync_exam a o db)
sync_exam-HasGrades a none db le h = h
sync_exam-HasGrades a (some exam) db le h =
    sync_grade-HasGrades a exam (linked_item exam.assessment_item db) a.score a.max_score db
      (linked-Member exam.assessment_item db) le h

sync-HasGrades :
    (a : ExamAttempt) (db : Db)
    → FitsMaximum a.score a.max_score
    → HasGrades db
    → HasGrades (sync_ca_grade_for_attempt a db)
unfolding sync_ca_grade_for_attempt
sync-HasGrades a db le h =
    if_ind HasGrades (eq_attempt_status a.status graded)
      (λ _. sync_exam-HasGrades a (exam_of a db) db le h) (λ _. h)

-- Settling an attempt, early or late, keeps every grade within the maximum of its item: where
-- items have unique keys and maxima below 10 ^ 28 hundredths, every grade is of an item of the
-- table and its score is at most the item's maximum, all of this holds afterwards.
pub finalize-HasGrades :
    (rt : Runtime) (auto : Bool) (attempt : ExamAttempt) (db : Db)
    → HasGrades db
    → HasGrades (finalize rt auto attempt db)
unfolding finalize
finalize-HasGrades rt auto attempt db h =
    let lem = grade_objective_lem rt.lower attempt.id db in
    let row = settled (grade_objective rt.lower attempt.id db).0 auto db.now attempt in
    let marked = record db {
      answers = (grade_objective rt.lower attempt.id db).1;
      attempts = save attempt_key row db.attempts;
    } in
    sync-HasGrades row marked lem.3
      (record { keyed = h.keyed; small = h.small; listed = h.listed; within = h.within })
