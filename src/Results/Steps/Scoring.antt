-- ===== src/Results/Steps/Scoring.antt =====
-- `record_score` of backend/results/services.py makes one step.
use senet.Prelude.{
  ℕ, ◌+◌, Bool, String, List, ◌∷◌, true, ◌&&◌, Option, none, some, [], ◌≡◌, ◌≢◌, refl, ap, ◌∙◌, inl,
  inr, Member, first, first-Member, first-test, arith, Option-cases, Member-exists, exists,
  first_exists, not, ◌++◌, ◌==◌,
}
use senet.Prelude.Text.{Text}
use senet.Prelude.Int.{ℤ, pos, pos_part, within}
use senet.Assessments.Items.{aggregate_ca_for_student}
use senet.Grading.Scales.{grade_for_score}
use senet.Exec.{
  Error, ok, validation, permission_denied, index_error, Exec, gets, check, check_errors, or_raise,
  ◌>>=◌, ◌>>◌,
}
use senet.Accounts.{User}
use senet.Results.{CourseResult, StudentScore, nothing}
use senet.Results.Status.{is_editable, AuditAction}
use senet.Results.Pipeline.{owns_result}
use senet.Accounts.Enrolments.{error_if}
use senet.Accounts.Access.{lecturer_can_access_course}
use senet.Results.Steps.Calls.{locked-Step}
use senet.Results.Rows.{
  stored_is, entry_of, is_current_for, score_snapshot, save_score, insert_score, log,
}
use senet.Results.Scores.{record_score, enter_score, store_score, enrolled_on, ca_max, exam_max}
use senet.Results.Steps.{Step, score_added, score_changed}
use senet.Database.{Db}

-- the row that `record_score` adds
abbrev first_row : CourseResult → ℕ → ℕ → ℕ → Text → Db → StudentScore
first_row result student ca exam grade db = record {
  id = db.next_id;
  institution_id = result.institution.id;
  result_id = result.id;
  student_id = student;
  ca_score = ca;
  exam_score = exam;
  total = ca + exam;
  grade = grade;
  supersedes = none;
  is_current = true;
  created_at = db.now;
}

-- the writes of `record_score`, for the current row that was found
store_score-Step :
    (actor : User) (result : CourseResult) (student ca exam : ℕ) (grade : Text)
    (found : Option StudentScore) (db : Db) (row : StudentScore)
    → first (is_current_for result.id student) db.scores ≡ found
    → stored_is is_editable result.id db ≡ true
    → (store_score actor result student ca exam grade found db).0 ≡ ok row
    → Step db (store_score actor result student ca exam grade found db).1
unfolding store_score insert_score save_score log
store_score-Step actor result student ca exam grade none db row f open_sheet h =
    let new = first_row result student ca exam grade db in
    let free = first_exists (is_current_for result.id student) db.scores f in
    score_added new
      (entry_of result actor AuditAction.score_added (some db.next_id) nothing (score_snapshot new)
        [])
      refl refl free open_sheet (ground arith)
store_score-Step actor result student ca exam grade (some old) db row f open_sheet h =
    let test = first-test (is_current_for result.id student) db.scores f in
    let same : old.result_id ≡ result.id = ground arith in
    let new = record old { ca_score = ca; exam_score = exam; total = ca + exam; grade = grade } in
    score_changed old ca exam grade
      (entry_of result actor AuditAction.score_changed (some old.id) (score_snapshot old)
        (score_snapshot new) [])
      (first-Member (is_current_for result.id student) db.scores f)
      (ap (λ k. stored_is is_editable k db) same ∙ open_sheet) (ground arith)

-- the CA that a call of `enter_score` takes
abbrev ca_of : Option ℤ → CourseResult → ℕ → Db → ℤ
ca_of (some ca) result student db = ca
ca_of none result student db =
    pos (aggregate_ca_for_student db result.course.id result.session.id result.semester.id student)

-- A call of `enter_score` that returns has passed every guard.
enter_score_no_letter :
    (actor : User) (student : ℕ) (exam : ℤ) (ca : Option ℤ) (result : CourseResult) (db : Db)
    (row : StudentScore)
    → grade_for_score result.institution (pos_part (ca_of ca result student db) + pos_part exam)
      ≡ none
    → (enter_score actor student exam ca result db).0 ≢ ok row
unfolding enter_score
enter_score_no_letter actor student exam none result db row n h = ground arith
enter_score_no_letter actor student exam (some ca) result db row n h = ground arith

-- the guards of `enter_score`, one after another, before what they guard
module _ {S A C L : Type 0} (access enrolled : S → Bool) (ca : S → C) (errors : C → List String)
    (letter : C → Option L) (rest : C → L → Exec S A) (e f g i j : Error) where
  abbrev guarded : Bool → Bool → Exec S A
  guarded owns opened = do
    check owns e
    check opened f
    may ← gets access
    check may g
    on ← gets enrolled
    check on i
    score ← gets ca
    check_errors (errors score)
    found ← or_raise (letter score) j
    rest score found

  guarded_ok :
      (owns opened : Bool) (s : S) {l : L} {row : A}
      → letter (ca s) ≡ some l
      → (guarded owns opened s).0 ≡ ok row
      → (opened ≡ true) × (guarded owns opened s ≡ rest (ca s) l s)
  guarded_ok owns opened s n h = ground (arith, n, h)

enter_score_ok :
    (actor : User) (student : ℕ) (exam : ℤ) (ca : Option ℤ) (result : CourseResult) (db : Db)
    (row : StudentScore) (letter : Text × ℕ)
    → grade_for_score result.institution (pos_part (ca_of ca result student db) + pos_part exam)
      ≡ some letter
    → (enter_score actor student exam ca result db).0 ≡ ok row
    → (is_editable result.status ≡ true)
      × (enter_score actor student exam ca result db
          ≡ store_score actor result student
              (pos_part (ca_of ca result student db))
              (pos_part exam)
              letter.0
              (first (is_current_for result.id student) db.scores)
              db)
unfolding enter_score
enter_score_ok actor student exam none result db row letter n h =
    guarded_ok
      (λ s.
        lecturer_can_access_course s.academic actor result.course.id result.session.id
          result.semester.id)
      (λ s. exists (enrolled_on result student) s.academic.enrolments) (ca_of none result student)
      (λ c.
        error_if (not (within c (ca_max result))) "ca_score"
        ++ error_if (not (within exam (exam_max result))) "exam_score")
      (λ c. grade_for_score result.institution (pos_part c + pos_part exam))
      (λ c found.
        (gets (λ s. first (is_current_for result.id student) s.scores)
          >>= store_score actor result student (pos_part c) (pos_part exam) found.0))
      (permission_denied "Only the lecturer who owns this result sheet can enter scores.")
      (permission_denied "This result has been submitted and is locked for editing.")
      (permission_denied "You are not assigned to this course for this term.")
      (validation ("student" ∷ [])) index_error (owns_result actor result)
      (is_editable result.status) db n h
enter_score_ok actor student exam (some ca) result db row letter n h =
    guarded_ok
      (λ s.
        lecturer_can_access_course s.academic actor result.course.id result.session.id
          result.semester.id)
      (λ s. exists (enrolled_on result student) s.academic.enrolments)
      (ca_of (some ca) result student)
      (λ c.
        error_if (not (within c (ca_max result))) "ca_score"
        ++ error_if (not (within exam (exam_max result))) "exam_score")
      (λ c. grade_for_score result.institution (pos_part c + pos_part exam))
      (λ c found.
        (gets (λ s. first (is_current_for result.id student) s.scores)
          >>= store_score actor result student (pos_part c) (pos_part exam) found.0))
      (permission_denied "Only the lecturer who owns this result sheet can enter scores.")
      (permission_denied "This result has been submitted and is locked for editing.")
      (permission_denied "You are not assigned to this course for this term.")
      (validation ("student" ∷ [])) index_error (owns_result actor result)
      (is_editable result.status) db n h

enter_score-Step :
    (actor : User) (student : ℕ) (exam : ℤ) (ca : Option ℤ) (result : CourseResult) (db : Db)
    (row : StudentScore)
    → Member result db.results
    → (enter_score actor student exam ca result db).0 ≡ ok row
    → Step db (enter_score actor student exam ca result db).1
enter_score-Step actor student exam ca result db row m h =
    elim (Option-cases (
      grade_for_score result.institution (pos_part (ca_of ca result student db) + pos_part exam))) [
        | inl n ↦ absurd (enter_score_no_letter actor student exam ca result db row n h)
        | inr (letter, n) ↦
            let (open_sheet, e) = enter_score_ok actor student exam ca result db row letter n h in
            let stored : stored_is is_editable result.id db ≡ true =
              Member-exists (λ r. r.id == result.id && is_editable r.status) db.results m
                (ground arith) in
            rw e (
              store_score-Step actor result student (pos_part (ca_of ca result student db))
                (pos_part exam) letter.0 _ db row refl stored (rw e at h))
      ]

pub record_score-Step :
    (actor : User) (id student : ℕ) (exam : ℤ) (ca : Option ℤ) (db : Db)
    → Step db (record_score actor id student exam ca db).1
unfolding record_score
record_score-Step actor id student exam ca db =
    locked-Step id actor (enter_score actor student exam ca) db
      (λ result row m h. enter_score-Step actor student exam ca result db row m h)
