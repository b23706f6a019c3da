-- ===== src/Results/Steps/Correcting.antt =====
-- `raise_amendment` and `create_external_examiner_report` of backend/results/services.py make one
-- step each.
use senet.Prelude.{
  is_some, ℕ, ◌+◌, not, none, some, [], ◌∷◌, ◌≡◌, ◌≢◌, refl, sym, inl, inr, first, arith,
  Option-cases, Bool-cases, ◌==◌,
}
use mathlib.Core.Path.{subst}
use senet.Prelude.Text.{Text, strip, is_empty}
use senet.Prelude.Int.{ℤ, pos_part}
use senet.Grading.Scales.{grade_for_score}
use senet.Exec.{check, permission_denied, validation, ok, ◌>>◌}
use senet.Accounts.{User, Session, Semester, Programme}
use senet.Results.{ExternalExaminerReport, CourseResult, StudentScore, ResultAmendment}
use senet.Results.Steps.Calls.{check-Step, locked-Step}
use senet.Results.Rows.{is_current_for, log}
use senet.Results.Amendments.{raise_amendment, propose, raise_on, insert_amendment}
use senet.Results.Examiners.{captured, own_faculty, insert_report, create_external_examiner_report}
use senet.Results.Steps.{Step, unchanged, amendment_raised, report_added}
use senet.Database.{Db}

propose-Step :
    (actor : User) (student ca exam : ℕ) (reason : Text) (result : CourseResult)
    (score : StudentScore) (grade : Text) (db : Db)
    → Step db (propose actor student ca exam reason result score grade db).1
unfolding propose insert_amendment log
propose-Step actor student ca exam reason result score grade db =
    amendment_raised _ _ refl refl refl refl

raise_on_no_score :
    (actor : User) (student : ℕ) (ca exam : ℤ) (reason : Text) (result : CourseResult) (db : Db)
    (row : ResultAmendment)
    → first (is_current_for result.id student) db.scores ≡ none
    → (raise_on actor student ca exam reason result db).0 ≢ ok row
unfolding raise_on
raise_on_no_score actor student ca exam reason result db row f h = ground arith

raise_on_no_letter :
    (actor : User) (student : ℕ) (ca exam : ℤ) (reason : Text) (result : CourseResult) (db : Db)
    (row : ResultAmendment)
    → grade_for_score result.institution (pos_part ca + pos_part exam) ≡ none
    → (raise_on actor student ca exam reason result db).0 ≢ ok row
unfolding raise_on
raise_on_no_letter actor student ca exam reason result db row f h = ground arith

raise_on_ok :
    (actor : User) (student : ℕ) (ca exam : ℤ) (reason : Text) (result : CourseResult) (db : Db)
    (row : ResultAmendment) (score : StudentScore) (letter : Text × ℕ)
    → first (is_current_for result.id student) db.scores ≡ some score
    → grade_for_score result.institution (pos_part ca + pos_part exam) ≡ some letter
    → (raise_on actor student ca exam reason result db).0 ≡ ok row
    → raise_on actor student ca exam reason result db
      ≡ propose actor student (pos_part ca) (pos_part exam) reason result score letter.0 db
unfolding raise_on
raise_on_ok actor student ca exam reason result db row score letter f n h = ground arith

raise_on-Step :
    (actor : User) (student : ℕ) (ca exam : ℤ) (reason : Text) (result : CourseResult) (db : Db)
    (row : ResultAmendment)
    → (raise_on actor student ca exam reason result db).0 ≡ ok row
    → Step db (raise_on actor student ca exam reason result db).1
raise_on-Step actor student ca exam reason result db row h =
    elim (Option-cases (first (is_current_for result.id student) db.scores)) [
      | inl n ↦ absurd (raise_on_no_score actor student ca exam reason result db row n h)
      | inr (score, f) ↦
          elim (Option-cases (grade_for_score result.institution (pos_part ca + pos_part exam))) [
            | inl n ↦ absurd (raise_on_no_letter actor student ca exam reason result db row n h)
            | inr (letter, n) ↦
                subst (λ s. Step db s.1)
                  (sym (raise_on_ok actor student ca exam reason result db row score letter f n h))
                  (propose-Step actor student (pos_part ca) (pos_part exam) reason result score
                    letter.0 db)
          ]
    ]

pub raise_amendment-Step :
    (actor : User) (id student : ℕ) (ca exam : ℤ) (reason : Text) (db : Db)
    → Step db (raise_amendment actor id student ca exam reason db).1
unfolding raise_amendment
raise_amendment-Step actor id student ca exam reason db =
    check-Step (not (is_empty (strip reason))) (validation ("justification" ∷ [])) _ db (
      locked-Step id actor (raise_on actor student ca exam (strip reason)) db
        (λ result row m h. raise_on-Step actor student ca exam (strip reason) result db row h))

insert_report-Step : (row : ExternalExaminerReport) (db : Db) → Step db (insert_report row db).1
unfolding insert_report
insert_report-Step row db = elim (Bool-cases (is_some row.institution_id)) [
  | inl t ↦ report_added (record row { id = db.next_id }) (ground arith)
  | inr f ↦ unchanged (ground arith)
]

pub create_external_examiner_report-Step :
    (actor : User) (programme : Programme) (session : Session) (semester : Semester)
    (name from : Text) (audit_date : ℕ) (remarks : Text) (db : Db)
    → Step db
        (create_external_examiner_report actor programme session semester name from audit_date
          remarks db).1
unfolding create_external_examiner_report
create_external_examiner_report-Step actor programme session semester name from audit_date remarks
      db =
    let row = captured actor programme session semester name from audit_date remarks in
    let refusal =
      permission_denied
        "You can only capture examiner reports for programmes in your own faculty." in
    check-Step (semester.session_id == session.id) (validation ("semester" ∷ []))
      (check (own_faculty actor programme) refusal >> insert_report row) db
      (check-Step (own_faculty actor programme) refusal (insert_report row) db
        (insert_report-Step row db))
