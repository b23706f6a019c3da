-- ===== src/Results/Steps/Calls.antt =====
-- Every service call on results makes one step, or as many as it ratifies sheets.
use senet.Prelude.{
  ℕ, ◌+◌, Bool, true, false, none, some, [], ◌∷◌, ◌++◌, ◌≡◌, refl, sym, ap, ◌∙◌, inl, inr, Member,
  exists, first, first-Member, arith, Option-cases,
}
use mathlib.Core.Path.{subst}
use senet.Prelude.Text.{Text, strip}
use senet.Exec.{
  check, Exec, Error, Result-cases, ok, err, not_found, ◌>>=◌, ◌>>◌, atomic, atomic_ok, atomic-ok,
  settle_err, continue, or_raise,
}
use senet.Accounts.{User, Course, Session, Semester}
use senet.Tenancy.{Institution}
use senet.Results.{CourseResult, nothing, of_status}
use senet.Results.Status.{ResultStatus, draft, AuditAction}
use senet.Results.Rows.{for_actor, locked_result, entry_of}
use senet.Results.Pipeline.{transition_result}
use senet.Results.Pipeline.Moves.{transition_ok, transition_error, move_entry}
use senet.Results.Scores.{sheet_of, create_draft_result}
use senet.Results.Steps.{Step, unchanged, sheet_created, sheet_moved}
use senet.Database.{Db}

-- A call under `atomic` makes a step where its body does when it returns.
pub atomic-Step :
    {A : Type 0} (m : Exec Db A) (db : Db)
    → ((a : A) → (m db).0 ≡ ok a → Step db (m db).1)
    → Step db (atomic m db).1
atomic-Step m db f = elim (Result-cases (m db).0) [
  | inl (a, h) ↦ subst (λ s. Step db s.1) (sym (atomic_ok m db (atomic-ok m db h))) (f a h)
  | inr (e, h) ↦ unchanged (settle_err db (m db) h)
]

pub check-Step :
    {A : Type 0} (t : Bool) (e : Error) (m : Exec Db A) (db : Db)
    → Step db (m db).1
    → Step db ((check t e >> m) db).1
check-Step true e m db s = s
check-Step false e m db s = unchanged refl

-- a call on a locked sheet, made under `atomic`
pub locked-Step :
    {A : Type 0} (id : ℕ) (actor : User) (f : CourseResult → Exec Db A) (db : Db)
    → ((result : CourseResult) (a : A)
        → Member result db.results
        → (f result db).0 ≡ ok a
        → Step db (f result db).1)
    → Step db (atomic (locked_result id actor >>= f) db).1
unfolding locked_result
locked-Step id actor f db step = atomic-Step (locked_result id actor >>= f) db (λ a h.
    elim (Option-cases (first (for_actor actor id) db.results)) [
      | inl n ↦ unchanged (ground arith)
      | inr (result, found) ↦
          let call = ap (λ o. continue (or_raise o (not_found "Result not found.") db) f) found in
          subst (λ s. Step db s.1) (sym call)
            (step result a (first-Member (for_actor actor id) db.results found)
              (ap (λ s. s.0) (sym call) ∙ h))
    ])

pub transition-Step :
    (actor : User) (id : ℕ) (to_status : ResultStatus) (reason : Text) (db : Db)
    → Step db (transition_result actor id to_status reason db).1
transition-Step actor id to_status reason db =
    elim (Result-cases (transition_result actor id to_status reason db).0) [
      | inr (e, h) ↦ unchanged (transition_error actor id to_status reason db h)
      | inl (row, h) ↦
          let (sheet, rule, found, move) = transition_ok actor id to_status reason db h in
          sheet_moved sheet to_status (strip reason)
            (move_entry sheet actor to_status (strip reason)) _
            (first-Member (for_actor actor id) db.results found) (λ z. ground (arith, move.listed))
            move.not_ratified refl refl (rw move.row_lem at move.after_lem)
    ]

-- the sheet that `create_draft_result` adds
abbrev drafted : User → Course → Session → Semester → Institution → ℕ → CourseResult
drafted lecturer course session semester institution id = record {
  id = id;
  institution = institution;
  course = course;
  session = session;
  semester = semester;
  lecturer_id = lecturer.id;
  status = draft;
  returned_reason = [];
}

create_draft_none :
    (lecturer : User) (course : Course) (session : Session) (semester : Semester) (db : Db)
    → lecturer.institution ≡ none
    → (create_draft_result lecturer course session semester db).1 ≡ db
unfolding create_draft_result
create_draft_none lecturer course session semester db n = ground arith

create_draft_error :
    (lecturer : User) (course : Course) (session : Session) (semester : Semester) (db : Db)
    (e : Error)
    → (create_draft_result lecturer course session semester db).0 ≡ err e
    → (create_draft_result lecturer course session semester db).1 ≡ db
unfolding create_draft_result
create_draft_error lecturer course session semester db e h = ground arith

create_draft_ok :
    (lecturer : User) (course : Course) (session : Session) (semester : Semester) (i : Institution)
    (db : Db) {row : CourseResult}
    → lecturer.institution ≡ some i
    → (create_draft_result lecturer course session semester db).0 ≡ ok row
    → let sheet = drafted lecturer course session semester i db.next_id in
      (exists (sheet_of course.id session.id semester.id) db.results ≡ false)
      × ((create_draft_result lecturer course session semester db).1 ≡ record db {
        results = db.results ++ sheet ∷ [];
        audit =
            db.audit
            ++ entry_of sheet lecturer AuditAction.result_created none nothing (of_status draft) []
              ∷ [];
        next_id = db.next_id + 1;
      })
unfolding create_draft_result
create_draft_ok lecturer course session semester i db n h = ground arith

pub create_draft-Step :
    (lecturer : User) (course : Course) (session : Session) (semester : Semester) (db : Db)
    → Step db (create_draft_result lecturer course session semester db).1
create_draft-Step lecturer course session semester db = elim (Option-cases lecturer.institution) [
  | inl n ↦ unchanged (create_draft_none lecturer course session semester db n)
  | inr (i, n) ↦ elim (Result-cases (create_draft_result lecturer course session semester db).0) [
    | inr (e, h) ↦ unchanged (create_draft_error lecturer course session semester db e h)
    | inl (row, h) ↦
        let (free, after) = create_draft_ok lecturer course session semester i db n h in
        sheet_created (drafted lecturer course session semester i db.next_id) _ refl refl free after
  ]
]
