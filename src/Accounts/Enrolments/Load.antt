-- ===== src/Accounts/Enrolments/Load.antt =====
-- Enrolment keeps the rows unique and the semester load within the institution's maximum.
use senet.Prelude.{
  ℕ, ◌+◌, ◌≤◌, Bool, true, false, Option, none, some, List, [], ◌∷◌, ◌++◌, ◌≡◌, ◌⊎◌, inl, inr,
  count, exists, filter, sum_by, arith, Option-cases, Bool-cases, if◌then◌else◌, exists-count,
  count-append, sum_by-append, filter-append, All, All-append, ◌&&◌, ◌==◌, ==_refl, ◌≢◌, ap, refl,
}
use senet.Exec.{Error, Result-cases, ok, err, integrity_error}
use senet.Tenancy.{Institution}
use senet.Accounts.{User, Course, Session, Semester, Enrolment, Academic}
use senet.Accounts.Enrolments.{same_enrolment, carried, term_credit_units, enrol_student}

-- no student is enrolled twice in a course term
abbrev pub IsUnique : Academic → Type 0
IsUnique db =
    (student course session semester : ℕ)
    → count (same_enrolment student course session semester) db.enrolments ≤ 1

-- no semester load passes the current institution's maximum
abbrev pub IsWithinLoad : Institution → Academic → Type 0
IsWithinLoad i db =
    (db.current ≡ some i)
    × ((student session semester : ℕ)
        → term_credit_units db student session semester none ≤ i.max_credit_units_per_semester)

-- what an accepted enrolment has passed, and the state it leaves
record Accepted (student : User) (course : Course) (session : Session) (semester : Semester)
    (db : Academic) (row : Enrolment) (i : Institution) : Type 0 where
  bound : db.current ≡ some i
  fresh : exists (same_enrolment student.id course.id session.id semester.id) db.enrolments ≡ false
  fits :
      term_credit_units db student.id session.id semester.id none + course.credit_units
      ≤ i.max_credit_units_per_semester
  result :
      (enrol_student student course session semester db).1
      ≡ record db { enrolments = db.enrolments ++ row ∷ []; next_id = db.next_id + 1 }
  row_lem : row ≡ record {
    id = db.next_id;
    institution_id = i.id;
    student_id = student.id;
    course = course;
    session_id = session.id;
    semester_id = semester.id;
  }

module _ (student : User) (course : Course) (session : Session) (semester : Semester)
    (db : Academic) where
  enrol-Accepted :
      (i : Institution) (row : Enrolment)
      → db.current ≡ some i
      → (enrol_student student course session semester db).0 ≡ ok row
      → Accepted student course session semester db row i
  unfolding enrol_student
  enrol-Accepted i row c h = ground arith

  -- a call that raises writes nothing
  enrol_refused :
      (e : Error)
      → (enrol_student student course session semester db).0 ≡ err e
      → (enrol_student student course session semester db).1 ≡ db
  unfolding enrol_student
  enrol_refused e h = ground arith

  enrol_none : db.current ≡ none → (enrol_student student course session semester db).1 ≡ db
  unfolding enrol_student
  enrol_none c = ground arith

-- Either nothing was written, or an enrolment was accepted.
enrol_outcome :
    (student : User) (course : Course) (session : Session) (semester : Semester) (db : Academic)
    → ((enrol_student student course session semester db).1 ≡ db)
      ⊎ ((i : Institution) × (row : Enrolment) × Accepted student course session semester db row i)
enrol_outcome student course session semester db = elim (Option-cases db.current) [
  | inl c ↦ inl (enrol_none student course session semester db c)
  | inr (i, c) ↦ elim (Result-cases (enrol_student student course session semester db).0) [
    | inl (row, r) ↦ inr (i, row, enrol-Accepted student course session semester db i row c r)
    | inr (e, r) ↦ inl (enrol_refused student course session semester db e r)
  ]
]

same_enrolment→eq :
    (a b c d : ℕ) (row : Enrolment)
    → same_enrolment a b c d row ≡ true
    → (row.student_id ≡ a) × (row.course.id ≡ b) × (row.session_id ≡ c) × (row.semester_id ≡ d)
same_enrolment→eq a b c d row t = ground arith

-- an appended row counts once
count-same-append :
    (a b c d : ℕ) (row : Enrolment) (rows : List Enrolment)
    → count (same_enrolment row.student_id row.course.id row.session_id row.semester_id) rows ≡ 0
    → count (same_enrolment a b c d) rows ≤ 1
    → count (same_enrolment a b c d) (rows ++ row ∷ []) ≤ 1
count-same-append a b c d row rows z h =
    rw count-append (elim (Bool-cases (same_enrolment a b c d row)) [
      | inl t ↦
          let e = same_enrolment→eq a b c d row t in
          let z' : count (same_enrolment a b c d) rows ≡ 0 = cc (z, e.0, e.1, e.2, e.3) in
          ground arith
      | inr f ↦ ground arith
    ])

units-append :
    (p : Enrolment → Bool) (row : Enrolment) (rows : List Enrolment)
    → sum_by (λ e. e.course.credit_units) (filter p (rows ++ row ∷ []))
      ≡ sum_by (λ e. e.course.credit_units) (filter p rows)
        + (if p row then row.course.credit_units else 0)
units-append p row rows = rw filter-append (rw sum_by-append (ground arith))

carried→eq :
    (current : Option Institution) (a s t : ℕ) (row : Enrolment)
    → carried current a s t none row ≡ true
    → (row.student_id ≡ a) × (row.session_id ≡ s) × (row.semester_id ≡ t)
carried→eq current a s t row k = ground arith

-- the load is read at the keys of the row
load-keys :
    (db : Academic) (a s t x y z : ℕ)
    → x ≡ a
    → y ≡ s
    → z ≡ t
    → term_credit_units db x y z none ≡ term_credit_units db a s t none
load-keys db a s t x y z p q r = cc

-- one more row that fits
within-append :
    (i : Institution) (db : Academic) (row : Enrolment)
    → IsWithinLoad i db
    → term_credit_units db row.student_id row.session_id row.semester_id none
        + row.course.credit_units
      ≤ i.max_credit_units_per_semester
    → IsWithinLoad i
        (record db { enrolments = db.enrolments ++ row ∷ []; next_id = db.next_id + 1 })
unfolding term_credit_units
within-append i db row (c, h) fits = (
  c,
  λ a s t.
      rw (units-append (carried db.current a s t none) row db.enrolments)
        (elim (Bool-cases (carried db.current a s t none row)) [
          | inl k ↦
              let e = carried→eq db.current a s t row k in
              let same = load-keys db a s t _ _ _ e.0 e.1 e.2 in rw k (omega (arith, same))
          | inr k ↦ rw k (omega (arith, h a s t))
        ]),
)

-- the register of an institution to which the request is bound, with its own rows and none twice
pub record IsRegister (i : Institution) (db : Academic) : Type 0 where
  pub bound : db.current ≡ some i
  pub owned : All (λ e. e.institution_id ≡ i.id) db.enrolments
  pub unique : IsUnique db

-- among the institution's own rows its test and the table's constraint find the same
owned-exists :
    (i : Institution) (p : Enrolment → Bool) (rows : List Enrolment)
    → All (λ e. e.institution_id ≡ i.id) rows
    → exists p rows ≡ exists (λ e. i.id == e.institution_id && p e) rows
owned-exists i p [] h = refl
owned-exists i p (e ∷ rows) h = ground (arith, ==_refl i.id, h.0, owned-exists i p rows h.1)

no_integrity_error :
    (student : User) (course : Course) (session : Session) (semester : Semester) (i : Institution)
    (db : Academic)
    → db.current ≡ some i
    → All (λ e. e.institution_id ≡ i.id) db.enrolments
    → (enrol_student student course session semester db).0 ≢ err integrity_error
unfolding enrol_student
no_integrity_error student course session semester i db c h e =
    let same =
      owned-exists i (same_enrolment student.id course.id session.id semester.id) db.enrolments h in
    ground arith

module _ (student : User) (course : Course) (session : Session) (semester : Semester) where
  enrol-IsUnique :
      (db : Academic) → IsUnique db → IsUnique (enrol_student student course session semester db).1
  enrol-IsUnique db h a b c d = elim (enrol_outcome student course session semester db) [
    | inl same ↦ rw same (h a b c d)
    | inr (i, row, acc) ↦ rw acc.result (
        count-same-append a b c d row db.enrolments
          (rw acc.row_lem (exists-count _ db.enrolments acc.fresh)) (h a b c d))
  ]

  -- Whether it returns or raises, `enrol_student` keeps every student's load in every semester
  -- within the maximum of the institution that the request is bound to.
  pub enrol-IsWithinLoad :
      (i : Institution) (db : Academic)
      → IsWithinLoad i db
      → IsWithinLoad i (enrol_student student course session semester db).1
  enrol-IsWithinLoad i db h = elim (enrol_outcome student course session semester db) [
    | inl same ↦ rw same h
    | inr (j, row, acc) ↦
        let e : i ≡ j = cc (h.0, acc.bound) in
        rw acc.result (within-append i db row h (rw (acc.row_lem, e) acc.fits))
  ]

  -- A register of one institution, whose rows are all its own and enrol no student twice in a
  -- course term, stays one whether `enrol_student` returns or raises. The service's own test
  -- refuses a second enrolment: the call never comes to an `IntegrityError` of the table.
  pub enrol-IsRegister :
      (i : Institution) (db : Academic)
      → IsRegister i db
      → IsRegister i (enrol_student student course session semester db).1
        × ((enrol_student student course session semester db).0 ≢ err integrity_error)
  enrol-IsRegister i db h = (
    elim (enrol_outcome student course session semester db) [
      | inl same ↦ rw same h
      | inr (j, row, acc) ↦ record {
        bound = rw acc.result h.bound;
        owned =
            let e : j ≡ i = cc (h.bound, acc.bound) in
            rw acc.result (
              All-append (λ r. r.institution_id ≡ i.id) db.enrolments _ h.owned
                (rw acc.row_lem (ap (λ (k : Institution). k.id) e), tt));
        unique = enrol-IsUnique db h.unique;
      }
    ],
    no_integrity_error student course session semester i db h.bound h.owned,
  )
