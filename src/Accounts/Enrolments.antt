-- ===== src/Accounts/Enrolments.antt =====
-- Enrolment and course assignment: the writing half of backend/accounts/services.py, with the
-- database's unique constraints.
pub mod Load
pub mod Assign
use senet.Prelude.{
  ℕ, ◌+◌, Bool, true, false, not, ◌&&◌, ◌||◌, Option, none, some, List, [], ◌∷◌, ◌++◌, String, ◌==◌,
  ltb, eq_key, exists, filter, sum_by, if◌then◌else◌,
}
use senet.Exec.{
  Result, ok, err, validation, invalid, integrity_error, Exec, check, check_errors, gets, raise,
  pure, ◌>>=◌, ◌>>◌,
}
use senet.Tenancy.{Institution}
use senet.Accounts.{
  Role, User, Course, Session, Semester, Enrolment, CourseAssignment, Academic, eq_role,
  institution_id,
}

-- `[key]` where the test fails
abbrev pub error_if : Bool → String → List String
error_if true k = k ∷ []
error_if false k = []

-- the default manager: the rows of the current institution, and none without one
abbrev in_current : Option Institution → ℕ → Bool
in_current none i = false
in_current (some c) i = c.id == i

abbrev pub same_enrolment : ℕ → ℕ → ℕ → ℕ → Enrolment → Bool
same_enrolment student course session semester e =
    e.student_id == student
    && e.course.id == course
    && e.session_id == session
    && e.semester_id == semester

abbrev pub same_assignment : ℕ → ℕ → ℕ → ℕ → CourseAssignment → Bool
same_assignment lecturer course session semester a =
    a.lecturer_id == lecturer
    && a.course_id == course
    && a.session_id == session
    && a.semester_id == semester

-- the `if role … elif institution …` of both validators
abbrev member_errors : Role → User → Option Institution → String → List String
member_errors role user none key = error_if (not (eq_role user.role role)) key
member_errors role user (some i) key =
    error_if (not (eq_role user.role role) || not (eq_key (institution_id user) (some i.id))) key

unfoldable pub validate_enrolment :
    Academic → User → Course → Session → Semester → Option Institution → List String
validate_enrolment db student course session semester institution =
    member_errors Role.student student institution "student"
    ++ (error_if (not (semester.session_id == session.id)) "semester"
        ++ error_if
            (exists
              (λ e.
                in_current db.current e.institution_id
                && same_enrolment student.id course.id session.id semester.id e)
              db.enrolments)
            "non_field_errors")

-- the rows that `term_credit_units` sums: a student's term, less one row
abbrev pub carried : Option Institution → ℕ → ℕ → ℕ → Option ℕ → Enrolment → Bool
carried current student session semester exclude e =
    in_current current e.institution_id
    && e.student_id == student
    && e.session_id == session
    && e.semester_id == semester
    && not (eq_key exclude (some e.id))

unfoldable pub term_credit_units : Academic → ℕ → ℕ → ℕ → Option ℕ → ℕ
term_credit_units db student session semester exclude_pk =
    sum_by (λ e. e.course.credit_units)
      (filter (carried db.current student session semester exclude_pk) db.enrolments)

unfoldable pub validate_credit_load : Institution → ℕ → Result (Unit {0})
validate_credit_load i total =
    if ltb total i.min_credit_units_per_semester
    then err (invalid "below the institution minimum")
    else if ltb i.max_credit_units_per_semester total
    then err (invalid "exceeds the institution maximum")
    else ok tt

-- `Enrolment.objects.create`: the row is stamped with the current institution, which must be
-- there, and the constraint `uniq_enrolment_per_student_course_term` is tested.
insert_enrolment : User → Course → Session → Semester → Option Institution → Exec Academic Enrolment
insert_enrolment student course session semester none db = raise integrity_error db
insert_enrolment student course session semester (some i) db =
    if exists (same_enrolment student.id course.id session.id semester.id) db.enrolments
    then raise integrity_error db
    else let row : Enrolment = record {
      id = db.next_id;
      institution_id = i.id;
      student_id = student.id;
      course = course;
      session_id = session.id;
      semester_id = semester.id;
    } in
      (ok row, record db { enrolments = db.enrolments ++ row ∷ []; next_id = db.next_id + 1 })

-- the upper bound on the load, tested where there is an institution
check_load : User → Course → Session → Semester → Option Institution → Exec Academic (Unit {0})
unfolding term_credit_units
check_load student course session semester none = pure tt
check_load student course session semester (some i) = λ db.
    check
      (not (
        ltb i.max_credit_units_per_semester
          (term_credit_units db student.id session.id semester.id none + course.credit_units)))
      (validation ("course" ∷ [])) db

unfoldable pub enrol_student : User → Course → Session → Semester → Exec Academic Enrolment
unfolding validate_enrolment check_load insert_enrolment
enrol_student student course session semester = do
  institution ← gets (λ db. db.current)
  errors ← gets (λ db. validate_enrolment db student course session semester institution)
  check_errors errors
  check_load student course session semester institution
  insert_enrolment student course session semester institution

-- `actor` is none where no user makes the assignment
abbrev outside_department : Option User → Course → Bool
outside_department none course = false
outside_department (some actor) course =
    eq_role actor.role Role.hod && not (eq_key (some course.department.id) actor.department_id)

unfoldable pub validate_course_assignment :
    Academic → Option User → User → Course → Session → Semester → Option Institution → List String
validate_course_assignment db actor lecturer course session semester institution =
    member_errors Role.lecturer lecturer institution "lecturer"
    ++ (error_if (not (semester.session_id == session.id)) "semester"
        ++ (error_if (outside_department actor course) "course"
            ++ error_if
                (exists
                  (λ a.
                    in_current db.current a.institution_id
                    && same_assignment lecturer.id course.id session.id semester.id a)
                  db.assignments)
                "non_field_errors"))

-- `CourseAssignment.objects.create`, with `uniq_assignment_per_lecturer_course_term`
insert_assignment :
    User → Course → Session → Semester → Option Institution → Exec Academic CourseAssignment
insert_assignment lecturer course session semester none db = raise integrity_error db
insert_assignment lecturer course session semester (some i) db =
    if exists (same_assignment lecturer.id course.id session.id semester.id) db.assignments
    then raise integrity_error db
    else let row : CourseAssignment = record {
      id = db.next_id;
      institution_id = i.id;
      lecturer_id = lecturer.id;
      course_id = course.id;
      session_id = session.id;
      semester_id = semester.id;
    } in
      (ok row, record db { assignments = db.assignments ++ row ∷ []; next_id = db.next_id + 1 })

unfoldable pub assign_lecturer :
    Option User → User → Course → Session → Semester → Exec Academic CourseAssignment
unfolding validate_course_assignment insert_assignment
assign_lecturer actor lecturer course session semester = do
  institution ← gets (λ db. db.current)
  errors ←
      gets (λ db. validate_course_assignment db actor lecturer course session semester institution)
  check_errors errors
  insert_assignment lecturer course session semester institution
