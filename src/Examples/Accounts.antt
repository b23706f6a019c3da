-- ===== src/Examples/Accounts.antt =====
-- The theorems on access, enrolment and assignment at one course.
use senet.Prelude.{true, some, [], ◌∷◌, ◌≡◌, ◌≢◌, ◌⊎◌, refl, arith, filter}
use senet.Exec.{ok, err, integrity_error}
use senet.Accounts.{User, Role, Enrolment, Academic, institution_id}
use senet.Accounts.Access.{
  can_access_course, can_manage_course, scope_to_accessible_courses, lecturer_can_access_course,
  scope-eq-filter-access, can_manage_course_roles,
}
use senet.Accounts.Enrolments.{enrol_student, assign_lecturer, term_credit_units}
use senet.Accounts.Enrolments.Load.{IsRegister, IsWithinLoad, enrol-IsRegister, enrol-IsWithinLoad}
use senet.Accounts.Enrolments.Assign.{assign_guards}
use senet.Examples.{
  school, course, session, semester, lecturer, head, student, enrolment, assignment, academic,
}

scope-eq-filter-access_example :
    scope_to_accessible_courses
      (λ (e : Enrolment). e.course)
      (λ e. e.session_id)
      (λ e. e.semester_id)
      academic
      lecturer
      (enrolment ∷ [])
    ≡ filter
        (λ e. can_access_course academic lecturer e.course e.session_id e.semester_id)
        (enrolment ∷ [])
scope-eq-filter-access_example =
    scope-eq-filter-access (λ (e : Enrolment). e.course) (λ e. e.session_id) (λ e. e.semester_id)
      academic lecturer (enrolment ∷ []) (refl, tt)

can_manage_course_roles_example :
    (institution_id head ≡ some 1)
    × ((lecturer_can_access_course academic head 100 200 300 ≡ true)
        ⊎ (head.role ≡ Role.hod) × (head.department_id ≡ some 10)
        ⊎ (head.role ≡ Role.dean) × (head.faculty_id ≡ some 20)
        ⊎ (head.role ≡ Role.senate_admin)
        ⊎ (head.role ≡ Role.school_admin))
unfolding can_manage_course
can_manage_course_roles_example = can_manage_course_roles academic head course 200 300 refl

-- a term before anyone is enrolled or assigned
abbrev empty_term : Academic
empty_term = record { current = some school; enrolments = []; assignments = []; next_id = 1 }

abbrev one_row : Academic
one_row = record empty_term { enrolments = enrolment ∷ []; next_id = 2 }

-- a second enrolment of the same student in the course term
enrol-IsRegister_example :
    IsRegister school (enrol_student student course session semester one_row).1
    × ((enrol_student student course session semester one_row).0 ≢ err integrity_error)
enrol-IsRegister_example =
    enrol-IsRegister student course session semester school one_row
      (record { bound = refl; owned = (refl, tt); unique = λ a b c d. ground arith })

empty_term-IsWithinLoad : IsWithinLoad school empty_term
unfolding term_credit_units
empty_term-IsWithinLoad = (refl, λ a s t. omega arith)

enrol-IsWithinLoad_example :
    IsWithinLoad school (enrol_student student course session semester empty_term).1
enrol-IsWithinLoad_example =
    enrol-IsWithinLoad student course session semester school empty_term empty_term-IsWithinLoad

assign_guards_example :
    (lecturer.role ≡ Role.lecturer)
    × (semester.session_id ≡ session.id)
    × (institution_id lecturer ≡ some 1)
    × ((hod : User)
        → some head ≡ some hod
        → hod.role ≡ Role.hod
        → hod.department_id ≡ some course.department.id)
    × (lecturer_can_access_course
          (assign_lecturer (some head) lecturer course session semester empty_term).1
          lecturer
          100
          200
          300
        ≡ true)
unfolding assign_lecturer
assign_guards_example =
    assign_guards (some head) lecturer course session semester empty_term
      {row = record assignment { id = 1 }} refl

-- the enrolment goes through
enrols : (enrol_student student course session semester empty_term).0 ≡ ok enrolment
unfolding enrol_student
enrols = refl
