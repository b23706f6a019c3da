-- ===== src/Accounts/Access.antt =====
-- Who may see or manage a course: backend/accounts/services.py.
use senet.Prelude.{
  ℕ, Bool, true, false, ◌&&◌, ◌||◌, some, List, ◌==◌, same_key, exists, filter, ◌≡◌, refl, ◌⊎◌, [],
  ◌∷◌, All, arith, if◌then◌else◌,
}
use senet.Accounts.{
  Role, User, Course, Enrolment, CourseAssignment, Academic, eq_role, institution_id,
}

abbrev pub assigned_to : User → ℕ → ℕ → ℕ → CourseAssignment → Bool
assigned_to user course session semester a =
    a.lecturer_id == user.id
    && a.course_id == course
    && a.session_id == session
    && a.semester_id == semester

abbrev pub enrolled_in : User → ℕ → ℕ → ℕ → Enrolment → Bool
enrolled_in user course session semester e =
    e.student_id == user.id
    && e.course.id == course
    && e.session_id == session
    && e.semester_id == semester

unfoldable pub lecturer_can_access_course : Academic → User → ℕ → ℕ → ℕ → Bool
lecturer_can_access_course db user course session semester =
    eq_role user.role Role.lecturer
    && exists (assigned_to user course session semester) db.assignments

-- `role in STUDENT_ROLES`
abbrev pub is_student_role : Role → Bool
is_student_role r = eq_role r Role.student || eq_role r Role.course_rep

unfoldable pub student_is_enrolled : Academic → User → ℕ → ℕ → ℕ → Bool
student_is_enrolled db user course session semester =
    is_student_role user.role && exists (enrolled_in user course session semester) db.enrolments

-- the chain of `if role == …` of `can_manage_course`
manages : Role → Academic → User → Course → ℕ → ℕ → Bool
manages Role.lecturer db user course session semester =
    lecturer_can_access_course db user course.id session semester
manages Role.hod db user course session semester =
    same_key user.department_id (some course.department.id)
manages Role.dean db user course session semester =
    same_key user.faculty_id (some course.department.faculty_id)
manages Role.senate_admin db user course session semester = true
manages Role.school_admin db user course session semester = true
manages _ db user course session semester = false

unfoldable pub can_manage_course : Academic → User → Course → ℕ → ℕ → Bool
unfolding manages lecturer_can_access_course
can_manage_course db user course session semester =
    if same_key (institution_id user) (some course.institution.id)
    then manages user.role db user course session semester
    else false

unfoldable pub can_access_course : Academic → User → Course → ℕ → ℕ → Bool
unfolding can_manage_course student_is_enrolled
can_access_course db user course session semester =
    can_manage_course db user course session semester
    || student_is_enrolled db user course.id session semester

-- The test on a course-term row by which `scope_to_accessible_courses` filters, for each role.
scope_test : Role → Academic → User → Course → ℕ → ℕ → Bool
scope_test Role.lecturer db user course session semester =
    exists (assigned_to user course.id session semester) db.assignments
scope_test Role.student db user course session semester =
    exists (enrolled_in user course.id session semester) db.enrolments
scope_test Role.course_rep db user course session semester =
    exists (enrolled_in user course.id session semester) db.enrolments
scope_test Role.hod db user course session semester =
    same_key user.department_id (some course.department.id)
scope_test Role.dean db user course session semester =
    same_key user.faculty_id (some course.department.faculty_id)
scope_test Role.senate_admin db user course session semester = true
scope_test Role.school_admin db user course session semester = true
scope_test _ db user course session semester = false

module _ {ℓ} {A : Type ℓ} (course : A → Course) (session semester : A → ℕ) where
  unfoldable pub scope_to_accessible_courses : Academic → User → List A → List A
  unfolding scope_test
  scope_to_accessible_courses db user =
      filter (λ row. scope_test user.role db user (course row) (session row) (semester row))

-- one row, in the user's institution
scope_test-eq-access :
    (db : Academic) (user : User) (course : Course) (session semester : ℕ)
    → same_key (institution_id user) (some course.institution.id) ≡ true
    → scope_test user.role db user course session semester
      ≡ can_access_course db user course session semester
unfolding scope_test can_access_course
scope_test-eq-access db user course session semester h = rw h (ground arith)

module _ {ℓ} {A : Type ℓ} (course : A → Course) (session semester : A → ℕ) where
  -- Of course-term rows in the user's institution, `scope_to_accessible_courses` keeps exactly
  -- those that `can_access_course` allows, in their order.
  pub scope-eq-filter-access :
      (db : Academic) (user : User) (rows : List A)
      → All (λ row. same_key (institution_id user) (some (course row).institution.id) ≡ true) rows
      → scope_to_accessible_courses course session semester db user rows
        ≡ filter (λ row. can_access_course db user (course row) (session row) (semester row)) rows
  unfolding scope_to_accessible_courses
  scope-eq-filter-access db user [] h = refl
  scope-eq-filter-access db user (row ∷ rows) h =
      let e = scope_test-eq-access db user (course row) (session row) (semester row) h.0 in
      simp (e, scope-eq-filter-access db user rows h.1)

-- A user who may manage a course belongs to the course's institution, and is its lecturer in
-- that term, the HOD of its department, the dean of its faculty, or a school or senate admin.
pub can_manage_course_roles :
    (db : Academic) (user : User) (course : Course) (session semester : ℕ)
    → can_manage_course db user course session semester ≡ true
    → (institution_id user ≡ some course.institution.id)
      × ((lecturer_can_access_course db user course.id session semester ≡ true)
          ⊎ (user.role ≡ Role.hod) × (user.department_id ≡ some course.department.id)
          ⊎ (user.role ≡ Role.dean) × (user.faculty_id ≡ some course.department.faculty_id)
          ⊎ (user.role ≡ Role.senate_admin)
          ⊎ (user.role ≡ Role.school_admin))
unfolding can_manage_course
can_manage_course_roles db user course session semester h = ground arith
