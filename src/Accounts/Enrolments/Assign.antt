-- ===== src/Accounts/Enrolments/Assign.antt =====
-- What a course assignment grants.
use senet.Prelude.{Bool, true, Option, some, List, [], ◌∷◌, ◌++◌, ◌≡◌, refl, exists, arith, ◌||◌}
use senet.Exec.{ok}
use senet.Accounts.{
  Role, User, Course, Session, Semester, CourseAssignment, Academic, institution_id,
}
use senet.Accounts.Access.{lecturer_can_access_course}
use senet.Accounts.Enrolments.{assign_lecturer, same_assignment}

exists-append {ℓ} :
    {A : Type ℓ} (p : A → Bool) (xs ys : List A)
    → exists p (xs ++ ys) ≡ (exists p xs || exists p ys)
exists-append p [] ys = refl
exists-append p (x ∷ xs) ys = ground (arith, exists-append p xs ys)

module _ (actor : Option User) (lecturer : User) (course : Course) (session : Session)
    (semester : Semester) (db : Academic) where
  assign_result :
      {row : CourseAssignment}
      → (assign_lecturer actor lecturer course session semester db).0 ≡ ok row
      → ((assign_lecturer actor lecturer course session semester db).1.assignments
          ≡ db.assignments ++ row ∷ [])
        × (lecturer.role ≡ Role.lecturer)
        × (same_assignment lecturer.id course.id session.id semester.id row ≡ true)
  unfolding assign_lecturer
  assign_result {row} h = ground arith

  -- An accepted assignment lets its lecturer into the course in that term.
  pub assign-can_access :
      {row : CourseAssignment}
      → (assign_lecturer actor lecturer course session semester db).0 ≡ ok row
      → lecturer_can_access_course
          (assign_lecturer actor lecturer course session semester db).1
          lecturer
          course.id
          session.id
          semester.id
        ≡ true
  unfolding lecturer_can_access_course
  assign-can_access {row} h =
      let (grown, role, matches) = assign_result h in
      rw grown (
        ground (
          arith,
          exists-append (same_assignment lecturer.id course.id session.id semester.id)
              db.assignments (row ∷ []),
        ))

  -- An HOD assigns lecturers only to courses of the HOD's own department, and every assignment
  -- is of a lecturer of the current institution to a term of the session named. The lecturer has
  -- access to the course in that term from then on.
  pub assign_guards :
      {row : CourseAssignment}
      → (assign_lecturer actor lecturer course session semester db).0 ≡ ok row
      → (lecturer.role ≡ Role.lecturer)
        × (semester.session_id ≡ session.id)
        × (institution_id lecturer ≡ some row.institution_id)
        × ((hod : User)
            → actor ≡ some hod
            → hod.role ≡ Role.hod
            → hod.department_id ≡ some course.department.id)
        × (lecturer_can_access_course
              (assign_lecturer actor lecturer course session semester db).1
              lecturer
              course.id
              session.id
              semester.id
            ≡ true)
  unfolding assign_lecturer
  assign_guards {row} h =
      (ground arith, ground arith, ground arith, λ hod a r. ground arith, assign-can_access h)
