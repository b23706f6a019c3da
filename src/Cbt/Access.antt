-- ===== src/Cbt/Access.antt =====
-- Who may manage banks and exams, and who sees an exam: backend/cbt/services.py.
use senet.Prelude.{ℕ, Bool, true, false, ◌&&◌, some, List, ◌==◌, same_key, exists, filter}
use senet.Accounts.{User, Role, Course, CourseAssignment, Academic}
use senet.Accounts.Access.{lecturer_can_access_course, assigned_to, enrolled_in}
use senet.Cbt.{Exam}
use senet.Results.Worklist.{in_tenant}
use senet.Database.{Db}

-- `_manages_course_by_scope`
abbrev pub manages_by_scope : Role → User → Course → Bool
manages_by_scope Role.hod user course = same_key user.department_id (some course.department.id)
manages_by_scope Role.dean user course =
    same_key user.faculty_id (some course.department.faculty_id)
manages_by_scope Role.senate_admin user course = true
manages_by_scope Role.school_admin user course = true
manages_by_scope _ user course = false

abbrev teaches : User → Course → CourseAssignment → Bool
teaches user course a = a.lecturer_id == user.id && a.course_id == course.id

abbrev bank_test : Role → Academic → User → Course → Bool
bank_test Role.lecturer db user course = exists (teaches user course) db.assignments
bank_test role db user course = manages_by_scope role user course

unfoldable pub can_manage_bank : Academic → User → Course → Bool
can_manage_bank db user course = bank_test user.role db user course

abbrev exam_test : Role → Academic → User → Course → ℕ → ℕ → Bool
exam_test Role.lecturer db user course session semester =
    lecturer_can_access_course db user course.id session semester
exam_test role db user course session semester = manages_by_scope role user course

unfoldable pub can_manage_exam : Academic → User → Course → ℕ → ℕ → Bool
unfolding lecturer_can_access_course
can_manage_exam db user course session semester =
    exam_test user.role db user course session semester

abbrev sees_exam : Role → Academic → User → Exam → Bool
sees_exam Role.lecturer db user e =
    exists (assigned_to user e.course.id e.session_id e.semester_id) db.assignments
sees_exam Role.student db user e =
    exists (enrolled_in user e.course.id e.session_id e.semester_id) db.enrolments
sees_exam Role.course_rep db user e =
    exists (enrolled_in user e.course.id e.session_id e.semester_id) db.enrolments
sees_exam role db user e = manages_by_scope role user e.course

-- the exams of the institution that the request is bound to, by role
unfoldable pub visible_exams : Db → User → List Exam
visible_exams db user =
    filter (λ e. in_tenant db e.institution_id && sees_exam user.role db.academic user e) db.exams
