-- ===== src/Accounts.antt =====
-- backend/accounts/models.py: the rows that the services read. A foreign key that a service only
-- follows is the row itself; keys and times are numbers.
pub mod Access
pub mod Enrolments
use senet.Prelude.{
  ℕ, ◌+◌, Bool, true, false, not, ◌&&◌, Option, none, some, List, ◌==◌, is_some, if◌then◌else◌,
}
use senet.Prelude.Text.{Text}
use senet.Exec.{Result, ok, err, invalid}
use senet.Tenancy.{Institution}

pub data Role : Type 0 where
  super_admin school_admin dean hod exam_officer lecturer course_adviser senate_admin : Role
  student course_rep : Role

abbrev role_index : Role → ℕ
role_index super_admin = 0
role_index school_admin = 1
role_index dean = 2
role_index hod = 3
role_index exam_officer = 4
role_index lecturer = 5
role_index course_adviser = 6
role_index senate_admin = 7
role_index student = 8
role_index course_rep = 9

abbrev pub eq_role : Role → Role → Bool
eq_role a b = role_index a == role_index b

pub record User : Type 0 where
  pub id : ℕ
  pub role : Role
  pub institution : Option Institution
  pub faculty_id : Option ℕ
  pub department_id : Option ℕ

abbrev pub key_of : Option Institution → Option ℕ
key_of none = none
key_of (some i) = some i.id

-- `user.institution_id`
abbrev pub institution_id : User → Option ℕ
institution_id u = key_of u.institution

pub record Department : Type 0 where
  pub id : ℕ
  pub faculty_id : ℕ

pub record Programme : Type 0 where
  pub id : ℕ
  pub department : Department

pub record Session : Type 0 where
  pub id : ℕ
  pub start_date : ℕ

pub record Semester : Type 0 where
  pub id : ℕ
  pub session_id : ℕ
  pub start_date : ℕ

pub record Course : Type 0 where
  pub id : ℕ
  pub institution : Institution
  pub department : Department
  pub code : Text
  pub title : Text
  pub credit_units : ℕ
  pub ca_weight : Option ℕ
  pub exam_weight : Option ℕ

abbrev or_default : Option ℕ → ℕ → ℕ
or_default none d = d
or_default (some w) d = w

abbrev pub effective_ca_weight : Course → ℕ
effective_ca_weight c = or_default c.ca_weight c.institution.default_ca_weight

abbrev pub effective_exam_weight : Course → ℕ
effective_exam_weight c = or_default c.exam_weight c.institution.default_exam_weight

-- the tests of `Course.clean` on its two weights
clean_weights : Option ℕ → Option ℕ → Result (Unit {0})
clean_weights none none = ok tt
clean_weights (some ca) (some exam) =
    if ca + exam == 100 then ok tt else err (invalid "CA weight and exam weight must sum to 100.")
clean_weights _ _ = err (invalid "Provide both CA and exam weight, or neither.")

unfoldable pub clean_course : Course → Result (Unit {0})
unfolding clean_weights
clean_course c = clean_weights c.ca_weight c.exam_weight

pub record Enrolment : Type 0 where
  pub id : ℕ
  pub institution_id : ℕ
  pub student_id : ℕ
  pub course : Course
  pub session_id : ℕ
  pub semester_id : ℕ

pub record CourseAssignment : Type 0 where
  pub id : ℕ
  pub institution_id : ℕ
  pub lecturer_id : ℕ
  pub course_id : ℕ
  pub session_id : ℕ
  pub semester_id : ℕ

-- The tables, and `current`, the institution that the request is bound to
-- (`get_current_institution` of backend/tenancy/scoping.py).
pub record Academic : Type 0 where
  pub current : Option Institution
  pub enrolments : List Enrolment
  pub assignments : List CourseAssignment
  pub next_id : ℕ
