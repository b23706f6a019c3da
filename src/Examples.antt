-- ===== src/Examples.antt =====
-- A small faculty: one course in one term, its people, and one result sheet with one score.
pub mod Grading
pub mod Accounts
pub mod Results
pub mod Sheets
pub mod Cbt
pub mod Proctoring
pub mod Discussions
use senet.Prelude.{ℕ, true, Option, none, some, List, [], ◌∷◌}
use senet.Prelude.Text.{text}
use senet.Tenancy.{Institution, new_institution}
use senet.Accounts.{
  User, Role, Department, Programme, Course, Session, Semester, Enrolment, CourseAssignment,
  Academic,
}
use senet.Results.{CourseResult, StudentScore}
use senet.Results.Status.{ResultStatus}
use senet.Database.{Db}

abbrev pub school : Institution
school = new_institution 1

abbrev pub computing : Department
computing = record { id = 10; faculty_id = 20 }

abbrev pub course : Course
course = record {
  id = 100;
  institution = school;
  department = computing;
  code = text "CSC101";
  title = text "Introduction";
  credit_units = 3;
  ca_weight = none;
  exam_weight = none;
}

abbrev pub session : Session
session = record { id = 200; start_date = 1 }

abbrev pub semester : Semester
semester = record { id = 300; session_id = 200; start_date = 1 }

abbrev user_in : ℕ → Role → User
user_in id role = record {
  id = id;
  role = role;
  institution = some school;
  faculty_id = some 20;
  department_id = some 10;
}

abbrev pub lecturer : User
lecturer = user_in 1 Role.lecturer

abbrev pub head : User
head = user_in 2 Role.hod

abbrev pub dean : User
dean = user_in 3 Role.dean

abbrev pub senate : User
senate = user_in 4 Role.senate_admin

abbrev pub student : User
student = user_in 5 Role.student

abbrev pub enrolment : Enrolment
enrolment = record {
  id = 1;
  institution_id = 1;
  student_id = 5;
  course = course;
  session_id = 200;
  semester_id = 300;
}

abbrev pub assignment : CourseAssignment
assignment = record {
  id = 2;
  institution_id = 1;
  lecturer_id = 1;
  course_id = 100;
  session_id = 200;
  semester_id = 300;
}

abbrev pub academic : Academic
academic = record {
  current = some school;
  enrolments = enrolment ∷ [];
  assignments = assignment ∷ [];
  next_id = 3;
}

abbrev pub sheet : ResultStatus → CourseResult
sheet status = record {
  id = 7;
  institution = school;
  course = course;
  session = session;
  semester = semester;
  lecturer_id = 1;
  status = status;
  returned_reason = [];
}

abbrev pub score : StudentScore
score = record {
  id = 8;
  institution_id = 1;
  result_id = 7;
  student_id = 5;
  ca_score = 3000;
  exam_score = 4500;
  total = 7500;
  grade = text "A";
  supersedes = none;
  is_current = true;
  created_at = 1;
}

abbrev pub tables : ResultStatus → Db
tables status = record {
  academic = academic;
  items = [];
  submissions = [];
  grades = [];
  results = sheet status ∷ [];
  scores = score ∷ [];
  amendments = [];
  reports = [];
  banks = [];
  questions = [];
  exams = [];
  attempts = [];
  papers = [];
  answers = [];
  audit = [];
  outbox = [];
  now = 2;
  next_id = 9;
}
