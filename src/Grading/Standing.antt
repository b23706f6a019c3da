-- ===== src/Grading/Standing.antt =====
-- backend/grading/services.py: academic standing, degree class, the summary of a student; and
-- `can_view_student` of backend/grading/permissions.py.
pub mod Classes
use senet.Prelude.{
  ℕ, ◌+◌, ◌≤◌, ◌<◌, Bool, true, false, ◌&&◌, ◌||◌, Option, none, some, List, [], ◌∷◌, ◌≡◌, ◌==◌,
  ltb, leb, first, filter, map, same_key, eq_key, if◌then◌else◌,
}
use senet.Prelude.Text.{Text, text}
use senet.Prelude.Sorting.{sort_by}
use senet.Tenancy.{Institution, ClassBand}
use senet.Accounts.{User, Role, Session, Semester, eq_role, institution_id}
use senet.Results.Status.{ResultStatus}
use senet.Database.{Db}
use senet.Grading.Gpa.{
  CourseName, TermSummary, CumulativeSummary, outstanding_carryovers, cumulative_summary,
  term_summary,
}

-- the texts that `standing_for` returns; `blank` is ""
pub data Standing : Type 0 where
  blank withdrawal probation good : Standing

unfoldable pub standing_for : Institution → Option ℕ → Standing
standing_for i none = blank
standing_for i (some cgpa) =
    if ltb cgpa i.withdrawal_cgpa_threshold
    then withdrawal
    else if ltb cgpa i.probation_cgpa_threshold
    then probation
    else good

pub record Classification : Type 0 where
  pub name : Option Text
  pub is_borderline : Bool
  pub borderline_band : Option Text

abbrev pub higher : ClassBand → ClassBand → Bool
higher a b = leb b.min_cgpa a.min_cgpa

-- the bands, highest first
unfoldable pub class_bands : Institution → List ClassBand
class_bands i = sort_by higher i.classification_bands

abbrev pub reached : ℕ → ClassBand → Bool
reached cgpa band = leb band.min_cgpa cgpa

-- `min_cgpa - margin <= cgpa < min_cgpa`, the margin moved to the other side
abbrev pub just_below : ℕ → ℕ → ClassBand → Bool
just_below margin cgpa band = leb band.min_cgpa (cgpa + margin) && ltb cgpa band.min_cgpa

abbrev pub name_or_fail : Option ClassBand → Text
name_or_fail none = text "Fail"
name_or_fail (some band) = band.name

abbrev flagged : Text → Option ClassBand → Classification
flagged name none = record { name = some name; is_borderline = false; borderline_band = none }
flagged name (some band) = record {
  name = some name;
  is_borderline = true;
  borderline_band = some band.name;
}

unfoldable pub classify : Institution → Option ℕ → Classification
unfolding class_bands
classify i none = record { name = none; is_borderline = false; borderline_band = none }
classify i (some cgpa) =
    let bands = class_bands i in
    flagged (name_or_fail (first (reached cgpa) bands))
      (first (just_below i.senate_review_margin cgpa) bands)

pub record StudentSummary : Type 0 where
  pub student : ℕ
  pub term : Option TermSummary
  pub cumulative : CumulativeSummary
  pub standing : Standing
  pub classification : Classification
  pub outstanding_carryovers : List CourseName

term_of : Db → Institution → ℕ → Option Session → Option Semester → Option TermSummary
term_of db i student (some session) (some semester) =
    some (term_summary db i student session semester none)
term_of db i student _ _ = none

unfoldable pub student_summary :
    Db → Institution → ℕ → Option Session → Option Semester → StudentSummary
unfolding cumulative_summary classify standing_for term_of
student_summary db i student session semester =
    let cumulative = cumulative_summary db i student none in
    record {
      student = student;
      term = term_of db i student session semester;
      cumulative = cumulative;
      standing = standing_for i cumulative.cgpa;
      classification = classify i cumulative.cgpa;
      outstanding_carryovers = outstanding_carryovers db i student;
    }

-- `student_faculty` is the faculty of the student's department, where there is one
views : Role → User → User → Option ℕ → Bool
views Role.student actor student student_faculty = actor.id == student.id
views Role.course_rep actor student student_faculty = actor.id == student.id
views Role.course_adviser actor student student_faculty =
    same_key actor.department_id student.department_id
views Role.hod actor student student_faculty = same_key actor.department_id student.department_id
views Role.dean actor student student_faculty =
    same_key actor.faculty_id student.faculty_id || same_key actor.faculty_id student_faculty
views Role.senate_admin actor student student_faculty = true
views Role.school_admin actor student student_faculty = true
views _ actor student student_faculty = false

unfoldable pub can_view_student : User → User → Option ℕ → Bool
unfolding views
can_view_student actor student student_faculty =
    if eq_key (institution_id actor) (institution_id student)
    then views actor.role actor student student_faculty
    else false
