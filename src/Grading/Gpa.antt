-- ===== src/Grading/Gpa.antt =====
-- backend/grading/services.py: transcript rows, GPA and CGPA, carryovers. Points, quality points
-- and averages are in hundredths. An average is the exact quotient, rounded; Python divides to 28
-- digits first, which gives the same hundredths below 10^20 credit units.
pub mod Averages
pub mod Attempts
pub mod Official
pub mod Counted
pub mod Carryovers
use senet.Prelude.{
  ℕ, ◌+◌, ◌*◌, Bool, true, false, ◌&&◌, ◌||◌, Option, none, some, List, [], ◌∷◌, ◌++◌, map, filter,
  first, ◌==◌, ltb, leb, if◌then◌else◌,
}
use senet.Prelude.Text.{Text, le_text}
use senet.Prelude.Sorting.{sort_by}
use senet.Prelude.Rounding.{half_up}
use senet.Tenancy.{Institution, CarryoverMethod, all_attempts, highest_only}
use senet.Accounts.{User, Session, Semester, Course}
use senet.Results.{StudentScore, CourseResult}
use senet.Results.Status.{ResultStatus, eq_status}
use senet.Database.{Db}
use senet.Grading.Scales.{points_for_letter, or_else}

-- a score row with its sheet (`select_related`)
pub record TranscriptRow : Type 0 where
  pub score : StudentScore
  pub result : CourseResult

abbrev pub status_is : Option ResultStatus → ResultStatus → Bool
status_is none s = false
status_is (some wanted) s = eq_status s wanted

-- The filter of `official_rows`. `institution` is the student's.
abbrev pub is_official : Institution → ℕ → Option ResultStatus → TranscriptRow → Bool
is_official institution student status row =
    row.score.institution_id == institution.id
    && row.score.student_id == student
    && row.score.is_current
    && status_is (or_else status institution.gpa_source_status) row.result.status

with_result : StudentScore → Option CourseResult → List TranscriptRow → List TranscriptRow
with_result score none rows = rows
with_result score (some result) rows = record { score = score; result = result } ∷ rows

-- every score row beside the sheet that it belongs to
joined : List CourseResult → List StudentScore → List TranscriptRow
joined results [] = []
joined results (s ∷ scores) =
    with_result s (first (λ r. r.id == s.result_id) results) (joined results scores)

-- `order_by(session start, semester start, created_at)`
abbrev earlier : TranscriptRow → TranscriptRow → Bool
earlier a b =
    ltb a.result.session.start_date b.result.session.start_date
    || a.result.session.start_date == b.result.session.start_date
      && (ltb a.result.semester.start_date b.result.semester.start_date
          || a.result.semester.start_date == b.result.semester.start_date
            && leb a.score.created_at b.score.created_at)

unfoldable pub official_rows : Db → Institution → ℕ → Option ResultStatus → List TranscriptRow
unfolding joined with_result
official_rows db institution student status =
    sort_by earlier (filter (is_official institution student status) (joined db.results db.scores))

abbrev pub units_of : TranscriptRow → ℕ
units_of row = row.result.course.credit_units

pub record CourseLine : Type 0 where
  pub course : ℕ
  pub course_code : Text
  pub credit_units : ℕ
  pub total_score : ℕ
  pub grade : Text
  pub grade_points : ℕ
  pub quality_points : ℕ

unfoldable pub course_line : Institution → TranscriptRow → CourseLine
unfolding points_for_letter
course_line institution row =
    let course = row.result.course in
    let points = points_for_letter institution row.score.grade in
    record {
      course = course.id;
      course_code = course.code;
      credit_units = course.credit_units;
      total_score = row.score.total;
      grade = row.score.grade;
      grade_points = points;
      quality_points = course.credit_units * points;
    }

-- the loop of `_totals`
totals_from : Institution → ℕ × ℕ → List TranscriptRow → ℕ × ℕ
totals_from institution acc [] = acc
totals_from institution (quality, units) (row ∷ rows) =
    totals_from institution
      (quality + units_of row * points_for_letter institution row.score.grade, units + units_of row)
      rows

unfoldable pub totals : Institution → List TranscriptRow → ℕ × ℕ
unfolding totals_from points_for_letter
totals institution rows = totals_from institution (0, 0) rows

unfoldable pub gpa : ℕ × ℕ → Option ℕ
unfolding half_up
gpa (quality_points, credit_units) =
    if credit_units == 0 then none else some (half_up quality_points credit_units)

pub record TermSummary : Type 0 where
  pub session : ℕ
  pub semester : ℕ
  pub courses : List CourseLine
  pub quality_points : ℕ
  pub credit_units : ℕ
  pub gpa : Option ℕ

abbrev pub in_term : ℕ → ℕ → TranscriptRow → Bool
in_term session semester row =
    row.result.session.id == session && row.result.semester.id == semester

unfoldable pub term_summary :
    Db → Institution → ℕ → Session → Semester → Option ResultStatus → TermSummary
unfolding totals course_line official_rows gpa
term_summary db institution student session semester status =
    let rows =
      filter (in_term session.id semester.id) (official_rows db institution student status) in
    let t = totals institution rows in
    record {
      session = session.id;
      semester = semester.id;
      courses = map (course_line institution) rows;
      quality_points = t.0;
      credit_units = t.1;
      gpa = gpa t;
    }

-- `attempts`, a dict from a course to its rows, in the order of first appearance
abbrev pub Attempts : Type 0
Attempts = List (ℕ × List TranscriptRow)

abbrev pub course_of : TranscriptRow → ℕ
course_of row = row.result.course.id

-- `attempts.setdefault(row.result.course_id, []).append(row)`
add_attempt : TranscriptRow → Attempts → Attempts
add_attempt row [] = (course_of row, row ∷ []) ∷ []
add_attempt row ((course, rows) ∷ groups) =
    if course == course_of row
    then (course, rows ++ row ∷ []) ∷ groups
    else (course, rows) ∷ add_attempt row groups

attempts_from : Attempts → List TranscriptRow → Attempts
attempts_from groups [] = groups
attempts_from groups (row ∷ rows) = attempts_from (add_attempt row groups) rows

unfoldable pub attempts_by_course : List TranscriptRow → Attempts
unfolding attempts_from add_attempt
attempts_by_course rows = attempts_from [] rows

-- `key(a) < key(b)` for the key of `_best_attempt`
abbrev pub worse : Institution → TranscriptRow → TranscriptRow → Bool
worse institution a b =
    let p = points_for_letter institution a.score.grade in
    let q = points_for_letter institution b.score.grade in
    ltb p q
    || p == q
      && (ltb a.score.total b.score.total
          || a.score.total == b.score.total && ltb a.score.created_at b.score.created_at)

-- Python's `max`: the first of the greatest
best_from : Institution → TranscriptRow → List TranscriptRow → TranscriptRow
best_from institution best [] = best
best_from institution best (row ∷ rows) =
    best_from institution (if worse institution best row then row else best) rows

-- `_best_attempt` of a group, which has a row
best_attempts : Institution → Attempts → List TranscriptRow
best_attempts institution [] = []
best_attempts institution ((course, []) ∷ groups) = best_attempts institution groups
best_attempts institution ((course, row ∷ rows) ∷ groups) =
    best_from institution row rows ∷ best_attempts institution groups

unfoldable pub best_by_course : Institution → List TranscriptRow → List TranscriptRow
unfolding best_attempts best_from attempts_by_course
best_by_course institution rows = best_attempts institution (attempts_by_course rows)

pub record CourseName : Type 0 where
  pub code : Text
  pub title : Text

abbrev pub name_of : TranscriptRow → CourseName
name_of row = record { code = row.result.course.code; title = row.result.course.title }

abbrev pub by_code : CourseName → CourseName → Bool
by_code a b = le_text a.code b.code

-- the best attempts that stay below the carryover pass mark
abbrev pub failing : Institution → TranscriptRow → Bool
failing institution row = ltb row.score.total institution.carryover_pass_mark

unfoldable pub outstanding_carryovers : Db → Institution → ℕ → List CourseName
unfolding best_by_course official_rows
outstanding_carryovers db institution student = sort_by by_code (
    map name_of (
      filter (failing institution)
        (best_by_course institution (official_rows db institution student none))))

pub record CumulativeSummary : Type 0 where
  pub method : CarryoverMethod
  pub quality_points : ℕ
  pub credit_units : ℕ
  pub cgpa : Option ℕ

counted_rows : CarryoverMethod → Institution → List TranscriptRow → List TranscriptRow
counted_rows highest_only institution rows = best_by_course institution rows
counted_rows all_attempts institution rows = rows

unfoldable pub cumulative_summary : Db → Institution → ℕ → Option ResultStatus → CumulativeSummary
unfolding counted_rows totals gpa official_rows best_by_course
cumulative_summary db institution student status =
    let rows = official_rows db institution student status in
    let method = institution.carryover_cgpa_method in
    let t = totals institution (counted_rows method institution rows) in
    record { method = method; quality_points = t.0; credit_units = t.1; cgpa = gpa t }
