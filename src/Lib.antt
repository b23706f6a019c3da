-- ===== src/Lib.antt =====
-- A model of the academic core of Senet, the results service of a university: institutions and
-- their rules, course access, continuous assessment, computer-based tests, discussion boards,
-- the approval of results, GPA and standing.
--
-- The program is a Django project. Its services read and write tables; a request is bound to one
-- institution. Here the tables are the record `Db` (Database.antt), a service call is a function
-- from the tables to a result or an error and the tables after it (Exec.antt), and
-- `transaction.atomic` takes the writes back where the call raises.
--
-- - Prelude and its children: lists read as query sets, tables with keys, sorting, texts as code
--   points, whole-number rounding (Prelude/Rounding.antt) and Python's 28-digit decimals
--   (Prelude/Decimal.antt).
-- - Tenancy.antt and Tenancy/Rules.antt: backend/tenancy/models.py (`Institution`, its defaults
--   and `clean`).
-- - Accounts.antt: the rows of backend/accounts/models.py. Accounts/Access.antt and
--   Accounts/Enrolments.antt: backend/accounts/services.py, function by function, by its names.
-- - Assessments.antt, Assessments/Items.antt: backend/assessments/models.py and services.py.
-- - Grading/Scales.antt: backend/grading/scales.py. Grading/Gpa.antt and Grading/Standing.antt:
--   backend/grading/services.py and `can_view_student` of backend/grading/permissions.py.
-- - Results.antt, Results/Status.antt, Results/Rows.antt: backend/results/models.py with the
--   guards on `save` and `delete`. Results/Pipeline.antt, Scores.antt, Amendments.antt,
--   Worklist.antt, Anomaly.antt, Examiners.antt: backend/results/services.py.
--   Results/Pipeline/Authority.antt writes the approval chain out, person by person, and the modules
--   beside it hold the code against it.
-- - Results/Steps.antt: a step relation on the tables of results; the modules under it show that
--   every writing call is a sequence of steps and what the steps keep.
-- - Cbt.antt: backend/cbt/models.py. Cbt/Marking.antt: backend/cbt/grading.py.
--   Cbt/Assembly.antt: backend/cbt/assembly.py. Cbt/Ca.antt: backend/cbt/ca.py. The rest is
--   backend/cbt/services.py: Cbt/Access.antt, Cbt/Authoring.antt with Cbt/Authoring/Checks.antt,
--   Cbt/Attempts.antt, Cbt/Answers.antt with Cbt/Values.antt, and Cbt/Finalizing.antt. What the
--   interpreter provides, `str.lower` and the draws of `SystemRandom`, is the record `Runtime` of
--   Cbt.antt; Cbt/Assembly/Paper.antt names what the theorems rely on, that a sample is a sample
--   and a shuffle a permutation. Cbt/Proctoring.antt with Flagging.antt and Review.antt under it:
--   backend/cbt/proctoring.py, on tables of its own beside the others, with the interpreter's
--   arithmetic on floats as the record `Floats`.
-- - Discussions.antt: backend/discussions/models.py. Discussions/Threads.antt and Replies.antt:
--   backend/discussions/services.py, on tables of their own; a caller's copy of a row may be older
--   than the row, and a save writes the fields it names.
-- - Examples.antt and its children: one course with its people and one sheet, on which the
--   theorems are applied and the calls are run.
--
-- How the parts meet: entering a score asks course access and the CA aggregate, and grades by the
-- scale; a marked test writes the grade of its assessment item; a GPA reads the current scores on
-- sheets in the institution's source status; worklists show what the approval chain waits for.
--
-- Scores, weights, points and averages are whole numbers of hundredths; a score that a request
-- gives is a ℤ, since it may be negative. Keys and times are numbers, and `next_id` gives fresh
-- keys. Rows carry the row of a foreign key that the services only follow. The division of
-- Prelude/Decimal.antt looks for a number of places with fuel 128: a quotient of scores below
-- 1,000 needs at most 28 places and the five digits of its divisor. The digits of a number are
-- written with fuel one above the number, which has fewer digits. Moments of a test are numbers of
-- microseconds, and a call reads the clock once: the tables hold the moment of the call.
--
-- Not modelled: HTTP views and serializers, row locks (a call is one step of the sequence), the
-- integrity report of a test and the generation of questions, notifications beyond what is queued,
-- the tokens of auditors, content, announcements, imports and exports. Data and time stamps that
-- no modelled code reads are left out.
pub mod Prelude
pub mod Exec
pub mod Tenancy
pub mod Accounts
pub mod Assessments
pub mod Grading
pub mod Results
pub mod Cbt
pub mod Database
pub mod Discussions
pub mod Examples
