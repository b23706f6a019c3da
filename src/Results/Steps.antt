-- ===== src/Results/Steps.antt =====
-- What one service call can do to the tables of results: a step relation. The modules below show
-- that every call makes such a step, and what the steps keep.
pub mod Sound
pub mod Calls
pub mod Scoring
pub mod Correcting
pub mod Amending
pub mod History
pub mod Frozen
pub mod Trail
pub mod Service
pub mod Batch
use senet.Prelude.{
  ℕ, ◌+◌, Bool, true, false, Option, none, some, List, [], ◌∷◌, ◌++◌, ◌≡◌, ◌≢◌, Member, exists,
  save,
}
use senet.Prelude.Text.{Text}
use senet.Results.{
  CourseResult, StudentScore, ResultAmendment, ResultAuditLog, ExternalExaminerReport, Notice,
  of_status,
}
use senet.Results.Status.{
  ResultStatus, draft, ratified_by_senate, eq_status, is_editable, AmendmentStatus, pending_hod,
  dean_approved, applied,
}
use senet.Results.Rows.{stored_is, result_key, score_key, amendment_key, is_current_for}
use senet.Results.Pipeline.{transitions, moved}
use senet.Results.Scores.{sheet_of}
use senet.Results.Amendments.{amendment_transitions}
use senet.Database.{Db}

-- the row that an applied amendment adds
abbrev pub superseding : ResultAmendment → StudentScore → ℕ → ℕ → ℕ → StudentScore
superseding amendment original id institution now = record {
  id = id;
  institution_id = institution;
  result_id = amendment.result_id;
  student_id = amendment.student_id;
  ca_score = amendment.proposed_ca_score;
  exam_score = amendment.proposed_exam_score;
  total = amendment.proposed_total;
  grade = amendment.proposed_grade;
  supersedes = some original.id;
  is_current = true;
  created_at = now;
}

-- the row that an amendment retires
abbrev pub retired : StudentScore → StudentScore
retired original = record original { is_current = false }

-- `a` before and `b` after
pub data Step (a b : Db) : Type 0 where
  unchanged : b ≡ a → Step a b
  sheet_created :
      (row : CourseResult) (entry : ResultAuditLog)
      → row.id ≡ a.next_id
      → row.status ≡ draft
      → exists (sheet_of row.course.id row.session.id row.semester.id) a.results ≡ false
      → b ≡ record a {
        results = a.results ++ row ∷ [];
        audit = a.audit ++ entry ∷ [];
        next_id = a.next_id + 1;
      }
      → Step a b
  sheet_moved :
      (sheet : CourseResult) (to_status : ResultStatus) (reason : Text) (entry : ResultAuditLog)
      (sent : List Notice)
      → Member sheet a.results
      → transitions sheet.status to_status ≢ none
      → stored_is (λ s. eq_status s ratified_by_senate) sheet.id a ≡ false
      → entry.result_id ≡ sheet.id
      → entry.after ≡ of_status to_status
      → b ≡ record a {
        results = save result_key (moved sheet to_status reason) a.results;
        audit = a.audit ++ entry ∷ [];
        outbox = a.outbox ++ sent;
      }
      → Step a b
  score_added :
      (row : StudentScore) (entry : ResultAuditLog)
      → row.id ≡ a.next_id
      → row.total ≡ row.ca_score + row.exam_score
      → exists (is_current_for row.result_id row.student_id) a.scores ≡ false
      → stored_is is_editable row.result_id a ≡ true
      → b ≡ record a {
        scores = a.scores ++ row ∷ [];
        audit = a.audit ++ entry ∷ [];
        next_id = a.next_id + 1;
      }
      → Step a b
  score_changed :
      (old : StudentScore) (ca exam : ℕ) (grade : Text) (entry : ResultAuditLog)
      → Member old a.scores
      → stored_is is_editable old.result_id a ≡ true
      → b ≡ record a {
        scores =
            save score_key
              (record old { ca_score = ca; exam_score = exam; total = ca + exam; grade = grade })
              a.scores;
        audit = a.audit ++ entry ∷ [];
      }
      → Step a b
  amendment_raised :
      (row : ResultAmendment) (entry : ResultAuditLog)
      → row.id ≡ a.next_id
      → row.proposed_total ≡ row.proposed_ca_score + row.proposed_exam_score
      → row.status ≡ pending_hod
      → b ≡ record a {
        amendments = a.amendments ++ row ∷ [];
        audit = a.audit ++ entry ∷ [];
        next_id = a.next_id + 1;
      }
      → Step a b
  amendment_moved :
      (old : ResultAmendment) (to_status : AmendmentStatus) (reason : Text) (entry : ResultAuditLog)
      → Member old a.amendments
      → amendment_transitions old.status to_status ≢ none
      → to_status ≢ applied
      → b ≡ record a {
        amendments =
            save amendment_key
              (record old { status = to_status; returned_reason = reason })
              a.amendments;
        audit = a.audit ++ entry ∷ [];
      }
      → Step a b
  amendment_applied :
      (old : ResultAmendment) (original : StudentScore) (institution : ℕ)
      (first second : ResultAuditLog)
      → Member old a.amendments
      → old.status ≡ dean_approved
      → Member original a.scores
      → is_current_for old.result_id old.student_id original ≡ true
      → exists
          (is_current_for old.result_id old.student_id)
          (save score_key (retired original) a.scores)
        ≡ false
      → b ≡ record a {
        scores =
            save score_key (retired original) a.scores
            ++ superseding old original a.next_id institution a.now ∷ [];
        amendments =
            save amendment_key
              (record old {
                status = applied;
                returned_reason = [];
                applied_score = some a.next_id;
              })
              a.amendments;
        audit = (a.audit ++ first ∷ []) ++ second ∷ [];
        next_id = a.next_id + 1;
      }
      → Step a b
  report_added :
      (row : ExternalExaminerReport)
      → b ≡ record a { reports = a.reports ++ row ∷ []; next_id = a.next_id + 1 }
      → Step a b

-- any number of steps
pub data Steps (a : Db) : Db → Type 0 where
  start : Steps a a
  next : {b c : Db} → Steps a b → Step b c → Steps a c
