-- ===== src/Results/Steps/Service.antt =====
-- The calls of backend/results/services.py that write, and any sequence of them.
use senet.Prelude.{ℕ, refl, Option, none, some, List, [], ◌∷◌, ◌≡◌, Member}
use senet.Prelude.Text.{Text}
use senet.Prelude.Int.{ℤ}
use senet.Exec.{Error, Exec, or_raise, continue, permission_denied}
use senet.Accounts.{User, Course, Session, Semester, Programme}
use senet.Results.{CourseResult, StudentScore}
use senet.Results.Status.{submitted_to_hod, returned, ratified_by_senate, amendment_returned}
use senet.Results.Pipeline.{
  transition_result, submit_result, approve_result, approve_target, return_result, batch_ratify,
}
use senet.Results.Scores.{create_draft_result, record_score}
use senet.Results.Amendments.{
  raise_amendment, amendment_transition, approve_amendment, amendment_approve_target,
  return_amendment,
}
use senet.Results.Examiners.{create_external_examiner_report}
use senet.Results.Steps.{Step, unchanged, Steps, start}
use senet.Results.Steps.Sound.{IsSound, Steps-IsSound}
use senet.Results.Steps.History.{Extends, Steps-audit, Steps-ratified}
use senet.Results.Steps.Trail.{AreTrailed, Steps-AreTrailed}
use senet.Results.Steps.Frozen.{IsKept, Steps-score}
use senet.Results.Steps.Calls.{transition-Step, create_draft-Step}
use senet.Results.Steps.Scoring.{record_score-Step}
use senet.Results.Steps.Batch.{Steps-append, one, batch_ratify-Steps}
use senet.Results.Steps.Correcting.{raise_amendment-Step, create_external_examiner_report-Step}
use senet.Results.Steps.Amending.{amendment_transition-Step}
use senet.Database.{Db}

-- one call with its arguments
pub data Call : Type 0 where
  call_create_draft : User → Course → Session → Semester → Call
  call_record_score : User → ℕ → ℕ → ℤ → Option ℤ → Call
  call_submit : User → ℕ → Call
  call_approve : User → ℕ → Call
  call_return : User → ℕ → Text → Call
  call_batch_ratify : User → List ℕ → Text → Call
  call_raise_amendment : User → ℕ → ℕ → ℤ → ℤ → Text → Call
  call_approve_amendment : User → ℕ → Call
  call_return_amendment : User → ℕ → Text → Call
  call_examiner_report : User → Programme → Session → Semester → Text → Text → ℕ → Text → Call

-- the tables after a call, whether it returns or raises
unfoldable pub perform : Call → Db → Db
unfolding create_draft_result record_score submit_result approve_result return_result batch_ratify
    raise_amendment approve_amendment return_amendment create_external_examiner_report
perform (call_create_draft actor course session semester) db =
    (create_draft_result actor course session semester db).1
perform (call_record_score actor id student exam ca) db =
    (record_score actor id student exam ca db).1
perform (call_submit actor id) db = (submit_result actor id db).1
perform (call_approve actor id) db = (approve_result actor id db).1
perform (call_return actor id reason) db = (return_result actor id reason db).1
perform (call_batch_ratify actor ids reason) db = (batch_ratify actor ids reason db).1
perform (call_raise_amendment actor id student ca exam reason) db =
    (raise_amendment actor id student ca exam reason db).1
perform (call_approve_amendment actor id) db = (approve_amendment actor id db).1
perform (call_return_amendment actor id reason) db = (return_amendment actor id reason db).1
perform (call_examiner_report actor programme session semester name from audit_date remarks) db =
    (create_external_examiner_report actor programme session semester name from audit_date remarks
      db).1

-- calls one after another
unfoldable pub perform_all : List Call → Db → Db
unfolding perform
perform_all [] db = db
perform_all (c ∷ cs) db = perform_all cs (perform c db)

or_raise-Step :
    {A B : Type 0} (o : Option A) (e : Error) (f : A → Exec Db B) (db : Db)
    → ((a : A) → Step db (f a db).1)
    → Step db (continue (or_raise o e db) f).1
or_raise-Step none e f db s = unchanged refl
or_raise-Step (some a) e f db s = s a

approve-Step : (actor : User) (id : ℕ) (db : Db) → Step db (approve_result actor id db).1
unfolding approve_result
approve-Step actor id db =
    or_raise-Step (approve_target actor.role)
      (permission_denied "Your role cannot approve results.")
      (λ to_status. transition_result actor id to_status []) db
      (λ to_status. transition-Step actor id to_status [] db)

approve_amendment-Step :
    (actor : User) (id : ℕ) (db : Db) → Step db (approve_amendment actor id db).1
unfolding approve_amendment
approve_amendment-Step actor id db =
    or_raise-Step (amendment_approve_target actor.role)
      (permission_denied "Your role cannot approve amendments.")
      (λ to_status. amendment_transition actor id to_status []) db
      (λ to_status. amendment_transition-Step actor id to_status [] db)

pub perform-Steps : (c : Call) (db : Db) → Steps db (perform c db)
unfolding perform submit_result return_result return_amendment
perform-Steps (call_create_draft actor course session semester) db =
    one (create_draft-Step actor course session semester db)
perform-Steps (call_record_score actor id student exam ca) db =
    one (record_score-Step actor id student exam ca db)
perform-Steps (call_submit actor id) db = one (transition-Step actor id submitted_to_hod [] db)
perform-Steps (call_approve actor id) db = one (approve-Step actor id db)
perform-Steps (call_return actor id reason) db = one (transition-Step actor id returned reason db)
perform-Steps (call_batch_ratify actor ids reason) db = batch_ratify-Steps actor ids reason db
perform-Steps (call_raise_amendment actor id student ca exam reason) db =
    one (raise_amendment-Step actor id student ca exam reason db)
perform-Steps (call_approve_amendment actor id) db = one (approve_amendment-Step actor id db)
perform-Steps (call_return_amendment actor id reason) db =
    one (amendment_transition-Step actor id amendment_returned reason db)
perform-Steps (call_examiner_report actor programme session semester name from audit_date remarks)
      db =
    one (
      create_external_examiner_report-Step actor programme session semester name from audit_date
        remarks db)

pub perform_all-Steps : (cs : List Call) (db : Db) → Steps db (perform_all cs db)
unfolding perform_all
perform_all-Steps [] db = start
perform_all-Steps (c ∷ cs) db =
    Steps-append (perform-Steps c db) (perform_all-Steps cs (perform c db))

-- Whatever calls are made, in whatever order, whether they return or raise, tables that meet the
-- invariant stay so: keys are unique and below the next one, a course has one sheet in a term, a
-- student has one current score on a sheet, every total is the sum of its parts, also the total
-- that an amendment proposes.
pub perform_all-IsSound : (cs : List Call) (db : Db) → IsSound db → IsSound (perform_all cs db)
perform_all-IsSound cs db h = Steps-IsSound (perform_all-Steps cs db) h

-- Whatever calls are made, the audit log is only added to at its end.
pub perform_all-audit : (cs : List Call) (db : Db) → Extends db.audit (perform_all cs db).audit
perform_all-audit cs db = Steps-audit (perform_all-Steps cs db)

-- Whatever calls are made, a sheet that is ratified stays stored as it is.
pub perform_all-ratified :
    (cs : List Call) (db : Db) (sheet : CourseResult)
    → sheet.status ≡ ratified_by_senate
    → Member sheet db.results
    → Member sheet (perform_all cs db).results
perform_all-ratified cs db sheet q m = Steps-ratified sheet (perform_all-Steps cs db) q m

-- Whatever calls are made from tables that meet the invariant, a score row of a ratified sheet
-- keeps its marks: it is stored as it was, or as it was but no longer current.
pub perform_all-score :
    (cs : List Call) (db : Db) (sheet : CourseResult) (s : StudentScore)
    → IsSound db
    → Member sheet db.results
    → sheet.status ≡ ratified_by_senate
    → s.result_id ≡ sheet.id
    → Member s db.scores
    → IsKept s (perform_all cs db)
perform_all-score cs db sheet s h ms q e m =
    Steps-score sheet s (perform_all-Steps cs db) h ms q e m

-- Whatever calls are made from tables whose sheets have their moves in the log, the sheets have
-- their moves in the log: a ratified sheet has an entry of its submission, of the approval by the
-- HOD, of the approval by the dean and of its ratification, and a sheet in an earlier stage has
-- the entries up to that stage.
pub perform_all-AreTrailed :
    (cs : List Call) (db : Db) → AreTrailed db → AreTrailed (perform_all cs db)
perform_all-AreTrailed cs db h = Steps-AreTrailed (perform_all-Steps cs db) h
