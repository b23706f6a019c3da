-- ===== src/Results/Rows.antt =====
-- How result rows are read and written: the manager calls of backend/results/services.py with the
-- guards that backend/results/models.py puts on `save` and `delete`.
use senet.Prelude.{
  ℕ, ◌+◌, Bool, not, ◌&&◌, Option, some, [], ◌∷◌, ◌++◌, ◌==◌, same_key, exists, filter, first, save,
  if◌then◌else◌,
}
use senet.Prelude.Text.{Text}
use senet.Exec.{
  ok, not_found, immutable_record, integrity_error, Exec, raise, gets, modify, or_raise, ◌>>=◌,
}
use senet.Accounts.{User, institution_id}
use senet.Results.{CourseResult, StudentScore, ResultAmendment, ResultAuditLog, Snapshot, of_score}
use senet.Results.Status.{ResultStatus, ratified_by_senate, eq_status, is_editable, AuditAction}
use senet.Database.{Db}

abbrev pub result_key : CourseResult → ℕ
result_key r = r.id

abbrev pub score_key : StudentScore → ℕ
score_key s = s.id

abbrev pub amendment_key : ResultAmendment → ℕ
amendment_key a = a.id

abbrev pub has_id : ℕ → CourseResult → Bool
has_id id r = r.id == id

-- `get(pk=…, institution_id=actor.institution_id)`
abbrev pub for_actor : User → ℕ → CourseResult → Bool
for_actor actor id r = r.id == id && same_key (institution_id actor) (some r.institution.id)

-- `_locked_result`
unfoldable pub locked_result : ℕ → User → Exec Db CourseResult
locked_result id actor = do
  found ← gets (λ db. first (for_actor actor id) db.results)
  or_raise found (not_found "Result not found.")

-- the status stored for a sheet
abbrev pub stored_is : (ResultStatus → Bool) → ℕ → Db → Bool
stored_is p id db = exists (λ r. r.id == id && p r.status) db.results

-- `CourseResult.save` of a row that is already stored
unfoldable pub save_result : CourseResult → Exec Db (Unit {0})
save_result row db =
    if stored_is (λ s. eq_status s ratified_by_senate) row.id db
    then raise (immutable_record "A ratified result is immutable; changes require an amendment.") db
    else (ok tt, record db { results = save result_key row db.results })

-- the row that `is_current` picks out
abbrev pub is_current_for : ℕ → ℕ → StudentScore → Bool
is_current_for result student s = s.result_id == result && s.student_id == student && s.is_current

-- `StudentScore.objects.create`, with `uniq_current_score_per_student`
unfoldable pub insert_score : StudentScore → Exec Db StudentScore
insert_score row db =
    let made = record row { id = db.next_id; created_at = db.now } in
    if row.is_current && exists (is_current_for row.result_id row.student_id) db.scores
    then raise integrity_error db
    else (ok made, record db { scores = db.scores ++ made ∷ []; next_id = db.next_id + 1 })

-- `StudentScore.save` of a stored row; `currency_flip` where only `is_current` is written
unfoldable pub save_score : Bool → StudentScore → Exec Db (Unit {0})
save_score currency_flip row db =
    if not currency_flip && not (stored_is is_editable row.result_id db)
    then raise
        (immutable_record
          "Score rows cannot be edited in place after submission; use a superseding row.")
        db
    else (ok tt, record db { scores = save score_key row db.scores })

-- `StudentScore.delete`
unfoldable pub delete_score : StudentScore → Exec Db (Unit {0})
delete_score row db =
    if stored_is is_editable row.result_id db
    then (ok tt, record db { scores = filter (λ s. not (s.id == row.id)) db.scores })
    else raise (immutable_record "Score rows cannot be deleted after submission.") db

-- `ResultAuditLog.save` of a stored entry, and its `delete`
abbrev pub save_audit : ResultAuditLog → Exec Db (Unit {0})
save_audit entry = raise (immutable_record "Audit log entries are append-only.")

abbrev pub delete_audit : ResultAuditLog → Exec Db (Unit {0})
delete_audit entry = raise (immutable_record "Audit log entries cannot be deleted.")

abbrev pub entry_of :
    CourseResult → User → AuditAction → Option ℕ → Snapshot → Snapshot → Text → ResultAuditLog
entry_of result actor action score before after reason = record {
  institution_id = result.institution.id;
  result_id = result.id;
  score = score;
  actor_id = actor.id;
  action = action;
  before = before;
  after = after;
  reason = reason;
}

-- `_log`
unfoldable pub log :
    CourseResult → User → AuditAction → Option ℕ → Snapshot → Snapshot → Text → Exec Db (Unit {0})
log result actor action score before after reason = modify (λ db. record db {
  audit = db.audit ++ entry_of result actor action score before after reason ∷ [];
})

-- `_score_snapshot`
abbrev pub score_snapshot : StudentScore → Snapshot
score_snapshot s = of_score s.student_id s.ca_score s.exam_score s.total s.grade
