-- ===== src/Cbt/Finalizing/Settled.antt =====
-- Settled attempts, and what the periodic run leaves opened.
use senet.Prelude.{
  ℕ, ◌≤◌, Bool, true, false, ◌&&◌, some, ◌==◌, ◌≡◌, arith, Member, save, first-test, first-Member,
  ==→eq,
}
use senet.Cbt.{in_progress, eq_attempt_status, ExamAttempt, Runtime}
use senet.Cbt.Ca.{sync_ca_grade_for_attempt, upsert_grade}
use senet.Cbt.Finalizing.{attempt_key, settled, grade_objective, finalize, lock_in_progress}
use senet.Database.{Db}

sync-attempts :
    (a : ExamAttempt) (db : Db) → (sync_ca_grade_for_attempt a db).attempts ≡ db.attempts
unfolding sync_ca_grade_for_attempt upsert_grade
sync-attempts a db = ground arith

-- the row that a finalization leaves
abbrev pub settled_row : Runtime → Bool → ExamAttempt → Db → ExamAttempt
settled_row rt auto a db = settled (grade_objective rt.lower a.id db).0 auto db.now a

pub finalize-attempts :
    (rt : Runtime) (auto : Bool) (a : ExamAttempt) (db : Db)
    → (finalize rt auto a db).attempts ≡ save attempt_key (settled_row rt auto a db) db.attempts
unfolding finalize
finalize-attempts rt auto a db =
    let row = settled_row rt auto a db in
    sync-attempts row (record db {
      answers = (grade_objective rt.lower a.id db).1;
      attempts = save attempt_key row db.attempts;
    })

pub settled-closed :
    (rt : Runtime) (auto : Bool) (a : ExamAttempt) (db : Db)
    → eq_attempt_status (settled_row rt auto a db).status in_progress ≡ false
settled-closed rt auto a db = ground arith

-- the supply of keys moves up only, and the clock stands still
pub finalize-rest :
    (rt : Runtime) (auto : Bool) (a : ExamAttempt) (db : Db)
    → (db.next_id ≤ (finalize rt auto a db).next_id) × ((finalize rt auto a db).now ≡ db.now)
unfolding finalize sync_ca_grade_for_attempt upsert_grade
finalize-rest rt auto a db = ground arith

-- the row that a lock finds
pub lock-Member :
    (id : ℕ) (db : Db) {l : ExamAttempt}
    → lock_in_progress id db ≡ some l
    → Member l db.attempts × (l.id ≡ id) × (eq_attempt_status l.status in_progress ≡ true)
lock-Member id db {l} e =
    let t = first-test (λ a. a.id == id && eq_attempt_status a.status in_progress) db.attempts e in
    (
      first-Member (λ a. a.id == id && eq_attempt_status a.status in_progress) db.attempts e,
      ==→eq l.id id (ground arith),
      ground arith,
    )
