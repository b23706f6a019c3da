-- ===== src/Cbt/Finalizing/Frozen.antt =====
-- A settled attempt stays as it is while other attempts are settled.
use senet.Prelude.{
  ℕ, Bool, first, ◌≤◌, ◌<◌, true, false, ◌||◌, not, Option, none, some, List, [], ◌∷◌, ◌==◌, ◌≡◌,
  ◌≢◌, refl, sym, ap, arith, ltb, leb, Member, All-member, if_ind,
}
use mathlib.Core.Path.{subst}
use senet.Prelude.Keys.{
  IsKeyed, IsKeyed-save, AllBelow, AllBelow-save, AllBelow-mono, Member-save, keyed_unique,
}
use senet.Exec.{or_raise_state, Result, does_not_exist}
use senet.Cbt.{in_progress, eq_attempt_status, ExamAttempt, Runtime}
use senet.Cbt.Finalizing.{
  attempt_key, finalize, lock_in_progress, finalize_late, finalize_if_expired, finalize_each,
  finalize_expired_attempts, candidate_ids, refresh,
}
use senet.Cbt.Finalizing.Settled.{settled_row, finalize-attempts, finalize-rest, lock-Member}
use senet.Database.{Db}

abbrev pub IsClosed : ExamAttempt → Type 0
IsClosed x = eq_attempt_status x.status in_progress ≡ false

-- attempts with unique keys below the next fresh one, of which `x` is one
pub record Holds (x : ExamAttempt) (db : Db) : Type 0 where
  pub keyed : IsKeyed attempt_key db.attempts
  pub below : AllBelow attempt_key db.next_id db.attempts
  pub kept : Member x db.attempts

-- a call that leaves the attempts alone
pub Holds-same :
    (x : ExamAttempt) (a b : Db)
    → b.attempts ≡ a.attempts
    → a.next_id ≤ b.next_id
    → Holds x a
    → Holds x b
Holds-same x a b e le h = record {
  keyed = subst (IsKeyed attempt_key) (sym e) h.keyed;
  below =
      subst (AllBelow attempt_key b.next_id) (sym e)
        (AllBelow-mono attempt_key a.next_id b.next_id a.attempts le h.below);
  kept = subst (Member x) (sym e) h.kept;
}

module _ (rt : Runtime) (x : ExamAttempt) (closed : IsClosed x) where
  finalize-Holds :
      (auto : Bool) (l : ExamAttempt) (db : Db)
      → Member l db.attempts
      → eq_attempt_status l.status in_progress ≡ true
      → Holds x db
      → Holds x (finalize rt auto l db)
  finalize-Holds auto l db m opened h =
      let row = settled_row rt auto l db in
      let next = (finalize rt auto l db).next_id in
      let other : x.id ≢ l.id = λ e.
        let same : x ≡ l = keyed_unique attempt_key db.attempts h.keyed h.kept m e in
        cc (ap (λ (a : ExamAttempt). eq_attempt_status a.status in_progress) same) in
      let rest = finalize-rest rt auto l db in
      let low : l.id < db.next_id = All-member (λ a. a.id < db.next_id) m h.below in
      let saved = IsKeyed-save attempt_key row db.attempts h.keyed in
      let wider = AllBelow-mono attempt_key db.next_id next db.attempts rest.0 h.below in
      let lower =
        AllBelow-save attempt_key next row db.attempts (omega (arith, low, rest.0)) wider in
      let e = sym (finalize-attempts rt auto l db) in
      record {
        keyed = subst (IsKeyed attempt_key) e saved;
        below = subst (AllBelow attempt_key next) e lower;
        kept = subst (Member x) e (Member-save attempt_key row db.attempts h.kept other);
      }

  pub finalize_locked-Holds :
      (auto : Bool) (id : ℕ) (db : Db) {l : ExamAttempt}
      → lock_in_progress id db ≡ some l
      → Holds x db
      → Holds x (finalize rt auto l db)
  finalize_locked-Holds auto id db {l} e h =
      let (m, _, opened) = lock-Member id db e in finalize-Holds auto l db m opened h

  pub finalize_late-Holds :
      (id : ℕ) (db : Db) → Holds x db → Holds x (finalize_late rt (lock_in_progress id db) db)
  finalize_late-Holds id db h = late_of (lock_in_progress id db) refl
    where
      late_of :
          (o : Option ExamAttempt) → lock_in_progress id db ≡ o → Holds x (finalize_late rt o db)
      late_of none e = h
      late_of (some l) e =
          if_ind (Holds x) (ltb l.deadline db.now) (λ _. finalize_locked-Holds true id db e h)
            (λ _. h)

  pub refresh-Holds :
      (attempt : ExamAttempt) → (db : Db) → Holds x db → Holds x (refresh attempt db).1
  refresh-Holds attempt db h =
      subst (Holds x)
        (sym (or_raise_state (first (λ a. a.id == attempt.id) db.attempts) does_not_exist db)) h

  pub finalize_if_expired-Holds :
      (attempt : ExamAttempt)
      → (db : Db) → Holds x db
      → Holds x (finalize_if_expired rt attempt db).1
  unfolding finalize_if_expired
  finalize_if_expired-Holds attempt db h =
      if_ind (λ (r : Result ExamAttempt × Db). Holds x r.1)
        (not (eq_attempt_status attempt.status in_progress) || leb db.now attempt.deadline) (λ _. h)
        (λ _.
          refresh-Holds attempt (finalize_late rt (lock_in_progress attempt.id db) db)
            (finalize_late-Holds attempt.id db h))

  finalize_each-Holds :
      (ids : List ℕ) (n : ℕ) (db : Db) → Holds x db → Holds x (finalize_each rt ids (n, db)).1
  unfolding finalize_each
  finalize_each-Holds [] n db h = h
  finalize_each-Holds (id ∷ ids) n db h =
      finalize_each-Holds ids _ (finalize_late rt (lock_in_progress id db) db)
        (finalize_late-Holds id db h)

  pub finalize_expired_attempts-Holds :
      (limit : ℕ) (db : Db) → Holds x db → Holds x (finalize_expired_attempts rt limit db).1
  unfolding finalize_expired_attempts
  finalize_expired_attempts-Holds limit db h = finalize_each-Holds (candidate_ids limit db) 0 db h
