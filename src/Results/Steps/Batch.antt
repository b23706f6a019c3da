-- ===== src/Results/Steps/Batch.antt =====
-- `batch_ratify` of backend/results/services.py: all of its sheets or none.
use senet.Prelude.{
  ℕ, Bool, true, false, not, List, [], ◌∷◌, ◌≡◌, ◌≢◌, refl, sym, ap, ◌∙◌, inl, inr, arith, All,
  Member, map, first-Member, first-test,
}
use mathlib.Core.Path.{subst}
use senet.Prelude.Keys.{Member-save_new}
use senet.Prelude.Text.{Text}
use senet.Exec.{
  check_ok, check_rollback, Error, Result, Result-cases, ok, err, validation, Exec, pure, atomic,
  atomic_ok, atomic-ok, atomic_rollback, settle_err, continue, continue_ok, continue_err, ◌>>=◌,
  ◌>>◌, check,
}
use senet.Accounts.{User}
use senet.Results.{CourseResult}
use senet.Results.Status.{ratified_by_senate}
use senet.Results.Rows.{result_key, for_actor}
use senet.Results.Pipeline.{transition_result, ratify_all, batch_ratify, no_ids}
use senet.Results.Pipeline.Moves.{transition_ok}
use senet.Results.Steps.{Step, unchanged, Steps, start, next}
use senet.Results.Steps.Calls.{transition-Step}
use senet.Results.Steps.History.{Steps-ratified}
use senet.Database.{Db}

pub Steps-append : {a b c : Db} → Steps a b → Steps b c → Steps a c
Steps-append r start = r
Steps-append r (next s t) = next (Steps-append r s) t

pub one : {a b : Db} → Step a b → Steps a b
one s = next start s

-- what is done with the rows leaves the tables as they are
continue-pure :
    {A B : Type 0} (r : Result A × Db) (f : A → B) → (continue r (λ a. pure (f a))).1 ≡ r.1
continue-pure (ok a, db) f = refl
continue-pure (err e, db) f = refl

check-Steps :
    {A : Type 0} (t : Bool) (e : Error) (m : Exec Db A) (db : Db)
    → Steps db (m db).1
    → Steps db ((check t e >> m) db).1
check-Steps true e m db s = s
check-Steps false e m db s = start

atomic-Steps : {A : Type 0} (m : Exec Db A) (db : Db) → Steps db (m db).1 → Steps db (atomic m db).1
atomic-Steps m db s = elim (Result-cases (m db).0) [
  | inl (a, h) ↦ subst (λ r. Steps db r.1) (sym (atomic_ok m db (atomic-ok m db h))) s
  | inr (e, h) ↦ one (unchanged (settle_err db (m db) h))
]

continue_map :
    {A B : Type 0} (r : Result A × Db) (f : A → B) {b : B}
    → (continue r (λ a. pure (f a))).0 ≡ ok b
    → (a : A) × (r.0 ≡ ok a) × (b ≡ f a)
continue_map (ok a, db) f h = (a, refl, cc)
continue_map (err e, db) f h = cc

-- The rows are those of the keys, each ratified and stored so.
abbrev AreRatified : List ℕ → Db → List CourseResult → Type 0
AreRatified ids db rows =
    (map result_key rows ≡ ids)
    × All (λ r. (r.status ≡ ratified_by_senate) × Member r db.results) rows

module _ (actor : User) (reason : Text) where
  abbrev ratify : ℕ → Exec Db CourseResult
  ratify id = transition_result actor id ratified_by_senate reason

  -- the loop after its first call
  ratify_rest :
      (id : ℕ) (ids : List ℕ) (db : Db) (row : CourseResult)
      → (ratify id db).0 ≡ ok row
      → ratify_all actor reason (id ∷ ids) db
        ≡ continue (ratify_all actor reason ids (ratify id db).1) (λ rows. pure (row ∷ rows))
  unfolding ratify_all
  ratify_rest id ids db row h =
      continue_ok (ratify id db) (λ row. ratify_all actor reason ids >>= λ rows. pure (row ∷ rows))
        h

  ratify_stops :
      (id : ℕ) (ids : List ℕ) (db : Db) (e : Error)
      → (ratify id db).0 ≡ err e
      → (ratify_all actor reason (id ∷ ids) db).1 ≡ (ratify id db).1
  unfolding ratify_all
  ratify_stops id ids db e h =
      continue_err (ratify id db) (λ row. ratify_all actor reason ids >>= λ rows. pure (row ∷ rows))
        h

  -- the sheet that a call of the loop leaves behind
  ratify_row :
      (id : ℕ) (db : Db) (row : CourseResult)
      → (ratify id db).0 ≡ ok row
      → (row.id ≡ id) × (row.status ≡ ratified_by_senate) × Member row (ratify id db).1.results
  ratify_row id db row h =
      let (sheet, rule, found, move) = transition_ok actor id ratified_by_senate reason db h in
      let m = first-Member (for_actor actor id) db.results found in
      let t = first-test (for_actor actor id) db.results found in
      let same : sheet.id ≡ id = ground arith in
      (
        ap result_key move.row_lem ∙ same,
        ap (λ r. r.status) move.row_lem,
        subst (λ d. Member row d.results) (sym move.after_lem)
            (Member-save_new result_key sheet row db.results m (sym (ap result_key move.row_lem))),
      )

  ratify_all-Steps : (ids : List ℕ) (db : Db) → Steps db (ratify_all actor reason ids db).1
  unfolding ratify_all
  ratify_all-Steps [] db = start
  ratify_all-Steps (id ∷ ids) db =
      let step = one (transition-Step actor id ratified_by_senate reason db) in
      elim (Result-cases (ratify id db).0) [
        | inr (e, h) ↦ subst (λ d. Steps db d) (sym (ratify_stops id ids db e h)) step
        | inl (row, h) ↦
            let rest = ratify_all actor reason ids (ratify id db).1 in
            subst (λ d. Steps db d)
              (sym (
                ap (λ r. r.1) (ratify_rest id ids db row h)
                ∙ continue-pure rest (λ rows. row ∷ rows)))
              (Steps-append step (ratify_all-Steps ids (ratify id db).1))
      ]

  ratify_cons :
      (id : ℕ) (ids : List ℕ) (db : Db) (all : List CourseResult)
      → (ratify_all actor reason (id ∷ ids) db).0 ≡ ok all
      → (row : CourseResult) × (rows : List CourseResult) × ((ratify id db).0 ≡ ok row)
        × ((ratify_all actor reason ids (ratify id db).1).0 ≡ ok rows)
        × (all ≡ row ∷ rows)
        × ((ratify_all actor reason (id ∷ ids) db).1
            ≡ (ratify_all actor reason ids (ratify id db).1).1)
  unfolding ratify_all
  ratify_cons id ids db all h =
      let rest = ratify_all actor reason ids (ratify id db).1 in
      elim (Result-cases (ratify id db).0) [
        | inr (e, f) ↦ ground arith
        | inl (row, f) ↦
            let call = ratify_rest id ids db row f in
            let (rows, g, e) =
              continue_map rest (λ rows. row ∷ rows) (ap (λ r. r.0) (sym call) ∙ h) in
            (row, rows, f, g, e, ap (λ r. r.1) call ∙ continue-pure rest (λ rows. row ∷ rows))
      ]

  ratify_all_ok :
      (ids : List ℕ) (db : Db) (rows : List CourseResult)
      → (ratify_all actor reason ids db).0 ≡ ok rows
      → AreRatified ids (ratify_all actor reason ids db).1 rows
  unfolding ratify_all
  ratify_all_ok [] db rows h =
      let e : [] ≡ rows = cc h in subst (λ rs. AreRatified [] db rs) e (refl, tt)
  ratify_all_ok (id ∷ ids) db all h =
      let (row, rows, head, tail, e, after) = ratify_cons id ids db all h in
      let (keys, stored) = ratify_all_ok ids (ratify id db).1 rows tail in
      let (k, q, m) = ratify_row id db row head in
      let kept = Steps-ratified row (ratify_all-Steps ids (ratify id db).1) q m in
      subst (λ rs. AreRatified (id ∷ ids) (ratify_all actor reason (id ∷ ids) db).1 rs) (sym e)
        (subst (λ d. AreRatified (id ∷ ids) d (row ∷ rows)) (sym after)
          (cc (k, keys), ((q, kept), stored)))

pub batch_ratify-Steps :
    (actor : User) (ids : List ℕ) (reason : Text) (db : Db)
    → Steps db (batch_ratify actor ids reason db).1
unfolding batch_ratify
batch_ratify-Steps actor ids reason db =
    check-Steps (not (no_ids ids)) (validation ("result_ids" ∷ []))
      (atomic (ratify_all actor reason ids)) db
      (atomic-Steps (ratify_all actor reason ids) db (ratify_all-Steps actor reason ids db))

-- A batch that is refused at any sheet leaves every table as it was.
pub batch_ratify_error :
    (actor : User) (ids : List ℕ) (reason : Text) (db : Db) {e : Error}
    → (batch_ratify actor ids reason db).0 ≡ err e
    → (batch_ratify actor ids reason db).1 ≡ db
unfolding batch_ratify
batch_ratify_error actor ids reason db h =
    check_rollback (not (no_ids ids)) (validation ("result_ids" ∷ []))
      (atomic (ratify_all actor reason ids)) db (atomic_rollback (ratify_all actor reason ids) db) h

-- A batch that returns gives back the sheets asked for, in that order, each of them ratified and
-- stored so; at least one was asked for.
pub batch_ratify_ok :
    (actor : User) (ids : List ℕ) (reason : Text) (db : Db) {rows : List CourseResult}
    → (batch_ratify actor ids reason db).0 ≡ ok rows
    → (ids ≢ [])
      × (map result_key rows ≡ ids)
      × All
          (λ r.
            (r.status ≡ ratified_by_senate) × Member r (batch_ratify actor ids reason db).1.results)
          rows
unfolding batch_ratify
batch_ratify_ok actor ids reason db {rows} h =
    let body = ratify_all actor reason ids in
    let (asked, e) =
      check_ok (not (no_ids ids)) (validation ("result_ids" ∷ [])) (atomic body) db h in
    let h' : (atomic body db).0 ≡ ok rows = ap (λ r. r.0) (sym e) ∙ h in
    let done = atomic_ok body db h' in
    let (keys, stored) = ratify_all_ok actor reason ids db rows (ap (λ r. r.0) (sym done) ∙ h') in
    (
      λ n. ground (arith, n),
      keys,
      subst (λ d. All (λ r. (r.status ≡ ratified_by_senate) × Member r d.results) rows)
          (sym (ap (λ r. r.1) (e ∙ done))) stored,
    )
