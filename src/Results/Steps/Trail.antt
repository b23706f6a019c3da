-- ===== src/Results/Steps/Trail.antt =====
-- The audit entries behind the status of a sheet.
use senet.Prelude.{
  ℕ, Bool, true, false, none, List, [], ◌∷◌, ◌++◌, ◌≡◌, ◌≢◌, refl, sym, ap, ◌∙◌, ◌==◌, ◌&&◌,
  ==_refl, exists, save, All, All-append, All-save, All-map, All-member, Member, arith,
}
use mathlib.Core.Path.{subst}
use senet.Prelude.Text.{Text}
use senet.Results.{CourseResult, ResultAuditLog, Snapshot, of_status}
use senet.Results.Status.{
  ResultStatus, draft, submitted_to_hod, approved_by_hod, approved_by_dean, ratified_by_senate,
  returned, eq_status,
}
use senet.Results.Rows.{result_key}
use senet.Results.Pipeline.{transitions, moved}
use senet.Results.Steps.{
  Step, unchanged, sheet_created, sheet_moved, score_added, score_changed, amendment_raised,
  amendment_moved, amendment_applied, report_added, Steps, start, next,
}
use senet.Results.Steps.History.{Extends, Step-audit}
use senet.Database.{Db}

abbrev shows : ResultStatus → Snapshot → Bool
shows status (of_status s) = eq_status s status
shows status _ = false

-- the log has an entry of the sheet's move to a status
abbrev pub logged : List ResultAuditLog → ℕ → ResultStatus → Bool
logged audit id status = exists (λ e. e.result_id == id && shows status e.after) audit

abbrev pub IsLogged : List ResultAuditLog → ℕ → ResultStatus → Type 0
IsLogged audit id status = logged audit id status ≡ true

-- the moves that a sheet in a status has behind it
abbrev pub IsTrailed : List ResultAuditLog → ℕ → ResultStatus → Type 0
IsTrailed audit id draft = Unit
IsTrailed audit id returned = Unit
IsTrailed audit id submitted_to_hod = IsLogged audit id submitted_to_hod
IsTrailed audit id approved_by_hod =
    IsLogged audit id submitted_to_hod × IsLogged audit id approved_by_hod
IsTrailed audit id approved_by_dean =
    IsLogged audit id submitted_to_hod
    × IsLogged audit id approved_by_hod
    × IsLogged audit id approved_by_dean
IsTrailed audit id ratified_by_senate =
    IsLogged audit id submitted_to_hod
    × IsLogged audit id approved_by_hod
    × IsLogged audit id approved_by_dean
    × IsLogged audit id ratified_by_senate

abbrev pub AreTrailed : Db → Type 0
AreTrailed db = All (λ r. IsTrailed db.audit r.id r.status) db.results

IsLogged-append :
    (audit more : List ResultAuditLog) (id : ℕ) (status : ResultStatus)
    → IsLogged audit id status
    → IsLogged (audit ++ more) id status
IsLogged-append [] more id status h = cc
IsLogged-append (e ∷ audit) more id status h = ground (arith, IsLogged-append audit more id status)

IsTrailed-append :
    (audit more : List ResultAuditLog) (id : ℕ) (status : ResultStatus)
    → IsTrailed audit id status
    → IsTrailed (audit ++ more) id status
IsTrailed-append audit more id draft h = tt
IsTrailed-append audit more id returned h = tt
IsTrailed-append audit more id submitted_to_hod h = IsLogged-append audit more id submitted_to_hod h
IsTrailed-append audit more id approved_by_hod h = (
  IsLogged-append audit more id submitted_to_hod h.0,
  IsLogged-append audit more id approved_by_hod h.1,
)
IsTrailed-append audit more id approved_by_dean h = (
  IsLogged-append audit more id submitted_to_hod h.0,
  IsLogged-append audit more id approved_by_hod h.1,
  IsLogged-append audit more id approved_by_dean h.2,
)
IsTrailed-append audit more id ratified_by_senate h = (
  IsLogged-append audit more id submitted_to_hod h.0,
  IsLogged-append audit more id approved_by_hod h.1,
  IsLogged-append audit more id approved_by_dean h.2,
  IsLogged-append audit more id ratified_by_senate h.3,
)

eq_status_refl : (s : ResultStatus) → eq_status s s ≡ true
eq_status_refl s = ground arith

-- the entry of the last move
IsLogged-last :
    (audit : List ResultAuditLog) (entry : ResultAuditLog) (id : ℕ) (status : ResultStatus)
    → entry.result_id ≡ id
    → entry.after ≡ of_status status
    → IsLogged (audit ++ entry ∷ []) id status
IsLogged-last [] entry id status e f =
    let g : shows status entry.after ≡ true = ap (shows status) f ∙ eq_status_refl status in
    let k : (entry.result_id == id) ≡ true = ap (λ n. n == id) e ∙ ==_refl id in ground arith
IsLogged-last (x ∷ audit) entry id status e f =
    ground (arith, IsLogged-last audit entry id status e f)

-- a listed move adds the entry that the new status asks for
IsTrailed-move :
    (audit : List ResultAuditLog) (id : ℕ) (from to : ResultStatus)
    → transitions from to ≢ none
    → IsTrailed audit id from
    → IsLogged audit id to
    → IsTrailed audit id to
IsTrailed-move audit id from to l h g = ground arith

trails_up :
    (rows : List CourseResult) (old new : List ResultAuditLog)
    → Extends old new
    → All (λ r. IsTrailed old r.id r.status) rows
    → All (λ r. IsTrailed new r.id r.status) rows
trails_up rows old new (more, e) h =
    subst (λ l. All (λ r. IsTrailed l r.id r.status) rows) (sym e)
      (All-map (λ r. IsTrailed old r.id r.status) (λ r. IsTrailed (old ++ more) r.id r.status) rows
        (λ r k. IsTrailed-append old more r.id r.status k) h)

-- the sheets as they were, after a step
kept-trails : {a b : Db} → Step a b → b.results ≡ a.results → AreTrailed a → AreTrailed b
kept-trails {a} {b} s e h =
    subst (λ rows. All (λ r. IsTrailed b.audit r.id r.status) rows) (sym e)
      (trails_up a.results a.audit b.audit (Step-audit s) h)

created-trails :
    (a : Db) (row : CourseResult) (entry : ResultAuditLog)
    → row.status ≡ draft
    → AreTrailed a
    → All (λ r. IsTrailed (a.audit ++ entry ∷ []) r.id r.status) (a.results ++ row ∷ [])
created-trails a row entry q h =
    All-append (λ r. IsTrailed (a.audit ++ entry ∷ []) r.id r.status) a.results (row ∷ [])
      (trails_up a.results a.audit (a.audit ++ entry ∷ []) (entry ∷ [], refl) h)
      (subst (λ s. IsTrailed (a.audit ++ entry ∷ []) row.id s) (sym q) tt, tt)

moved-trails :
    (a : Db) (sheet : CourseResult) (to_status : ResultStatus) (reason : Text)
    (entry : ResultAuditLog)
    → Member sheet a.results
    → transitions sheet.status to_status ≢ none
    → entry.result_id ≡ sheet.id
    → entry.after ≡ of_status to_status
    → AreTrailed a
    → All
        (λ r. IsTrailed (a.audit ++ entry ∷ []) r.id r.status)
        (save result_key (moved sheet to_status reason) a.results)
moved-trails a sheet to_status reason entry m listed named after h =
    let audit = a.audit ++ entry ∷ [] in
    let up = trails_up a.results a.audit audit (entry ∷ [], refl) h in
    All-save (λ r. IsTrailed audit r.id r.status) result_key (moved sheet to_status reason)
      a.results
      (IsTrailed-move audit sheet.id sheet.status to_status listed
        (All-member (λ r. IsTrailed audit r.id r.status) m up)
        (IsLogged-last a.audit entry sheet.id to_status named after))
      up

Step-AreTrailed : {a b : Db} → Step a b → AreTrailed a → AreTrailed b
Step-AreTrailed {a} {b} s h = elim s [
  | unchanged e ↦ subst AreTrailed (sym e) h
  | sheet_created row entry _ q _ e ↦ subst AreTrailed (sym e) (created-trails a row entry q h)
  | sheet_moved sheet to_status reason entry _ m listed _ named after e ↦
      subst AreTrailed (sym e) (moved-trails a sheet to_status reason entry m listed named after h)
  | score_added row entry f t x o e ↦
      kept-trails (score_added row entry f t x o e) (ap (λ d. d.results) e) h
  | score_changed old ca exam grade entry m o e ↦
      kept-trails (score_changed old ca exam grade entry m o e) (ap (λ d. d.results) e) h
  | amendment_raised row entry f t q e ↦
      kept-trails (amendment_raised row entry f t q e) (ap (λ d. d.results) e) h
  | amendment_moved old to_status reason entry m l n e ↦
      kept-trails (amendment_moved old to_status reason entry m l n e) (ap (λ d. d.results) e) h
  | amendment_applied old original institution one two m q mo c f e ↦
      kept-trails (amendment_applied old original institution one two m q mo c f e)
        (ap (λ d. d.results) e) h
  | report_added row e ↦ kept-trails (report_added row e) (ap (λ d. d.results) e) h
]

pub Steps-AreTrailed : {a b : Db} → Steps a b → AreTrailed a → AreTrailed b
Steps-AreTrailed start h = h
Steps-AreTrailed (next r s) h = Step-AreTrailed s (Steps-AreTrailed r h)
