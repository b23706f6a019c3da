-- ===== src/Grading/Gpa/Official.antt =====
-- Which score rows are a student's official attempts, and which attempt is the better one.
use senet.Prelude.{
  ℕ, ◌<◌, true, false, Option, none, some, List, [], ◌∷◌, ◌≡◌, ◌↔◌, ◌⊎◌, inl, inr, arith, ◌==◌,
  ==_refl, first, Member, here, there, Member-cons, Member-filter, filter-Member, ap, sym, ◌∙◌,
  refl, Option-cases, Bool-cases, Member-eq,
}
use mathlib.Core.Path.{subst}
use senet.Prelude.Sorting.{sort_by-Member, Member-sort_by}
use senet.Tenancy.{Institution}
use senet.Results.{StudentScore, CourseResult}
use senet.Results.Status.{ResultStatus, eq_status, eq_status→eq}
use senet.Database.{Db}
use senet.Grading.Scales.{points_for_letter, or_else}
use senet.Grading.Gpa.{
  TranscriptRow, is_official, with_result, joined, earlier, official_rows, worse, status_is,
}

-- the status of the sheets that count: the one asked for, or else the institution's
abbrev pub counted_status : Institution → Option ResultStatus → Option ResultStatus
counted_status i none = i.gpa_source_status
counted_status i (some status) = some status

-- A current score row of the student in the institution, with its sheet, whose status counts.
pub record IsOfficial (db : Db) (i : Institution) (student : ℕ) (status : Option ResultStatus)
    (row : TranscriptRow) : Type 0 where
  pub stored : Member row.score db.scores
  pub on_sheet : first (λ r. r.id == row.score.result_id) db.results ≡ some row.result
  pub of_institution : row.score.institution_id ≡ i.id
  pub of_student : row.score.student_id ≡ student
  pub current : row.score.is_current ≡ true
  pub counts : counted_status i status ≡ some row.result.status

-- the attempt `a` is better than `b`: more points, then a higher total, then the later one
abbrev pub Beats : Institution → TranscriptRow → TranscriptRow → Type 0
Beats i a b =
    let p = points_for_letter i a.score.grade in
    let q = points_for_letter i b.score.grade in
    (q < p)
    ⊎ (p ≡ q)
      × ((b.score.total < a.score.total)
          ⊎ (a.score.total ≡ b.score.total) × (b.score.created_at < a.score.created_at))

pub Beats-worse : (i : Institution) (a b : TranscriptRow) → Beats i a b → worse i b a ≡ true
Beats-worse i a b h = ground arith

worse-Beats : (i : Institution) (a b : TranscriptRow) → worse i a b ≡ true → Beats i b a
worse-Beats i a b h = ground arith

not_worse : (i : Institution) (a b : TranscriptRow) → (Beats i b a → ⊥) → worse i a b ≡ false
not_worse i a b h = elim (Bool-cases (worse i a b)) [
  | inl t ↦ absurd (h (worse-Beats i a b t))
  | inr f ↦ f
]

worse_total :
    (i : Institution) (a b : TranscriptRow)
    → worse i a b ≡ false
    → worse i b a ≡ false
    → a.score.total ≡ b.score.total
worse_total i a b h k = ground arith

-- two attempts that do not beat each other have one total
pub unbeaten_total :
    (i : Institution) (a b : TranscriptRow)
    → (Beats i b a → ⊥)
    → (Beats i a b → ⊥)
    → a.score.total ≡ b.score.total
unbeaten_total i a b h k = worse_total i a b (not_worse i a b h) (not_worse i b a k)

status_is→eq : (o : Option ResultStatus) (s : ResultStatus) → status_is o s ≡ true → o ≡ some s
status_is→eq none s t = cc
status_is→eq (some w) s t = ap some (sym (eq_status→eq s w t))

status_is_refl : (o : Option ResultStatus) (s : ResultStatus) → o ≡ some s → status_is o s ≡ true
status_is_refl none s e = cc
status_is_refl (some w) s e =
    let z : w ≡ s = cc in subst (λ x. eq_status s x ≡ true) (sym z) (==_refl _)

pub counted-or_else :
    (i : Institution) (status : Option ResultStatus)
    → counted_status i status ≡ or_else status i.gpa_source_status
counted-or_else i none = refl
counted-or_else i (some s) = refl

module _ (db : Db) (i : Institution) (student : ℕ) (status : Option ResultStatus)
    (row : TranscriptRow) where
  is_official-IsOfficial :
      is_official i student status row ≡ true
      → Member row.score db.scores
      → first (λ r. r.id == row.score.result_id) db.results ≡ some row.result
      → IsOfficial db i student status row
  is_official-IsOfficial t m f = record {
    stored = m;
    on_sheet = f;
    of_institution = ground arith;
    of_student = ground arith;
    current = ground arith;
    counts = counted-or_else i status ∙ status_is→eq _ _ (ground arith);
  }

  IsOfficial-is_official :
      IsOfficial db i student status row → is_official i student status row ≡ true
  IsOfficial-is_official h =
      let t = status_is_refl _ _ (sym (counted-or_else i status) ∙ h.counts) in
      ground (arith, t, h.of_institution, h.of_student, h.current, ==_refl i.id, ==_refl student)

-- the join of score rows with their sheets
joined-Member :
    (results : List CourseResult) (scores : List StudentScore) {row : TranscriptRow}
    → Member row (joined results scores)
    → Member row.score scores × (first (λ r. r.id == row.score.result_id) results ≡ some row.result)
unfolding joined with_result
joined-Member results [] m = elim m [ ]
joined-Member results (s ∷ scores) {row} m =
    elim (Option-cases (first (λ (r : CourseResult). r.id == s.result_id) results)) [
      | inl e ↦ let (n, f) = joined-Member results scores (rw e at m) in (there n, f)
      | inr (r, e) ↦ elim (Member-cons (rw e at m)) [
        | inl same ↦ (
          subst (λ (t : TranscriptRow). Member t.score (s ∷ scores)) (sym same) here,
          subst
              (λ (t : TranscriptRow).
                first (λ r. r.id == t.score.result_id) results ≡ some t.result)
              (sym same) e,
        )
        | inr later ↦ let (n, f) = joined-Member results scores later in (there n, f)
      ]
    ]

Member-joined :
    (results : List CourseResult) (scores : List StudentScore) (row : TranscriptRow)
    → Member row.score scores
    → first (λ r. r.id == row.score.result_id) results ≡ some row.result
    → Member row (joined results scores)
unfolding joined with_result
Member-joined results [] row m f = elim m [ ]
Member-joined results (s ∷ scores) row m f = elim (Member-cons m) [
  | inl same ↦
      let f' : first (λ r. r.id == s.result_id) results ≡ some row.result =
        subst (λ (t : StudentScore). first (λ r. r.id == t.result_id) results ≡ some row.result)
          same f in
      subst (λ o. Member row (with_result s o (joined results scores))) (sym f')
        (Member-eq (joined results scores)
          (ap (λ (t : StudentScore). record { score = t; result = row.result }) same))
  | inr later ↦
      skip (first (λ r. r.id == s.result_id) results) (Member-joined results scores row later f)
]
  where
    skip :
        (o : Option CourseResult)
        → Member row (joined results scores)
        → Member row (with_result s o (joined results scores))
    skip none m = m
    skip (some r) m = there m

-- `official_rows` holds the official attempts and nothing else.
pub official_rows_lem :
    (db : Db) (i : Institution) (student : ℕ) (status : Option ResultStatus) (row : TranscriptRow)
    → Member row (official_rows db i student status) ↔ IsOfficial db i student status row
unfolding official_rows
official_rows_lem db i student status row = (
  λ m.
      let (t, m') =
        Member-filter (is_official i student status) (joined db.results db.scores)
          (Member-sort_by earlier _ m) in
      let (ms, f) = joined-Member db.results db.scores m' in
      is_official-IsOfficial db i student status row t ms f,
  λ h. sort_by-Member earlier _ (
      filter-Member (is_official i student status) (joined db.results db.scores)
        (Member-joined db.results db.scores row h.stored h.on_sheet)
        (IsOfficial-is_official db i student status row h)),
)
