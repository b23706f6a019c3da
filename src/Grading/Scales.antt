-- ===== src/Grading/Scales.antt =====
-- backend/grading/scales.py: lookups on the institution's grade scale.
use senet.Prelude.{
  ℕ, ◌≤◌, ◌<◌, Bool, true, Option, none, some, List, [], ◌∷◌, ◌≡◌, refl, ◌⊎◌, inl, inr, All,
  All-map, All-member, Member, first, first-Member, first-test, last, leb, leb→le, arith,
  Option-cases, Bool-cases, if_ind, if◌then◌else◌, there, here, tests, not_leb→lt, ap, ◌∙◌, ◌≢◌,
}
use mathlib.Core.Path.{subst}
use senet.Prelude.Text.{Text, eq_text}
use senet.Prelude.Sorting.{
  insert_by, sort_by, IsSortedBy, sort_by-IsSortedBy, sort_by-All, Member-sort_by,
}
use senet.Tenancy.{Institution, GradeRow}

abbrev higher : GradeRow → GradeRow → Bool
higher a b = leb b.min_score a.min_score

-- the bands, highest boundary first
unfoldable pub scale_bands : Institution → List GradeRow
scale_bands i = sort_by higher i.grade_scale

abbrev pub or_else {ℓ} : {A : Type ℓ} → Option A → Option A → Option A
or_else (some a) b = some a
or_else none b = b

-- the band of the loop, or `bands[-1]` after it; `none` where the scale is empty (an `IndexError`)
band_for : List GradeRow → ℕ → Option GradeRow
band_for bands score = or_else (first (λ b. leb b.min_score score) bands) (last bands)

abbrev letter_points : Option GradeRow → Option (Text × ℕ)
letter_points none = none
letter_points (some b) = some (b.grade, b.points)

unfoldable pub grade_for_score : Institution → ℕ → Option (Text × ℕ)
unfolding scale_bands band_for
grade_for_score i score = letter_points (band_for (scale_bands i) score)

points_in : List GradeRow → Text → ℕ
points_in [] letter = 0
points_in (row ∷ rows) letter =
    if eq_text row.grade letter then row.points else points_in rows letter

points_in-le :
    (top : ℕ) (scale : List GradeRow) (letter : Text)
    → All (λ row. row.points ≤ top) scale
    → points_in scale letter ≤ top
unfolding points_in
points_in-le top [] letter h = omega arith
points_in-le top (row ∷ scale) letter h = ground (arith, points_in-le top scale letter h.1)

unfoldable pub points_for_letter : Institution → Text → ℕ
unfolding points_in
points_for_letter i letter = points_in i.grade_scale letter

-- The band of a score: the highest whose boundary the score reaches or, where it reaches none,
-- the lowest.
pub record IsBand (i : Institution) (score : ℕ) (row : GradeRow) : Type 0 where
  pub in_scale : Member row i.grade_scale
  pub best :
      (row.min_score ≤ score)
        × All (λ r. r.min_score ≤ score → r.min_score ≤ row.min_score) i.grade_scale
      ⊎ All (λ r. (score < r.min_score) × (row.min_score ≤ r.min_score)) i.grade_scale

abbrev Sorted : List GradeRow → Type 0
Sorted = IsSortedBy higher

-- in a sorted list the first band reached is the highest reached
first_highest :
    (bands : List GradeRow) (score : ℕ) (row : GradeRow)
    → Sorted bands
    → first (λ b. leb b.min_score score) bands ≡ some row
    → All (λ r. r.min_score ≤ score → r.min_score ≤ row.min_score) bands
first_highest [] score row s e = tt
first_highest (b ∷ bands) score row s e = elim (Bool-cases (leb b.min_score score)) [
  | inl t ↦
      let p : b ≡ row = ground arith in
      subst (λ x. All (λ r. r.min_score ≤ score → r.min_score ≤ x.min_score) (b ∷ bands)) p
        (
          λ _. omega arith,
          All-map (λ r. higher b r ≡ true) (λ r. r.min_score ≤ score → r.min_score ≤ b.min_score)
              bands (λ r h _. leb→le _ _ h) s.0,
        )
  | inr f ↦ (λ h. absurd (omega tests), first_highest bands score row s.1 (ground arith))
]

-- where no band is reached the last one is the lowest
last_lowest :
    (bands : List GradeRow) (score : ℕ) (row : GradeRow)
    → Sorted bands
    → first (λ b. leb b.min_score score) bands ≡ none
    → last bands ≡ some row
    → Member row bands × All (λ r. (score < r.min_score) × (row.min_score ≤ r.min_score)) bands
last_lowest [] score row s e l = cc
last_lowest (b ∷ []) score row s e l =
    let p : b ≡ row = ground arith in (subst (λ x. Member x (b ∷ [])) p here, (ground arith, tt))
last_lowest (b ∷ c ∷ bands) score row s e l =
    let (m, low) = last_lowest (c ∷ bands) score row s.1 (ground arith) l in
    let under : higher b row ≡ true = All-member (λ r. higher b r ≡ true) m s.0 in
    (there m, (ground (arith, not_leb→lt b.min_score score), low))

band_for-IsBand :
    (i : Institution) (score : ℕ) (row : GradeRow)
    → band_for (scale_bands i) score ≡ some row
    → IsBand i score row
unfolding scale_bands band_for
band_for-IsBand i score row h =
    let bands = sort_by higher i.grade_scale in
    let sorted : Sorted bands =
      sort_by-IsSortedBy higher (λ x y. ground arith) (λ x y z. ground arith) i.grade_scale in
    elim (Option-cases (first (λ b. leb b.min_score score) bands)) [
      | inr (b, e) ↦
          let p : b ≡ row = ground arith in
          let e' = e ∙ ap some p in
          record {
            in_scale =
                Member-sort_by higher i.grade_scale
                  (first-Member (λ b. leb b.min_score score) bands e');
            best = inl (
              leb→le _ _ (first-test (λ b. leb b.min_score score) bands e'),
              sort_by-All higher _ i.grade_scale (first_highest bands score row sorted e'),
            );
          }
      | inl e ↦
          let (m, low) = last_lowest bands score row sorted e (ground arith) in
          record {
            in_scale = Member-sort_by higher i.grade_scale m;
            best = inr (sort_by-All higher _ i.grade_scale low);
          }
    ]

-- The letter and points of a score are those of its band: the highest band whose boundary it
-- reaches or, where it reaches none, the lowest.
pub grade_for_score-IsBand :
    (i : Institution) (score : ℕ) {letter : Text} {points : ℕ}
    → grade_for_score i score ≡ some (letter, points)
    → (row : GradeRow) × IsBand i score row × (row.grade ≡ letter) × (row.points ≡ points)
unfolding grade_for_score
grade_for_score-IsBand i score h = elim (Option-cases (band_for (scale_bands i) score)) [
  | inl e ↦ ground arith
  | inr (row, e) ↦ (row, band_for-IsBand i score row e, ground arith, ground arith)
]

last_cons {ℓ} : {A : Type ℓ} (x : A) (xs : List A) → last (x ∷ xs) ≢ none
last_cons x [] h = cc
last_cons x (y ∷ ys) h = last_cons y ys h

last-sort_by {ℓ} :
    {A : Type ℓ} (before : A → A → Bool) (xs : List A) → xs ≢ [] → last (sort_by before xs) ≢ none
last-sort_by before [] h = absurd (h refl)
last-sort_by {A} before (x ∷ xs) h = inserted (sort_by before xs)
  where
    inserted : (ys : List A) → last (insert_by before x ys) ≢ none
    inserted [] = last_cons x []
    inserted (y ∷ ys) =
        if_ind (λ l. last l ≢ none) (before x y) (λ _. last_cons x (y ∷ ys))
          (λ _. last_cons y (insert_by before x ys))

-- On a scale with at least one row every score has a grade.
pub grade_for_score_total :
    (i : Institution) (score : ℕ) → i.grade_scale ≢ [] → grade_for_score i score ≢ none
unfolding grade_for_score
grade_for_score_total i score h e = last-sort_by higher i.grade_scale h (ground arith)

IsBand-mono :
    (i : Institution) (s t : ℕ) (x y : GradeRow)
    → s ≤ t
    → IsBand i s x
    → IsBand i t y
    → x.min_score ≤ y.min_score
IsBand-mono i s t x y le bx by = elim bx.best [
  | inr low ↦ (All-member _ by.in_scale low).1
  | inl (reached, _) ↦ elim by.best [
    | inl (_, top) ↦ All-member _ bx.in_scale top (omega arith)
    | inr low ↦ absurd (let h = (All-member _ bx.in_scale low).0 in omega arith)
  ]
]

-- On a scale whose points do not fall as the boundaries rise, a higher score never earns fewer
-- points.
pub grade_for_score_mono :
    (i : Institution) (s t : ℕ) {a b : Text} {p q : ℕ}
    → ((x y : GradeRow)
        → Member x i.grade_scale
        → Member y i.grade_scale
        → x.min_score ≤ y.min_score
        → x.points ≤ y.points)
    → s ≤ t
    → grade_for_score i s ≡ some (a, p)
    → grade_for_score i t ≡ some (b, q)
    → p ≤ q
grade_for_score_mono i s t rising le hs ht =
    let (x, bx, _, px) = grade_for_score-IsBand i s hs in
    let (y, by, _, py) = grade_for_score-IsBand i t ht in
    let h = rising x y bx.in_scale by.in_scale (IsBand-mono i s t x y le bx by) in omega arith

-- no letter is worth more than the best row
pub points_for_letter-le :
    (i : Institution) (letter : Text) (top : ℕ)
    → All (λ row. row.points ≤ top) i.grade_scale
    → points_for_letter i letter ≤ top
unfolding points_for_letter
points_for_letter-le i letter top h = points_in-le top i.grade_scale letter h
