-- ===== src/Grading/Standing/Classes.antt =====
-- Degree classes on every CGPA.
use senet.Prelude.{
  ℕ, ◌+◌, ◌≤◌, ◌<◌, Bool, true, false, none, some, List, [], ◌∷◌, ◌≡◌, ◌↔◌, ◌⊎◌, inl, inr, All,
  All-map, All-member, Member, Bool-cases, Option-cases, first, first-Member, first-test, leb→le,
  arith, tests,
}
use mathlib.Core.Path.{subst}
use senet.Prelude.Text.{Text, text}
use senet.Prelude.Sorting.{
  IsSortedBy, sort_by, sort_by-IsSortedBy, sort_by-All, Member-sort_by, sort_by-Member,
}
use senet.Tenancy.{Institution, ClassBand}
use senet.Grading.Standing.{classify, higher, reached, just_below}

-- the first band that passes, in a list sorted downwards, is the highest that passes
first_top :
    (cgpa : ℕ) (bands : List ClassBand) (band : ClassBand)
    → IsSortedBy higher bands
    → first (reached cgpa) bands ≡ some band
    → All (λ b. b.min_cgpa ≤ cgpa → b.min_cgpa ≤ band.min_cgpa) bands
first_top cgpa [] band s e = tt
first_top cgpa (b ∷ bands) band s e = elim (Bool-cases (reached cgpa b)) [
  | inl t ↦
      let p : b ≡ band = ground arith in
      subst (λ x. All (λ c. c.min_cgpa ≤ cgpa → c.min_cgpa ≤ x.min_cgpa) (b ∷ bands)) p
        (
          λ _. omega arith,
          All-map (λ c. higher b c ≡ true) (λ c. c.min_cgpa ≤ cgpa → c.min_cgpa ≤ b.min_cgpa) bands
              (λ c h _. leb→le _ _ h) s.0,
        )
  | inr f ↦ (λ h. absurd (omega tests), first_top cgpa bands band s.1 (ground arith))
]

none_passes :
    (p : ClassBand → Bool) (bands : List ClassBand)
    → first p bands ≡ none
    → All (λ b. p b ≡ false) bands
none_passes p [] e = tt
none_passes p (b ∷ bands) e = (ground arith, none_passes p bands (ground arith))

-- The class of a CGPA is the highest band that it reaches, and "Fail" where it reaches none.
pub classify_name :
    (i : Institution) (cgpa : ℕ)
    → let name = (classify i (some cgpa)).name in
      ((band : ClassBand) × Member band i.classification_bands
        × (name ≡ some band.name)
        × (band.min_cgpa ≤ cgpa)
        × All (λ b. b.min_cgpa ≤ cgpa → b.min_cgpa ≤ band.min_cgpa) i.classification_bands)
      ⊎ (name ≡ some (text "Fail")) × All (λ b. cgpa < b.min_cgpa) i.classification_bands
unfolding classify
classify_name i cgpa =
    let bands = sort_by higher i.classification_bands in
    let sorted : IsSortedBy higher bands =
      sort_by-IsSortedBy higher (λ x y. ground arith) (λ x y z. ground arith)
        i.classification_bands in
    elim (Option-cases (first (reached cgpa) bands)) [
      | inr (band, e) ↦ inl (
        band,
        Member-sort_by higher i.classification_bands (first-Member (reached cgpa) bands e),
        ground arith,
        leb→le _ _ (first-test (reached cgpa) bands e),
        sort_by-All higher _ i.classification_bands (first_top cgpa bands band sorted e),
      )
      | inl e ↦ inr (
        ground arith,
        sort_by-All higher (λ b. cgpa < b.min_cgpa) i.classification_bands
            (All-map (λ b. reached cgpa b ≡ false) (λ b. cgpa < b.min_cgpa) bands
              (λ b h. omega tests) (none_passes (reached cgpa) bands e)),
      )
    ]

-- The review flag is raised exactly where the CGPA falls short of some band by no more than the
-- review margin, and then names a band of the kind; the class is the one it would be under any
-- other margin.
pub classify_borderline :
    (i : Institution) (cgpa : ℕ)
    → let short = (λ (band : ClassBand).
      Member band i.classification_bands
      × (cgpa < band.min_cgpa)
      × (band.min_cgpa ≤ cgpa + i.senate_review_margin)) in
      (((classify i (some cgpa)).is_borderline ≡ true) ↔ ((band : ClassBand) × short band))
      × ((name : Text)
          → (classify i (some cgpa)).borderline_band ≡ some name
          → (band : ClassBand) × short band × (name ≡ band.name))
      × ((margin : ℕ)
          → (classify (record i { senate_review_margin = margin }) (some cgpa)).name
            ≡ (classify i (some cgpa)).name)
unfolding classify
classify_borderline i cgpa =
    let bands = sort_by higher i.classification_bands in
    let p = just_below i.senate_review_margin cgpa in
    elim (Option-cases (first p bands)) [
      | inr (band, e) ↦
          let t = first-test p bands e in
          let m = Member-sort_by higher i.classification_bands (first-Member p bands e) in
          (
            (λ _. (band, (m, ground arith, ground arith)), λ _. ground arith),
            λ name h. (band, (m, ground arith, ground arith), ground arith),
            λ margin. ground arith,
          )
      | inl e ↦
          let no_band = none_passes p bands e in
          (
            (
              λ h. ground arith,
              λ (band, (m, above, near)). absurd (
                  let f =
                    All-member (λ b. p b ≡ false) (sort_by-Member higher i.classification_bands m)
                      no_band in
                  ground arith),
            ),
            λ name h. ground arith,
            λ margin. ground arith,
          )
    ]
