-- ===== src/Grading/Gpa/Attempts.antt =====
-- Grouping attempts by course, and the best of each group.
use senet.Prelude.{
  ℕ, ◌≤◌, true, false, List, [], ◌∷◌, ◌≡◌, ◌≢◌, refl, ◌⊎◌, inl, inr, All, All-member, All-append,
  All_of_member, ◌∙◌, Member, here, there, Member-append_left, Member-append, Member-append_right,
  Member-cons, sym, count, arith, ◌==◌, ==→eq, if_ind, Bool-cases,
}
use mathlib.Core.Path.{subst}
use senet.Tenancy.{Institution}
use senet.Grading.Gpa.{
  TranscriptRow, Attempts, course_of, add_attempt, attempts_from, attempts_by_course, worse,
  best_from, best_attempts, best_by_course,
}

module _ (i : Institution) where
  worse_trans :
      (a b c : TranscriptRow) → worse i a b ≡ false → worse i b c ≡ false → worse i a c ≡ false
  worse_trans a b c h k = ground arith

  worse_irrefl : (a : TranscriptRow) → worse i a a ≡ false
  worse_irrefl a = ground arith

  worse_asym : (a b : TranscriptRow) → worse i a b ≡ true → worse i b a ≡ false
  worse_asym a b h = ground arith

  -- no attempt of the group beats the one picked
  best_from-beats :
      (b : TranscriptRow) (rows : List TranscriptRow)
      → All (λ r. worse i (best_from i b rows) r ≡ false) (b ∷ rows)
  unfolding best_from
  best_from-beats b [] = (worse_irrefl b, tt)
  best_from-beats b (row ∷ rows) =
      if_ind (λ x. All (λ r. worse i (best_from i x rows) r ≡ false) (b ∷ row ∷ rows))
        (worse i b row)
        (λ t.
          let h = best_from-beats row rows in
          (worse_trans (best_from i row rows) row b h.0 (worse_asym b row t), h))
        (λ f.
          let h = best_from-beats b rows in
          (h.0, (worse_trans (best_from i b rows) b row h.0 f, h.1)))

  best_from-Member :
      (b : TranscriptRow) (rows : List TranscriptRow) → Member (best_from i b rows) (b ∷ rows)
  unfolding best_from
  best_from-Member b [] = here
  best_from-Member b (row ∷ rows) = elim (Bool-cases (worse i b row)) [
    | inl t ↦ rw t (there (best_from-Member row rows))
    | inr f ↦ rw f (skip (best_from-Member b rows))
  ]
    where
      skip : {x : TranscriptRow} → Member x (b ∷ rows) → Member x (b ∷ row ∷ rows)
      skip here = here
      skip (there m) = there (there m)

-- the row stands in some group
abbrev Has : TranscriptRow → Attempts → Type 0
Has r [] = ⊥
Has r ((k, rows) ∷ groups) = Member r rows ⊎ Has r groups

-- no group has this course
abbrev Lacks : ℕ → Attempts → Type 0
Lacks k groups = All (λ g. g.0 ≢ k) groups

-- each group holds rows of its own course, and no two groups have one course
abbrev IsGrouped : Attempts → Type 0
IsGrouped [] = Unit
IsGrouped ((k, rows) ∷ groups) = All (λ r. course_of r ≡ k) rows × Lacks k groups × IsGrouped groups

Lacks-add :
    (k : ℕ) (row : TranscriptRow) (groups : Attempts)
    → course_of row ≢ k
    → Lacks k groups
    → Lacks k (add_attempt row groups)
unfolding add_attempt
Lacks-add k row [] ne h = (ne, tt)
Lacks-add k row ((c, rows) ∷ groups) ne h =
    if_ind (Lacks k) (c == course_of row) (λ _. (h.0, h.1))
      (λ _. (h.0, Lacks-add k row groups ne h.1))

IsGrouped-add :
    (row : TranscriptRow) (groups : Attempts)
    → IsGrouped groups
    → IsGrouped (add_attempt row groups)
unfolding add_attempt
IsGrouped-add row [] h = ((refl, tt), tt, tt)
IsGrouped-add row ((c, rows) ∷ groups) h =
    if_ind IsGrouped (c == course_of row)
      (λ t.
        (All-append (λ r. course_of r ≡ c) rows (row ∷ []) h.0 (sym (==→eq _ _ t), tt), h.1, h.2))
      (λ f. (h.0, Lacks-add c row groups (λ e. ground arith) h.1, IsGrouped-add row groups h.2))

Has-add_self : (row : TranscriptRow) (groups : Attempts) → Has row (add_attempt row groups)
unfolding add_attempt
Has-add_self row [] = inl here
Has-add_self row ((c, rows) ∷ groups) =
    if_ind (Has row) (c == course_of row) (λ _. inl (Member-append_right rows (row ∷ []) here))
      (λ _. inr (Has-add_self row groups))

Has-add :
    (r row : TranscriptRow) (groups : Attempts) → Has r groups → Has r (add_attempt row groups)
unfolding add_attempt
Has-add r row [] h = absurd h
Has-add r row ((c, rows) ∷ groups) h =
    if_ind (Has r) (c == course_of row)
      (λ _. elim h [ inl m ↦ inl (Member-append_left rows (row ∷ []) m) | inr l ↦ inr l ])
      (λ _. elim h [ inl m ↦ inl m | inr l ↦ inr (Has-add r row groups l) ])

Has-of_add :
    (r row : TranscriptRow) (groups : Attempts)
    → Has r (add_attempt row groups)
    → Member r (row ∷ []) ⊎ Has r groups
unfolding add_attempt
Has-of_add r row [] h = elim h [ inl m ↦ inl m | inr l ↦ absurd l ]
Has-of_add r row ((c, rows) ∷ groups) h =
    if_ind (λ g. Has r g → Member r (row ∷ []) ⊎ Has r ((c, rows) ∷ groups)) (c == course_of row)
      (λ _ h. elim h [
        | inl m ↦ elim (Member-append rows (row ∷ []) m) [
          | inl old ↦ inr (inl old)
          | inr new ↦ inl new
        ]
        | inr l ↦ inr (inr l)
      ])
      (λ _ h. elim h [
        | inl m ↦ inr (inl m)
        | inr l ↦ elim (Has-of_add r row groups l) [ inl new ↦ inl new | inr old ↦ inr (inr old) ]
      ])
      h

IsGrouped-from :
    (groups : Attempts) (rows : List TranscriptRow)
    → IsGrouped groups
    → IsGrouped (attempts_from groups rows)
unfolding attempts_from
IsGrouped-from groups [] h = h
IsGrouped-from groups (row ∷ rows) h =
    IsGrouped-from (add_attempt row groups) rows (IsGrouped-add row groups h)

Has-from :
    (r : TranscriptRow) (groups : Attempts) (rows : List TranscriptRow)
    → Member r rows ⊎ Has r groups
    → Has r (attempts_from groups rows)
unfolding attempts_from
Has-from r groups [] h = elim h [ inl m ↦ elim m [ ] | inr l ↦ l ]
Has-from r groups (row ∷ rows) h = Has-from r (add_attempt row groups) rows (elim h [
  | inr l ↦ inr (Has-add r row groups l)
  | inl m ↦ elim (Member-cons m) [
    | inl e ↦ inr (subst (λ x. Has x (add_attempt row groups)) (sym e) (Has-add_self row groups))
    | inr later ↦ inl later
  ]
])

Has-of_from :
    (r : TranscriptRow) (groups : Attempts) (rows : List TranscriptRow)
    → Has r (attempts_from groups rows)
    → Member r rows ⊎ Has r groups
unfolding attempts_from
Has-of_from r groups [] h = inr h
Has-of_from r groups (row ∷ rows) h = elim (Has-of_from r (add_attempt row groups) rows h) [
  | inl m ↦ inl (there m)
  | inr l ↦ elim (Has-of_add r row groups l) [
    | inl new ↦ inl (Member-append_left (row ∷ []) rows new)
    | inr old ↦ inr old
  ]
]

-- what `best_attempts` makes of one group that has rows
module _ (i : Institution) where
  -- the pick of some group
  best_attempts-Member :
      (groups : Attempts) {c : TranscriptRow} → Member c (best_attempts i groups) → Has c groups
  unfolding best_attempts
  best_attempts-Member [] m = elim m [ ]
  best_attempts-Member ((k, []) ∷ groups) m = inr (best_attempts-Member groups m)
  best_attempts-Member ((k, row ∷ rows) ∷ groups) m = elim (Member-cons m) [
    | inl e ↦ inl (subst (λ x. Member x (row ∷ rows)) (sym e) (best_from-Member i row rows))
    | inr l ↦ inr (best_attempts-Member groups l)
  ]

  -- every row of a group is matched by the group's pick
  best-covers :
      (groups : Attempts) (r : TranscriptRow)
      → IsGrouped groups
      → Has r groups
      → (c : TranscriptRow) × Member c (best_attempts i groups)
        × (course_of c ≡ course_of r)
        × (worse i c r ≡ false)
  unfolding best_attempts
  best-covers [] r g h = absurd h
  best-covers ((k, []) ∷ groups) r g h = elim h [
    | inl m ↦ elim m [ ]
    | inr l ↦ best-covers groups r g.2 l
  ]
  best-covers ((k, row ∷ rows) ∷ groups) r g h = elim h [
    | inl m ↦
        let same = All-member (λ x. course_of x ≡ k) m g.0 in
        let pick = All-member (λ x. course_of x ≡ k) (best_from-Member i row rows) g.0 in
        (
          best_from i row rows,
          here,
          pick ∙ sym same,
          All-member (λ x. worse i (best_from i row rows) x ≡ false) m (best_from-beats i row rows),
        )
    | inr l ↦ let (c, m, e, w) = best-covers groups r g.2 l in (c, there m, e, w)
  ]

  Lacks-count :
      (k : ℕ) (groups : Attempts)
      → Lacks k groups
      → IsGrouped groups
      → count (λ c. course_of c == k) (best_attempts i groups) ≡ 0
  unfolding best_attempts
  Lacks-count k [] l g = refl
  Lacks-count k ((c, []) ∷ groups) l g = Lacks-count k groups l.1 g.2
  Lacks-count k ((c, row ∷ rows) ∷ groups) l g =
      let pick = All-member (λ x. course_of x ≡ c) (best_from-Member i row rows) g.0 in
      ground (arith, Lacks-count k groups l.1 g.2)

  best_once :
      (k : ℕ) (groups : Attempts)
      → IsGrouped groups
      → count (λ c. course_of c == k) (best_attempts i groups) ≤ 1
  unfolding best_attempts
  best_once k [] g = omega arith
  best_once k ((c, []) ∷ groups) g = best_once k groups g.2
  best_once k ((c, row ∷ rows) ∷ groups) g =
      let pick = All-member (λ x. course_of x ≡ c) (best_from-Member i row rows) g.0 in
      elim (Bool-cases (c == k)) [
        | inl t ↦
            let z = Lacks-count k groups (subst (λ x. Lacks x groups) (==→eq c k t) g.1) g.2 in
            ground arith
        | inr f ↦ ground (arith, best_once k groups g.2)
      ]

-- The picks are attempts of the list, at most one to a course,
-- and each attempt is matched by one of them on its course that it does not beat by points, then
-- total, then time.
pub best_by_course_lem :
    (i : Institution) (rows : List TranscriptRow)
    → let best = best_by_course i rows in
      All (λ c. Member c rows) best
      × ((course : ℕ) → count (λ c. course_of c == course) best ≤ 1)
      × ((r : TranscriptRow)
          → Member r rows
          → (c : TranscriptRow) × Member c best
            × (course_of c ≡ course_of r)
            × (worse i c r ≡ false))
unfolding best_by_course attempts_by_course
best_by_course_lem i rows =
    let groups = attempts_from [] rows in
    let grouped : IsGrouped groups = IsGrouped-from [] rows tt in
    (
      All_of_member (best_attempts i groups) (λ c m.
          elim (Has-of_from c [] rows (best_attempts-Member i groups m)) [
            | inl a ↦ a
            | inr l ↦ absurd l
          ]),
      λ course. best_once i course groups grouped,
      λ r m. best-covers i groups r grouped (Has-from r [] rows (inl m)),
    )
