-- ===== src/Cbt/Finalizing/Swept.antt =====
-- The periodic run leaves no attempt open whose deadline is past.
use senet.Prelude.{
  ℕ, zero, suc, ◌≤◌, Bool, true, false, ◌&&◌, none, some, Option, List, [], ◌∷◌, ◌==◌, ◌≡◌, ◌≢◌,
  refl, sym, ap, ◌∙◌, arith, ltb, Member, here, there, Member-cons, exists, filter, map, length,
  inl, inr, Bool-cases, filter-Member, map-Member, Member-exists, if_ind, save, ==→eq, ==_refl,
  first_exists,
}
use mathlib.Core.Path.{subst}
use senet.Prelude.Sets.{has}
use senet.Prelude.Sorting.{sort_by, sort_by-Member, length-sort_by}
use senet.Prelude.Keys.{IsKeyed, IsKeyed-save, keyed_unique, save-Member}
use senet.Cbt.{in_progress, eq_attempt_status, ExamAttempt, Runtime}
use senet.Cbt.Finalizing.{
  attempt_key, finalize, lock_in_progress, finalize_late, finalize_each, finalize_expired_attempts,
  candidate_ids, is_due, sooner, take,
}
use senet.Cbt.Finalizing.Settled.{
  settled_row, finalize-attempts, finalize-rest, lock-Member, settled-closed,
}
use senet.Database.{Db}

-- in progress after the deadline
abbrev pub is_overdue : ℕ → ExamAttempt → Bool
is_overdue now a = eq_attempt_status a.status in_progress && ltb a.deadline now

module _ (rt : Runtime) where
  late-now : (o : Option ExamAttempt) (db : Db) → (finalize_late rt o db).now ≡ db.now
  late-now none db = refl
  late-now (some l) db =
      if_ind (λ (d : Db). d.now ≡ db.now) (ltb l.deadline db.now)
        (λ _. (finalize-rest rt true l db).1) (λ _. refl)

  late-IsKeyed :
      (o : Option ExamAttempt) (db : Db)
      → IsKeyed attempt_key db.attempts
      → IsKeyed attempt_key (finalize_late rt o db).attempts
  late-IsKeyed none db k = k
  late-IsKeyed (some l) db k =
      if_ind (λ (d : Db). IsKeyed attempt_key d.attempts) (ltb l.deadline db.now)
        (λ _.
          subst (IsKeyed attempt_key) (sym (finalize-attempts rt true l db))
            (IsKeyed-save attempt_key (settled_row rt true l db) db.attempts k))
        (λ _. k)

  -- the key of another row
  other_key : (a b : ℕ) → a ≢ b → (a == b) ≡ false
  other_key a b ne = elim (Bool-cases (a == b)) [ inl t ↦ absurd (ne (==→eq a b t)) | inr f ↦ f ]

  status_of_late :
      (now : ℕ) (a : ExamAttempt)
      → is_overdue now a ≡ true
      → (eq_attempt_status a.status in_progress ≡ true) × (ltb a.deadline now ≡ true)
  status_of_late now a h = ground arith

  -- what is overdue after one settling was so before, and is not the attempt that was settled
  one_settled :
      (id : ℕ) (o : Option ExamAttempt) (db : Db) (a : ExamAttempt)
      → lock_in_progress id db ≡ o
      → IsKeyed attempt_key db.attempts
      → Member a (finalize_late rt o db).attempts
      → is_overdue db.now a ≡ true
      → Member a db.attempts × (a.id ≢ id)
  one_settled id none db a e k m late = (
    m,
    λ same.
        let p : ExamAttempt → Bool = λ x. x.id == id && eq_attempt_status x.status in_progress in
        let t : p a ≡ true = ground (arith, (status_of_late db.now a late).0, same, ==_refl id) in
        let does = Member-exists p db.attempts m t in
        let does_not = first_exists p db.attempts e in cc,
  )
  one_settled id (some l) db a e k m late = elim (Bool-cases (ltb l.deadline db.now)) [
    | inl t ↦
        let d : finalize_late rt (some l) db ≡ finalize rt true l db = rw t refl in
        let row = settled_row rt true l db in
        let m' : Member a (save attempt_key row db.attempts) =
          subst (Member a) (finalize-attempts rt true l db)
            (subst (λ (s : Db). Member a s.attempts) d m) in
        elim (save-Member attempt_key row db.attempts m') [
          | inl same ↦
              let z = ap (λ (x : ExamAttempt). eq_attempt_status x.status in_progress) same in
              let does = (status_of_late db.now a late).0 in
              let does_not = settled-closed rt true l db in cc
          | inr (old, ne) ↦ (old, λ same. ne (same ∙ sym (lock-Member id db e).1))
        ]
    | inr f ↦
        let d : finalize_late rt (some l) db ≡ db = rw f refl in
        let old : Member a db.attempts = subst (λ (s : Db). Member a s.attempts) d m in
        let (ml, lid, _) = lock-Member id db e in
        (
          old,
          λ same.
              let z : a ≡ l = keyed_unique attempt_key db.attempts k old ml (same ∙ sym lid) in
              let moved = ap (λ (x : ExamAttempt). ltb x.deadline db.now) z in
              let does = (status_of_late db.now a late).1 in cc,
        )
  ]

  -- and so on for all the candidates
  each_settled :
      (ids : List ℕ) (n : ℕ) (db : Db) (a : ExamAttempt)
      → IsKeyed attempt_key db.attempts
      → Member a (finalize_each rt ids (n, db)).1.attempts
      → is_overdue db.now a ≡ true
      → Member a db.attempts × (has a.id ids ≡ false)
  unfolding finalize_each
  each_settled [] n db a k m late = (m, refl)
  each_settled (id ∷ ids) n db a k m late =
      let o = lock_in_progress id db in
      let after = finalize_late rt o db in
      let same : is_overdue after.now a ≡ is_overdue db.now a =
        ap (λ now. is_overdue now a) (late-now o db) in
      let (m', rest) = each_settled ids _ after a (late-IsKeyed o db k) m (same ∙ late) in
      let (old, ne) = one_settled id o db a refl k m' late in
      (old, ground (arith, other_key a.id id ne, rest))

take_all : (n : ℕ) (xs : List ExamAttempt) → length xs ≤ n → take n xs ≡ xs
take_all zero [] h = refl
take_all zero (x ∷ xs) h = absurd (omega arith)
take_all (suc n) [] h = refl
take_all (suc n) (x ∷ xs) h = ap (λ l. x ∷ l) (take_all n xs (omega arith))

Member-has : (k : ℕ) (ks : List ℕ) → Member k ks → has k ks ≡ true
Member-has k [] m = elim m [ ]
Member-has k (x ∷ xs) m = elim (Member-cons m) [
  | inl e ↦ ground (arith, ==_refl k)
  | inr l ↦ ground (arith, Member-has k xs l)
]

-- a limit that the due attempts fit in picks every one of them
candidate-Member :
    (limit : ℕ) (db : Db) (a : ExamAttempt)
    → length (filter (is_due db.now) db.attempts) ≤ limit
    → Member a db.attempts
    → is_overdue db.now a ≡ true
    → has a.id (candidate_ids limit db) ≡ true
candidate-Member limit db a fits m late =
    let due = filter (is_due db.now) db.attempts in
    let all : take limit (sort_by sooner due) ≡ sort_by sooner due =
      take_all limit (sort_by sooner due) (let n = length-sort_by sooner due in omega arith) in
    let test : is_due db.now a ≡ true = ground (arith, late) in
    let sorted = sort_by-Member sooner due (filter-Member (is_due db.now) db.attempts m test) in
    subst (λ rows. has a.id (map attempt_key rows) ≡ true) (sym all)
      (Member-has a.id (map attempt_key (sort_by sooner due))
        (map-Member attempt_key (sort_by sooner due) sorted))

no_member-exists :
    (p : ExamAttempt → Bool) (xs : List ExamAttempt)
    → ((a : ExamAttempt) → Member a xs → p a ≡ true → a.id ≢ a.id)
    → exists p xs ≡ false
no_member-exists p [] f = refl
no_member-exists p (x ∷ xs) f = elim (Bool-cases (p x)) [
  | inl t ↦ absurd (f x here t refl)
  | inr e ↦ ground (arith, no_member-exists p xs (λ a m. f a (there m)))
]

-- Where attempts have unique keys and the limit is at least the number of attempts in progress
-- whose deadline has come, one run of the periodic task leaves no attempt in progress whose
-- deadline is past.
pub finalize_expired_attempts-closes :
    (rt : Runtime) (limit : ℕ) (db : Db)
    → IsKeyed attempt_key db.attempts
    → length (filter (is_due db.now) db.attempts) ≤ limit
    → exists (is_overdue db.now) (finalize_expired_attempts rt limit db).1.attempts ≡ false
unfolding finalize_expired_attempts
finalize_expired_attempts-closes rt limit db keyed fits =
    no_member-exists (is_overdue db.now) _ λ a m late.
      let (old, missing) = each_settled rt (candidate_ids limit db) 0 db a keyed m late in
      let there_it_is = candidate-Member limit db a fits old late in cc
