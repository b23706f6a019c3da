-- ===== src/Exec.antt =====
-- Service calls: state passed on, an exception as a value. What was written before an exception
-- stays written, unless the call runs under `transaction.atomic`.
use senet.Prelude.{
  Bool, true, false, Option, none, some, String, List, [], ◌∷◌, ◌≡◌, refl, ◌⊎◌, inl, inr,
}

-- The exceptions of the services: a `ValidationError` with the keys of its detail, or with its
-- message alone where it has no keys.
pub data Error : Type 0 where
  validation : List String → Error
  invalid : String → Error
  permission_denied : String → Error
  not_found : String → Error
  immutable_record : String → Error
  integrity_error index_error does_not_exist value_error : Error

pub data Result {ℓ} (A : Type ℓ) : Type ℓ where
  ok : A → Result A
  err : Error → Result A

pub Result-cases {ℓ} :
    {A : Type ℓ} (r : Result A) → ((a : A) × (r ≡ ok a)) ⊎ ((e : Error) × (r ≡ err e))
Result-cases (ok a) = inl (a, refl)
Result-cases (err e) = inr (e, refl)

abbrev pub Exec {ℓ} : Type ℓ → Type ℓ → Type ℓ
Exec S A = S → Result A × S

module _ {ℓ} {S A : Type ℓ} where
  abbrev pub pure : A → Exec S A
  pure a s = (ok a, s)

  abbrev pub raise : Error → Exec S A
  raise e s = (err e, s)

  abbrev pub gets : (S → A) → Exec S A
  gets f s = (ok (f s), s)

  abbrev pub or_raise : Option A → Error → Exec S A
  or_raise none e = raise e
  or_raise (some a) e = pure a

  pub or_raise_state : (o : Option A) (e : Error) (s : S) → (or_raise o e s).1 ≡ s
  or_raise_state none e s = refl
  or_raise_state (some a) e s = refl

  -- `with transaction.atomic():` a raise takes back every write of the block.
  abbrev pub settle : S → Result A × S → Result A × S
  settle s (ok a, s') = (ok a, s')
  settle s (err e, s') = (err e, s)

  abbrev pub atomic : Exec S A → Exec S A
  atomic m s = settle s (m s)

  -- `except IntegrityError: raise e`
  abbrev recover : Error → Result A × S → Result A × S
  recover e (err integrity_error, s) = (err e, s)
  recover e (r, s) = (r, s)

  abbrev pub on_integrity_error : Exec S A → Error → Exec S A
  on_integrity_error m e s = recover e (m s)

  -- A call under `atomic` that raises leaves the state as it was.
  pub atomic_rollback :
      (m : Exec S A) (s : S) {e : Error} → (atomic m s).0 ≡ err e → (atomic m s).1 ≡ s
  atomic_rollback m s {e} h = go (m s) h
    where
      go : (r : Result A × S) → (settle s r).0 ≡ err e → (settle s r).1 ≡ s
      go (ok a, s') p = cc
      go (err x, s') p = refl

  settle_ok : (s : S) (r : Result A × S) {a : A} → (settle s r).0 ≡ ok a → settle s r ≡ r
  settle_ok s (ok b, s') h = refl
  settle_ok s (err e, s') h = cc

  -- A call under `atomic` that returns is the call itself.
  pub atomic_ok : (m : Exec S A) (s : S) {a : A} → (atomic m s).0 ≡ ok a → atomic m s ≡ m s
  atomic_ok m s h = settle_ok s (m s) h

  pub settle_err : (s : S) (r : Result A × S) {e : Error} → r.0 ≡ err e → (settle s r).1 ≡ s
  settle_err s (ok a, s') h = cc
  settle_err s (err x, s') h = refl

  settle-ok : (s : S) (r : Result A × S) {a : A} → r.0 ≡ ok a → (settle s r).0 ≡ ok a
  settle-ok s (ok b, s') h = h
  settle-ok s (err e, s') h = cc

  pub atomic-ok : (m : Exec S A) (s : S) {a : A} → (m s).0 ≡ ok a → (atomic m s).0 ≡ ok a
  atomic-ok m s h = settle-ok s (m s) h

module _ {ℓ} {S A B : Type ℓ} where
  abbrev pub continue : Result A × S → (A → Exec S B) → Result B × S
  continue (ok a, s) f = f a s
  continue (err e, s) f = (err e, s)

  infixl 5 ◌>>=◌ ◌>>◌
  abbrev pub ◌>>=◌ : Exec S A → (A → Exec S B) → Exec S B
  ◌>>=◌ m f s = continue (m s) f

  abbrev pub ◌>>◌ : Exec S A → Exec S B → Exec S B
  m >> k = m >>= λ _. k

  pub continue_ok :
      (r : Result A × S) (f : A → Exec S B) {a : A} → r.0 ≡ ok a → continue r f ≡ f a r.1
  continue_ok (ok b, s) f h = cc
  continue_ok (err e, s) f h = cc

  pub continue_err :
      (r : Result A × S) (f : A → Exec S B) {e : Error} → r.0 ≡ err e → (continue r f).1 ≡ r.1
  continue_err (ok b, s) f h = cc
  continue_err (err e, s) f h = refl

-- what a call keeps, whether it returns or raises
module _ {S : Type 0} (I : S → Type 0) where
  pub continue_keeps :
      {A B : Type 0} (r : Result A × S) (f : A → Exec S B)
      → I r.1
      → ((a : A) (s : S) → I s → I (f a s).1)
      → I (continue r f).1
  continue_keeps (ok a, s) f h k = k a s h
  continue_keeps (err e, s) f h k = h

  pub settle_keeps : {A : Type 0} (s : S) (r : Result A × S) → I s → I r.1 → I (settle s r).1
  settle_keeps s (ok a, t) h k = k
  settle_keeps s (err e, t) h k = h

module _ {S : Type 0} where
  -- `if not test: raise e`
  abbrev pub check : Bool → Error → Exec S (Unit {0})
  check true e s = (ok tt, s)
  check false e s = (err e, s)

  abbrev pub modify : (S → S) → Exec S (Unit {0})
  modify f s = (ok tt, f s)

  pub check_state : (t : Bool) (e : Error) (s : S) → (check t e s).1 ≡ s
  check_state true e s = refl
  check_state false e s = refl

  -- `if errors: raise ValidationError(errors)`
  abbrev pub check_errors : List String → Exec S (Unit {0})
  check_errors [] s = (ok tt, s)
  check_errors (x ∷ xs) s = (err (validation (x ∷ xs)), s)

  -- what a guard that holds or fails does
  pub check_ok :
      {A : Type 0} (t : Bool) (e : Error) (m : Exec S A) (s : S) {a : A}
      → ((check t e >> m) s).0 ≡ ok a
      → (t ≡ true) × ((check t e >> m) s ≡ m s)
  check_ok true e m s h = (refl, refl)
  check_ok false e m s h = cc

  pub check_rollback :
      {A : Type 0} (t : Bool) (e : Error) (m : Exec S A) (s : S) {x : Error}
      → ((m s).0 ≡ err x → (m s).1 ≡ s)
      → ((check t e >> m) s).0 ≡ err x
      → ((check t e >> m) s).1 ≡ s
  check_rollback true e m s f h = f h
  check_rollback false e m s f h = refl
