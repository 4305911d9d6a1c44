-- ===== src/Base/Programs.antt =====
-- Go functions that may fail and change a state: a small monad.
use mathlib.Core.Path.{◌≡◌, refl}
use multus_multivpc_cni.Base.Results.{Result, ok, err}
use native.Mathlib.Omega.{arith}

-- A function may fail, and changes the state in any case.
abbrev pub M : Type 0 → Type 0 → Type 0 → Type 0
M S X A = S → Result X A × S

module _ {S X : Type 0} where
  abbrev pub pure : {A : Type 0} → A → M S X A
  pure x s = (ok x, s)

  abbrev pub fail : {A : Type 0} → X → M S X A
  fail x s = (err x, s)

  -- `if err != nil { return fmt.Errorf(…, err) }` after an API call.
  abbrev pub wrap : {E A : Type 0} → (E → X) → M S E A → M S X A
  wrap w call s = let (r, s') = call s in elim r [ ok x ↦ (ok x, s') | err x ↦ (err (w x), s') ]

  infixl 5 ◌>>=◌ ◌>>◌
  abbrev pub ◌>>=◌ : {A B : Type 0} → M S X A → (A → M S X B) → M S X B
  ◌>>=◌ m f s = let (r, s') = m s in elim r [ ok x ↦ f x s' | err x ↦ (err x, s') ]

  abbrev pub ◌>>◌ : {B : Type 0} → M S X (Unit {0}) → M S X B → M S X B
  m >> k = m >>= λ _. k

  -- The same after a call that changes no state.
  abbrev pub check : {E A : Type 0} → (E → X) → Result E A → M S X A
  check w (ok x) s = (ok x, s)
  check w (err e) s = (err (w e), s)

-- A sequence succeeds only if each part does.
pub bind_ok :
    {S X A B : Type 0} (m : M S X A) (f : A → M S X B) (s : S) {b : B}
    → ((m >>= f) s).0 ≡ ok b
    → (x : A) × (t : S) × (m s ≡ (ok x, t)) × ((f x t).0 ≡ ok b)
bind_ok {S = S} {X = X} {A = A} {B = B} m f s {b = b} h = go (m s) h
  where
    go :
        (p : Result X A × S)
        → (elim p.0 as (λ _. Result X B × S) [ ok x ↦ f x p.1 | err e ↦ (err e, p.1) ]).0 ≡ ok b
        → (x : A) × (t : S) × (p ≡ (ok x, t)) × ((f x t).0 ≡ ok b)
    go (ok x, t) k = (x, t, refl, k)
    go (err e, t) k = cc

-- The same with the state at the end.
pub bind_ok_at :
    {S X A B : Type 0} (m : M S X A) (f : A → M S X B) (s : S) {b : B} {u : S}
    → (m >>= f) s ≡ (ok b, u)
    → (x : A) × (t : S) × (m s ≡ (ok x, t)) × (f x t ≡ (ok b, u))
bind_ok_at {S = S} {X = X} {A = A} {B = B} m f s {b = b} {u = u} h = go (m s) h
  where
    go :
        (p : Result X A × S)
        → (elim p.0 as (λ _. Result X B × S) [ ok x ↦ f x p.1 | err e ↦ (err e, p.1) ]) ≡ (ok b, u)
        → (x : A) × (t : S) × (p ≡ (ok x, t)) × (f x t ≡ (ok b, u))
    go (ok x, t) k = (x, t, refl, k)
    go (err e, t) k = absurd (ground arith)

pub check_ok :
    {S X E A : Type 0} (w : E → X) (r : Result E A) (s t : S) {x : A}
    → check w r s ≡ (ok x, t)
    → (r ≡ ok x) × (s ≡ t)
check_ok w (ok y) s t h = ground arith
check_ok w (err e) s t h = ground arith
