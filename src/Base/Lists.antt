-- ===== src/Base/Lists.antt =====
-- Lists measured by native numbers and filtered by Boolean tests, and predicates on their members.
use Prim.Native.Nat.{ℕ, zero, suc, ◌+◌, ◌≤◌}
use mathlib.Core.Path.{◌≡◌, refl}
use mathlib.Core.Logic.{◌⊎◌, ◌↔◌}
use mathlib.Core.Bool.{Bool, true, ◌&&◌}
use mathlib.Core.List.{List, [], ◌∷◌, ◌++◌}
use native.Mathlib.Omega.{arith}
use multus_multivpc_cni.Base.Equality.{if◌then◌else◌}

-- Every member has the property; by recursion, so that the tactics read it as a tuple.
abbrev pub All {ℓ κ} : {A : Type ℓ} → (A → Type κ) → List A → Type κ
All P [] = Unit
All P (x ∷ xs) = P x × All P xs

-- Some member has the property.
abbrev pub Any {ℓ} : {A : Type ℓ} → (A → Type 0) → List A → Type 0
Any P [] = ⊥
Any P (x ∷ xs) = P x ⊎ Any P xs

module _ {ℓ} {A : Type ℓ} where
  abbrev pub length : List A → ℕ
  length [] = 0
  length (x ∷ xs) = suc (length xs)

  -- A loop that keeps the elements which pass a test.
  abbrev pub keep : (A → Bool) → List A → List A
  keep p [] = []
  keep p (x ∷ xs) = let rest = keep p xs in if p x then x ∷ rest else rest

  pub length-append : (xs ys : List A) → length (xs ++ ys) ≡ length xs + length ys
  length-append [] ys = omega arith
  length-append (x ∷ xs) ys = omega (arith, length-append xs ys)

  pub All-append {κ} : (P : A → Type κ) (xs ys : List A) → All P xs → All P ys → All P (xs ++ ys)
  All-append P [] ys hx hy = hy
  All-append P (x ∷ xs) ys hx hy = (hx.0, All-append P xs ys hx.1 hy)

  pub All-map {κ μ} :
      (P : A → Type κ) (Q : A → Type μ)
      → ((a : A) → P a → Q a)
      → (xs : List A) → All P xs
      → All Q xs
  All-map P Q f [] h = tt
  All-map P Q f (x ∷ xs) h = (f x h.0, All-map P Q f xs h.1)

  -- What is kept passes the test, and keeps its properties.
  pub All-keep {κ} :
      (P : A → Type κ) (p : A → Bool) (xs : List A)
      → All P xs
      → All (λ a. P a × (p a ≡ true)) (keep p xs)
  All-keep P p [] h = tt
  All-keep P p (x ∷ xs) h = ground (arith, All-keep P p xs h.1)

  pub All-of_All {κ} : (P : A → Type κ) (xs : List A) → ((a : A) → P a) → All P xs
  All-of_All P [] f = tt
  All-of_All P (x ∷ xs) f = (f x, All-of_All P xs f)

  pub keep-true : (xs : List A) → keep (λ _. true) xs ≡ xs
  keep-true [] = refl
  keep-true (x ∷ xs) = rw (keep-true xs)

  pub keep-keep : (p q : A → Bool) (xs : List A) → keep q (keep p xs) ≡ keep (λ x. p x && q x) xs
  keep-keep p q [] = refl
  keep-keep p q (x ∷ xs) = ground (arith, keep-keep p q xs)

  -- Tests that agree on every member keep the same members.
  pub keep_congr : (p q : A → Bool) (xs : List A) → All (λ x. p x ≡ q x) xs → keep p xs ≡ keep q xs
  keep_congr p q [] h = refl
  keep_congr p q (x ∷ xs) h = ground (arith, keep_congr p q xs h.1)

  pub length-keep-le : (p : A → Bool) (xs : List A) → length (keep p xs) ≤ length xs
  length-keep-le p [] = omega arith
  length-keep-le p (x ∷ xs) = ground (arith, length-keep-le p xs)

  pub keep-append : (p : A → Bool) (xs ys : List A) → keep p (xs ++ ys) ≡ keep p xs ++ keep p ys
  keep-append p [] ys = refl
  keep-append p (x ∷ xs) ys = ground (arith, keep-append p xs ys)

module _ {ℓ} {A : Type ℓ} where
  abbrev pub take : ℕ → List A → List A
  take zero xs = []
  take (suc n) [] = []
  take (suc n) (x ∷ xs) = x ∷ take n xs

  pub take-nil : (n : ℕ) → take n [] ≡ []
  take-nil zero = refl
  take-nil (suc n) = refl

  pub take_all : (n : ℕ) (xs : List A) → length xs ≤ n → take n xs ≡ xs
  take_all zero [] h = refl
  take_all zero (x ∷ xs) h = absurd (omega arith)
  take_all (suc n) [] h = refl
  take_all (suc n) (x ∷ xs) h = rw (take_all n xs (omega arith))

-- `x` is a member of the list.
abbrev pub In : {A : Type 0} → A → List A → Type 0
In x [] = ⊥
In x (y ∷ ys) = (y ≡ x) ⊎ In x ys

module _ {A : Type 0} where
  -- What a test keeps is what was there and passes it.
  pub In-keep : (p : A → Bool) (x : A) (xs : List A) → In x (keep p xs) ↔ (In x xs × (p x ≡ true))
  In-keep p x [] = (λ h. absurd h, λ h. absurd h.0)
  In-keep p x (y ∷ ys) = ground (arith, In-keep p x ys)
