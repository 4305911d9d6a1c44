-- ===== src/Base/Dict.antt =====
-- A Go map with string keys, as an association list with at most one entry for a key.
use mathlib.Core.Path.{◌≡◌, refl, sym, ap, ◌∙◌}
use mathlib.Core.Bool.{Bool, false, not, ◌&&◌}
use mathlib.Core.Option.{Option, none, some, none-ne-some}
use mathlib.Core.Logic.{if_neg}
use mathlib.Core.List.{List, [], ◌∷◌, map}
use native.Mathlib.Omega.{arith}
use multus_multivpc_cni.Base.Equality.{◌==◌, contains, if◌then◌else◌}
use multus_multivpc_cni.Base.Lists.{
  All, All-map, All-of_All, keep, keep-true, keep-keep, keep_congr,
}
use multus_multivpc_cni.Base.Bytes.{Text, text_eq}

abbrev pub Dict {ℓ} : Type ℓ → Type ℓ
Dict V = List (Text × V)

module _ {ℓ} {V : Type ℓ} where
  -- `v, ok := m[k]`
  unfoldable pub lookup : Text → Dict V → Option V
  lookup k [] = none
  lookup k ((j, v) ∷ m) = if k == j then some v else lookup k m

  -- `m[k] = v`
  unfoldable pub insert : Text → V → Dict V → Dict V
  insert k v [] = (k, v) ∷ []
  insert k v ((j, w) ∷ m) = if k == j then (k, v) ∷ m else (j, w) ∷ insert k v m

  -- `delete(m, k)`
  unfoldable pub erase : Text → Dict V → Dict V
  erase k [] = []
  erase k ((j, w) ∷ m) = let rest = erase k m in if k == j then rest else (j, w) ∷ rest

  -- `for _, v := range m`
  unfoldable pub values : Dict V → List V
  values [] = []
  values ((k, v) ∷ m) = v ∷ values m

  abbrev pub NodupKeys : Dict V → Type ℓ
  NodupKeys [] = Unit
  NodupKeys ((k, _) ∷ m) = (lookup k m ≡ none) × NodupKeys m

  pub lookup-insert :
      (j k : Text) (v : V) (m : Dict V)
      → lookup j (insert k v m) ≡ (if j == k then some v else lookup j m)
  unfolding insert lookup
  lookup-insert j k v [] = refl
  lookup-insert j k v (_ ∷ m) = ground (arith, lookup-insert j k v m)

  pub lookup-erase :
      (j k : Text) (m : Dict V) → lookup j (erase k m) ≡ (if j == k then none else lookup j m)
  unfolding erase lookup
  lookup-erase j k [] = ground arith
  lookup-erase j k (_ ∷ m) = ground (arith, lookup-erase j k m)

  pub insert-NodupKeys : (k : Text) (v : V) (m : Dict V) → NodupKeys m → NodupKeys (insert k v m)
  unfolding insert lookup
  insert-NodupKeys k v [] _ = (refl, tt)
  insert-NodupKeys k v ((j, _) ∷ m) (fresh, u) =
      ground (arith, insert-NodupKeys k v m u, lookup-insert j k v m)

  pub erase-NodupKeys : (k : Text) (m : Dict V) → NodupKeys m → NodupKeys (erase k m)
  unfolding erase
  erase-NodupKeys k [] _ = tt
  erase-NodupKeys k ((j, _) ∷ m) (fresh, u) =
      ground (arith, erase-NodupKeys k m u, lookup-erase j k m)

  -- A property of every entry, kept by the writes.
  pub insert-All {κ} :
      (P : Text × V → Type κ) (k : Text) (v : V) (m : Dict V)
      → P (k, v)
      → All P m
      → All P (insert k v m)
  unfolding insert
  insert-All P k v [] p h = (p, tt)
  insert-All P k v (_ ∷ m) p h = ground (arith, insert-All P k v m p h.1)

  pub erase-All {κ} : (P : Text × V → Type κ) (k : Text) (m : Dict V) → All P m → All P (erase k m)
  unfolding erase
  erase-All P k [] h = tt
  erase-All P k (_ ∷ m) h = ground (arith, erase-All P k m h.1)

  pub lookup-All {κ} :
      (P : Text × V → Type κ) (k : Text) (m : Dict V) {v : V}
      → All P m
      → lookup k m ≡ some v
      → P (k, v)
  unfolding lookup
  lookup-All P k [] h e = cc
  lookup-All P k ((j, w) ∷ m) {v} h e = elim (text_eq.dec k j) [
    | yes p ↦ let same : w ≡ v = ground arith in rw (p, ← same) h.0
    | no n ↦ lookup-All P k m h.1 (ground arith)
  ]

not-contains :
    (k : Text) (ks : List Text) (j : Text)
    → (not (k == j) && not (contains ks j)) ≡ not (contains (k ∷ ks) j)
not-contains k ks j = ground arith

-- Several deletions in turn, and what they leave.
module _ {ℓ} {V : Type ℓ} where
  unfoldable pub erase_keys : List Text → Dict V → Dict V
  erase_keys [] m = m
  erase_keys (k ∷ ks) m = erase_keys ks (erase k m)

  erase-keep : (k : Text) (m : Dict V) → erase k m ≡ keep (λ e. not (k == e.0)) m
  unfolding erase
  erase-keep k [] = refl
  erase-keep k (_ ∷ m) = ground (arith, erase-keep k m)

  pub erase_keys-keep :
      (ks : List Text) (m : Dict V) → erase_keys ks m ≡ keep (λ e. not (contains ks e.0)) m
  unfolding erase_keys
  erase_keys-keep [] m = sym (keep-true m)
  erase_keys-keep (k ∷ ks) m =
      erase_keys-keep ks (erase k m)
      ∙ ap (keep (λ e. not (contains ks e.0))) (erase-keep k m)
      ∙ keep-keep (λ e. not (k == e.0)) (λ e. not (contains ks e.0)) m
      ∙ keep_congr (λ e. not (k == e.0) && not (contains ks e.0)) (λ e. not (contains (k ∷ ks) e.0))
          m (All-of_All _ m (λ e. not-contains k ks e.0))

  -- The keys under which a dictionary holds a value that passes a test.
  pub contains-keys :
      (key : V → Text) (p : V → Bool) (k : Text) (m : Dict V)
      → NodupKeys m
      → All (λ e. e.0 ≡ key e.1) m
      → contains (map key (keep p (values m))) k ≡ elim (lookup k m) [ none ↦ false | some v ↦ p v ]
  unfolding lookup values
  contains-keys key p k [] u h = refl
  contains-keys key p k ((j, v) ∷ m) u h = ground (arith, contains-keys key p k m u.1 h.1)

  lookup-cons_of_fresh :
      (j : Text) (v : V) (m : Dict V)
      → lookup j m ≡ none
      → (k : Text) (w : V) → lookup k m ≡ some w
      → lookup k ((j, v) ∷ m) ≡ some w
  unfolding lookup
  lookup-cons_of_fresh j v m fresh k w h = elim (text_eq.dec k j) [
    | yes same ↦ absurd (none-ne-some w (sym fresh ∙ ap (λ x. lookup x m) (sym same) ∙ h))
    | no differ ↦ rw (if_neg _ differ) h
  ]

  -- Without double keys, each entry is what a lookup of its key finds.
  pub lookup_entries : (m : Dict V) → NodupKeys m → All (λ e. lookup e.0 m ≡ some e.1) m
  unfolding lookup
  lookup_entries [] u = tt
  lookup_entries ((j, v) ∷ m) u = (
    ground arith,
    All-map (λ e. lookup e.0 m ≡ some e.1) (λ e. lookup e.0 ((j, v) ∷ m) ≡ some e.1)
        (λ e h. lookup-cons_of_fresh j v m u.0 e.0 e.1 h) m (lookup_entries m u.1),
  )
