-- ===== src/Aws/Device/Laws.antt =====
-- Which device index `nextAvailableDeviceIndex` of pkg/aws/eni_manager.go picks.
use multus_multivpc_cni.Base.{ℕ, zero, suc, ◌+◌, ◌-◌, ◌≤◌, ◌<◌, text_eq, true, false, none, some}
use multus_multivpc_cni.Base.{
  List, [], ◌∷◌, Option, Option-cases, ◌↔◌, ◌⊎◌, ◌≢◌, refl, ok, err, contains, Bool-cases, inl, inr,
  ◌≡◌, arith,
}
use native.Mathlib.Decide.{ℕ_discrete}
use multus_multivpc_cni.Base.Int.{ℤ, pos, int_eq}
use multus_multivpc_cni.Aws.Types.{Manager}
use multus_multivpc_cni.Aws.Ec2.{Attachment, InstanceTypeInfo, Instance, Ec2, AwsError}
use multus_multivpc_cni.Aws.Device.{
  used_indices, first_free, max_interfaces, first_instance, index_of_instance,
  next_available_device_index,
}

-- `i` is the lowest index from `low` on that is not used, and lies below `limit`.
record IsLowestFree (used : List ℤ) (low limit i : ℕ) : Type 0 where
  pub from : low ≤ i
  pub below : i < limit
  pub free : contains used (pos i) ≡ false
  pub lowest : (j : ℕ) → low ≤ j → j < i → contains used (pos j) ≡ true

abbrev AllUsed : List ℤ → ℕ → ℕ → Type 0
AllUsed used low limit = (j : ℕ) → low ≤ j → j < limit → contains used (pos j) ≡ true

pick_here :
    (used : List ℤ) (idx n : ℕ)
    → contains used (pos idx) ≡ false
    → IsLowestFree used idx (idx + suc n) idx
pick_here used idx n e = record {
  from = omega arith;
  below = omega arith;
  free = e;
  lowest = λ j a b. absurd (omega arith);
}

-- An index that is used sends the search one further.
skip_used :
    (used : List ℤ) (idx j : ℕ)
    → contains used (pos idx) ≡ true
    → idx ≤ j
    → (idx + 1 ≤ j → contains used (pos j) ≡ true)
    → contains used (pos j) ≡ true
skip_used used idx j e h rest = elim (ℕ_discrete idx j) [
  | yes same ↦ rw (← same) e
  | no other ↦ rest (omega arith)
]

first_free-some :
    (used : List ℤ) (idx n : ℕ) {i : ℕ}
    → first_free used idx n ≡ some i
    → IsLowestFree used idx (idx + n) i
unfolding first_free
first_free-some used idx zero h = cc
first_free-some used idx (suc n) {i} h = elim (Bool-cases (contains used (pos idx))) [
  | inl e ↦
      let r = first_free-some used (idx + 1) n {i = i} (ground arith) in
      record {
        from = omega arith;
        below = omega arith;
        free = r.free;
        lowest = λ j a b. skip_used used idx j e a (λ c. r.lowest j c b);
      }
  | inr e ↦ let same : idx ≡ i = ground arith in rw (← same) (pick_here used idx n e)
]

first_free-none :
    (used : List ℤ) (idx n : ℕ) → first_free used idx n ≡ none → AllUsed used idx (idx + n)
unfolding first_free
first_free-none used idx zero h = λ j a b. absurd (omega arith)
first_free-none used idx (suc n) h = elim (Bool-cases (contains used (pos idx))) [
  | inl e ↦ λ j a b.
      skip_used used idx j e a
        (λ c. first_free-none used (idx + 1) n (ground arith) j c (omega arith))
  | inr e ↦ ground arith
]

-- An attachment of the instance has the index.
abbrev pub IsUsed : List (Option Attachment) → ℕ → Type 0
IsUsed [] j = ⊥
IsUsed (none ∷ rest) j = IsUsed rest j
IsUsed (some a ∷ rest) j = (a.device_index ≡ some (pos j)) ⊎ IsUsed rest j

used_indices_iff :
    (attachments : List (Option Attachment)) (j : ℕ)
    → (contains (used_indices attachments) (pos j) ≡ true) ↔ IsUsed attachments j
unfolding used_indices
used_indices_iff [] j = ground arith
used_indices_iff (none ∷ rest) j = used_indices_iff rest j
used_indices_iff (some a ∷ rest) j = elim (Option-cases a.device_index) [
  | inl h ↦ ground (arith, used_indices_iff rest j)
  | inr (i, h) ↦ ground (arith, used_indices_iff rest j)
]

-- The lowest index from 1 on that no attachment has, below the limit.
pub record IsLowestUnused (attachments : List (Option Attachment)) (limit i : ℕ) : Type 0 where
  pub from : 1 ≤ i
  pub below : i < limit
  pub unused : ¬ IsUsed attachments i
  pub lowest : (j : ℕ) → 1 ≤ j → j < i → IsUsed attachments j

module _ (e : Ec2) where
  -- The limit is what the instance type says, if it is asked and says at least 2.
  abbrev pub IsSaid : Instance → e.State → ℕ → Type 0
  IsSaid inst s limit =
      (s2 : e.State) (t : InstanceTypeInfo) (types : List InstanceTypeInfo) (n : ℕ)
      → inst.instance_type ≢ []
      → e.describe_instance_types inst.instance_type s ≡ (ok (t ∷ types), s2)
      → t.network_info ≡ some (some (pos n))
      → 2 ≤ n
      → limit ≡ n

  max_interfaces-ge : (inst : Instance) (s : e.State) → 2 ≤ (max_interfaces e inst s).0
  unfolding max_interfaces
  max_interfaces-ge inst s = ground arith

  whole :
      (inst : Instance) (s : e.State)
      → 1 + ((max_interfaces e inst s).0 - 1) ≡ (max_interfaces e inst s).0
  whole inst s = omega (arith, max_interfaces-ge inst s)

  next-index_of_instance :
      (m : Manager) (s s1 : e.State) (reservations : List (List Instance)) (inst : Instance)
      → e.describe_instances m.instance_id s ≡ (ok reservations, s1)
      → first_instance reservations ≡ some inst
      → next_available_device_index e m s ≡ index_of_instance e m inst s1
  unfolding next_available_device_index
  next-index_of_instance m s s1 reservations inst described first = ground arith

  index_of_instance-some :
      (m : Manager) (inst : Instance) (s : e.State) {i : ℕ}
      → (index_of_instance e m inst s).0 ≡ ok i
      → first_free (used_indices inst.network_interfaces) 1 ((max_interfaces e inst s).0 - 1)
        ≡ some i
  unfolding index_of_instance
  index_of_instance-some m inst s h = ground arith

  index_of_instance-none :
      (m : Manager) (inst : Instance) (s : e.State) {x : AwsError e.Error}
      → (index_of_instance e m inst s).0 ≡ err x
      → first_free (used_indices inst.network_interfaces) 1 ((max_interfaces e inst s).0 - 1) ≡ none
  unfolding index_of_instance
  index_of_instance-none m inst s h = ground arith

  index_of_instance-IsPicked :
      (m : Manager) (inst : Instance) (s : e.State)
      → let limit = (max_interfaces e inst s).0 in
        let r = (index_of_instance e m inst s).0 in
        ((i : ℕ) → r ≡ ok i → IsLowestFree (used_indices inst.network_interfaces) 1 limit i)
        × ((x : AwsError e.Error)
            → r ≡ err x
            → AllUsed (used_indices inst.network_interfaces) 1 limit)
  index_of_instance-IsPicked m inst s = (
    λ i h. rw (whole inst s) at (
        first_free-some (used_indices inst.network_interfaces) 1 _
          (index_of_instance-some m inst s h)),
    λ x h. rw (whole inst s) at (
        first_free-none (used_indices inst.network_interfaces) 1 _
          (index_of_instance-none m inst s h)),
  )

  -- What the instance type says of its number of interfaces counts, if it is at least 2.
  max_interfaces-said :
      (inst : Instance) (s s2 : e.State) (t : InstanceTypeInfo) (types : List InstanceTypeInfo)
      (n : ℕ)
      → inst.instance_type ≢ []
      → e.describe_instance_types inst.instance_type s ≡ (ok (t ∷ types), s2)
      → t.network_info ≡ some (some (pos n))
      → 2 ≤ n
      → (max_interfaces e inst s).0 ≡ n
  unfolding max_interfaces
  max_interfaces-said inst s s2 t types n named said info enough = ground arith

  -- Once the instance is described, the method picks the lowest device index from 1 up to its limit
  -- that no attachment of the first instance has, and fails only if each of them belongs to one; the
  -- limit is at least 2, and is the number that the instance type says if this is at least 2.
  pub next_available_device_index_lem :
      (m : Manager) (s s1 : e.State) (inst : Instance) (more : List Instance)
      (others : List (List Instance))
      → e.describe_instances m.instance_id s ≡ (ok ((inst ∷ more) ∷ others), s1)
      → let limit = (max_interfaces e inst s1).0 in
        let r = (next_available_device_index e m s).0 in
        (2 ≤ limit)
        × IsSaid inst s1 limit
        × ((i : ℕ) → r ≡ ok i → IsLowestUnused inst.network_interfaces limit i)
        × ((x : AwsError e.Error)
            → r ≡ err x
            → (j : ℕ) → 1 ≤ j
            → j < limit
            → IsUsed inst.network_interfaces j)
  unfolding first_instance
  next_available_device_index_lem m s s1 inst more others described =
      let (picked, failed) = index_of_instance-IsPicked m inst s1 in
      rw (next-index_of_instance m s s1 ((inst ∷ more) ∷ others) inst described refl) (
        max_interfaces-ge inst s1,
        λ s2 t types n. max_interfaces-said inst s1 s2 t types n,
        λ i h.
            let p = picked i h in
            record {
              from = p.from;
              below = p.below;
              unused =
                  λ u. ground (arith, (used_indices_iff inst.network_interfaces i).1 u, p.free);
              lowest = λ j a b. (used_indices_iff inst.network_interfaces j).0 (p.lowest j a b);
            },
        λ x h j a b. (used_indices_iff inst.network_interfaces j).0 (failed x h j a b),
      )
