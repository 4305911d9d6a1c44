-- ===== src/Plugin/Names/Laws.antt =====
-- What the names of cached results in cmd/multus-multivpc-cni/main.go are made of, and which
-- containers they match.
use multus_multivpc_cni.Base.{
  ℕ, zero, suc, ◌<◌, Text, text, text_eq, nat_eq, true, false, [], ◌∷◌, ◌++◌, ◌==◌, ◌≡◌, ◌≢◌, ◌↔◌,
  inl, inr, refl, ap, sym, ◌∙◌, arith, All, All-append, Bool-cases, if◌then◌else◌, take,
}
use mathlib.Core.List.{append_assoc}
use multus_multivpc_cni.Plugin.Names.{
  between, is_safe, rune_tail, sanitize_from, sanitize_component, truncate_id, match_container,
  cache_file_name,
}

abbrev pub IsSafe : Text → Type 0
IsSafe = All (λ c. is_safe c ≡ true)

underscore-is_safe : is_safe b'_' ≡ true
unfolding is_safe nat_eq
underscore-is_safe = refl

safe_or_underscore : (c : ℕ) → is_safe (if is_safe c then c else b'_') ≡ true
safe_or_underscore c = elim (Bool-cases (is_safe c)) [
  | inl e ↦ rw e e
  | inr e ↦ rw e underscore-is_safe
]

sanitize_from-IsSafe : (skip : ℕ) (cs : Text) → IsSafe (sanitize_from skip cs)
unfolding sanitize_from
sanitize_from-IsSafe skip [] = tt
sanitize_from-IsSafe zero (c ∷ cs) =
    (safe_or_underscore c, sanitize_from-IsSafe (rune_tail c cs) cs)
sanitize_from-IsSafe (suc skip) (c ∷ cs) = sanitize_from-IsSafe skip cs

safe_below : (c : ℕ) → is_safe c ≡ true → c < 128
unfolding is_safe
safe_below c h = ground arith

between_below : (low high c : ℕ) → c < low → between low high c ≡ false
between_below low high c h = ground arith

equal_below : (low c : ℕ) → c < low → (c == low) ≡ false
equal_below low c h = ground arith

-- A safe byte is ASCII, and so a rune of its own.
rune_tail_safe : (c : ℕ) (cs : Text) → c < 128 → rune_tail c cs ≡ 0
unfolding rune_tail
rune_tail_safe c [] h = refl
rune_tail_safe c (b ∷ cs) h =
    rw
      (
        between_below 0xC2 0xDF c (omega arith),
        between_below 0xE1 0xEC c (omega arith),
        between_below 0xEE 0xEF c (omega arith),
        between_below 0xF1 0xF3 c (omega arith),
        equal_below 0xE0 c (omega arith),
        equal_below 0xED c (omega arith),
        equal_below 0xF0 c (omega arith),
        equal_below 0xF4 c (omega arith),
      )
      refl

sanitize_from_safe : (cs : Text) → IsSafe cs → sanitize_from 0 cs ≡ cs
unfolding sanitize_from
sanitize_from_safe [] h = refl
sanitize_from_safe (c ∷ cs) h =
    rw (h.0, rune_tail_safe c cs (safe_below c h.0), sanitize_from_safe cs h.1) refl

unknown-IsSafe : IsSafe (text "unknown")
unfolding is_safe nat_eq
unknown-IsSafe = (refl, (refl, (refl, (refl, (refl, (refl, (refl, tt)))))))

sanitize_component-IsSafe : (component : Text) → IsSafe (sanitize_component component)
unfolding sanitize_component
sanitize_component-IsSafe [] = ground (arith, unknown-IsSafe)
sanitize_component-IsSafe (c ∷ cs) = ground (arith, sanitize_from-IsSafe 0 (c ∷ cs))

sanitize_component_nonempty : (component : Text) → sanitize_component component ≢ []
unfolding sanitize_component sanitize_from
sanitize_component_nonempty [] = ground arith
sanitize_component_nonempty (c ∷ cs) = ground arith

sanitize_component_safe :
    (component : Text)
    → component ≢ []
    → IsSafe component
    → sanitize_component component ≡ component
unfolding sanitize_component
sanitize_component_safe component n h = ground (arith, sanitize_from_safe component h)

-- A sanitized component is not empty and holds only letters, digits, `-` and `_`, and to sanitize it
-- once more changes nothing.
pub sanitize_component_lem :
    (component : Text)
    → let safe = sanitize_component component in
      IsSafe safe × (safe ≢ []) × (sanitize_component safe ≡ safe)
sanitize_component_lem component = (
  sanitize_component-IsSafe component,
  sanitize_component_nonempty component,
  sanitize_component_safe (sanitize_component component) (sanitize_component_nonempty component)
      (sanitize_component-IsSafe component),
)

take-IsSafe : (n : ℕ) (cs : Text) → IsSafe cs → IsSafe (take n cs)
take-IsSafe zero cs h = ground arith
take-IsSafe (suc n) [] h = ground arith
take-IsSafe (suc n) (c ∷ cs) h = (h.0, take-IsSafe n cs h.1)

truncate_id-IsSafe : (id : Text) → IsSafe id → IsSafe (truncate_id id)
unfolding truncate_id
truncate_id-IsSafe id h = ground (arith, take-IsSafe 12 id h, unknown-IsSafe)

append_nonempty : (xs ys : Text) → xs ≢ [] → xs ++ ys ≢ []
append_nonempty [] ys h = λ e. h refl
append_nonempty (x ∷ xs) ys h = ground arith

-- Three parts with underscores between them.
stem_of : Text → Text → Text → Text
stem_of xs ys zs = xs ++ (b'_' ∷ ys ++ (b'_' ∷ zs))

stem_of-append :
    (xs ys zs ws : Text) → xs ++ (b'_' ∷ ys ++ (b'_' ∷ zs ++ ws)) ≡ stem_of xs ys zs ++ ws
unfolding stem_of
stem_of-append xs ys zs ws =
    ap (λ t. xs ++ (b'_' ∷ t)) (sym (append_assoc ys (b'_' ∷ zs) ws))
    ∙ sym (append_assoc xs (b'_' ∷ ys ++ (b'_' ∷ zs)) ws)

stem_of-IsSafe : (xs ys zs : Text) → IsSafe xs → IsSafe ys → IsSafe zs → IsSafe (stem_of xs ys zs)
unfolding stem_of
stem_of-IsSafe xs ys zs hx hy hz =
    All-append (λ c. is_safe c ≡ true) xs (b'_' ∷ ys ++ (b'_' ∷ zs)) hx
      (
        underscore-is_safe,
        All-append (λ c. is_safe c ≡ true) ys (b'_' ∷ zs) hy (underscore-is_safe, hz),
      )

stem_of_nonempty : (xs ys zs : Text) → xs ≢ [] → stem_of xs ys zs ≢ []
unfolding stem_of
stem_of_nonempty xs ys zs h = append_nonempty xs (b'_' ∷ ys ++ (b'_' ∷ zs)) h

-- The name of a cached result is one path element, whatever the Pod's UID, the interface and the
-- container: some letters, digits, `-` and `_`, followed by `.cache`.
pub cache_file_name_lem :
    (pod_uid if_name container_id : Text)
    → (stem : Text) × (cache_file_name pod_uid if_name container_id ≡ stem ++ text ".cache")
      × IsSafe stem
      × (stem ≢ [])
unfolding cache_file_name
cache_file_name_lem pod_uid if_name container_id =
    let pod = sanitize_component pod_uid in
    let interface = sanitize_component if_name in
    let id = truncate_id (sanitize_component container_id) in
    (
      stem_of pod interface id,
      stem_of-append pod interface id (text ".cache"),
      stem_of-IsSafe pod interface id (sanitize_component-IsSafe pod_uid)
          (sanitize_component-IsSafe if_name)
          (truncate_id-IsSafe (sanitize_component container_id)
            (sanitize_component-IsSafe container_id)),
      stem_of_nonempty pod interface id (sanitize_component_nonempty pod_uid),
    )

-- A stored container matches exactly if its id is not empty and the ids agree in their first 12
-- bytes, an empty one counting as `unknown`.
pub match_container_iff :
    (stored_id container_id : Text)
    → (match_container stored_id container_id ≡ true)
      ↔ ((stored_id ≢ []) × (truncate_id stored_id ≡ truncate_id container_id))
unfolding match_container
match_container_iff stored_id container_id = ground arith
