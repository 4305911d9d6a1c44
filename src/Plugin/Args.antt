-- ===== src/Plugin/Args.antt =====
-- The CNI arguments of cmd/multus-multivpc-cni/main.go: `parseArgValue`.
pub mod Laws
use multus_multivpc_cni.Base.{
  ℕ, zero, suc, Text, text, text_eq, nat_eq, Bool, true, false, Option, none, some, List, [], ◌∷◌,
  ◌==◌, if◌then◌else◌,
}

abbrev pub semicolon : ℕ
semicolon = b';'

abbrev pub equals : ℕ
equals = b'='

-- Puts a byte in front of the first part.
unfoldable pub onto_first : ℕ → List Text → List Text
onto_first c [] = (c ∷ []) ∷ []
onto_first c (part ∷ parts) = (c ∷ part) ∷ parts

-- `strings.Split` at a separator of one byte.
unfoldable pub split : ℕ → Text → List Text
unfolding onto_first
split sep [] = [] ∷ []
split sep (c ∷ cs) = let rest = split sep cs in if c == sep then [] ∷ rest else onto_first c rest

-- `strings.SplitN` with two parts: what stands before and after the first separator, or `none` if
-- there is only one part.
unfoldable pub split_two : ℕ → Text → Option (Text × Text)
split_two sep [] = none
split_two sep (c ∷ cs) =
    let rest = split_two sep cs in
    if c == sep then some ([], cs) else elim rest [ none ↦ none | some kv ↦ some (c ∷ kv.0, kv.1) ]

-- The loop over the segments.
unfoldable pub value_in : List Text → Text → Text
unfolding split_two
value_in [] key = []
value_in (segment ∷ segments) key =
    let rest = value_in segments key in
    elim (split_two equals segment) [ none ↦ rest | some kv ↦ if kv.0 == key then kv.1 else rest ]

unfoldable pub parse_arg_value : Text → Text → Text
unfolding split value_in
parse_arg_value args key = value_in (split semicolon args) key
