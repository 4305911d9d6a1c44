-- ===== src/Agent/Keys.antt =====
-- When the keys of the agent's map, built by `stateKey` of cmd/multivpc-eni-agent/main.go, are
-- distinct.
use multus_multivpc_cni.Base.{ℕ, Text, [], ◌∷◌, ◌++◌, ◌≡◌, ◌≢◌, arith, All}
use multus_multivpc_cni.Agent.Server.{state_key}
use mathlib.Core.List.{append_assoc}

abbrev colon : ℕ
colon = b':'

abbrev pub HasNoColon : Text → Type 0
HasNoColon = All (λ c. c ≢ colon)

-- Pod UIDs without a colon, as Kubernetes makes them, keep the keys of different interfaces apart.
pub state_key_inj :
    (u v i j : Text)
    → HasNoColon u
    → HasNoColon v
    → state_key u i ≡ state_key v j
    → (u ≡ v) × (i ≡ j)
unfolding state_key
state_key_inj [] [] i j hu hv e = ground arith
state_key_inj [] (d ∷ v) i j hu hv e = ground arith
state_key_inj (c ∷ u) [] i j hu hv e = ground arith
state_key_inj (c ∷ u) (d ∷ v) i j hu hv e = ground (arith, state_key_inj u v i j hu.1 hv.1)

-- A colon in a UID can make two interfaces share a key.
state_key_clash : (u v i : Text) → state_key (u ++ (colon ∷ v)) i ≡ state_key u (v ++ (colon ∷ i))
unfolding state_key
state_key_clash u v i = append_assoc u (colon ∷ v) (colon ∷ i)
