-- ===== src/Aws/Triples.antt =====
-- Rules for the calls that the manager makes of a recorded EC2. `stage` reads off the calls made so
-- far, the last of which stands first, how far a method has come; one stage stands for a violation.
use multus_multivpc_cni.Base.{List, Result, ok, err, ◌≢◌}
use multus_multivpc_cni.Aws.Ec2.{Ec2, M, ◌>>=◌}
use multus_multivpc_cni.Aws.Trace.{Event}

abbrev pub Traced : Ec2 → Type 0
Traced e = e.State × List (Event e.Error)

module _ (e : Ec2) {P : Type 0} (stage : List (Event e.Error) → P) (violated : P) where
  -- A method that succeeds ends in a stage with the property, and one that fails without violation.
  abbrev pub Post : {X A : Type 0} → (A → P → Type 0) → Result X A × Traced e → Type 0
  Post Q (ok a, (s, t)) = Q a (stage t)
  Post Q (err x, (s, t)) = stage t ≢ violated

  abbrev pub Triple : {X A : Type 0} → (P → Type 0) → M (Traced e) X A → (A → P → Type 0) → Type 0
  Triple R m Q = (s : e.State) (t : List (Event e.Error)) → R (stage t) → Post Q (m (s, t))

  pub Triple-bind :
      {X A B : Type 0} (R : P → Type 0) (m : M (Traced e) X A) (Q : A → P → Type 0)
      (f : A → M (Traced e) X B) (T : B → P → Type 0)
      → Triple R m Q
      → ((a : A) → Triple (Q a) (f a) T)
      → Triple R (m >>= f) T
  Triple-bind {X} {A} {B} R m Q f T hm hf s t p = go (m (s, t)) (hm s t p)
    where
      go :
          (x : Result X A × Traced e)
          → Post Q x
          → Post {X = X} T (let (r, s') = x in elim r [ ok a ↦ f a s' | err y ↦ (err y, s') ])
      go (ok a, (s', t')) q = hf a s' t' q
      go (err y, (s', t')) q = q
