-- ===== src/Base/Bytes.antt =====
-- Go strings: sequences of bytes.
use Prim.Native.Nat.{ℕ}
use Prim.Native.Char.{code}
use Prim.Native.String.{String}
use mathlib.Core.Option.{Option}
use mathlib.Core.List.{List, [], ◌∷◌}
use native.Mathlib.Decide.{ℕ_discrete}
use multus_multivpc_cni.Base.Equality.{Eq}

abbrev pub Text : Type 0
Text = List ℕ

-- The bytes of a literal; the program's literals are all ASCII.
abbrev pub text : String → Text
text String.[] = []
text (String.◌∷◌ c s) = code c ∷ text s

text-discrete : Discrete Text
text-discrete = hlevel ℕ_discrete

instance unfoldable pub text_eq : Eq Text
unfolding text-discrete ℕ_discrete
text_eq = record { dec = text-discrete }

-- Pointers to strings, compared by what they point to.
option_text-discrete : Discrete (Option Text)
option_text-discrete = hlevel ℕ_discrete

instance unfoldable pub option_text_eq : Eq (Option Text)
unfolding option_text-discrete ℕ_discrete
option_text_eq = record { dec = option_text-discrete }
