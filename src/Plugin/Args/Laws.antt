-- ===== src/Plugin/Args/Laws.antt =====
-- `parseArgValue` of cmd/multus-multivpc-cni/main.go reads back arguments that were written out.
use multus_multivpc_cni.Base.{
  ℕ, Text, text_eq, nat_eq, some, List, [], ◌∷◌, ◌++◌, ◌==◌, ◌≡◌, ◌≢◌, refl, ap, ◌∙◌, arith, All,
  All-append, if◌then◌else◌,
}
use multus_multivpc_cni.Plugin.Args.{semicolon, equals, split, split_two, value_in, parse_arg_value}

-- One argument, and several with a separator after each but the last.
pub print_arg : Text × Text → Text
print_arg (key, value) = key ++ (equals ∷ value)

pub print_args : List (Text × Text) → Text
print_args [] = []
print_args (arg ∷ []) = print_arg arg
print_args (arg ∷ args) = print_arg arg ++ (semicolon ∷ print_args args)

-- The value of the first argument with the key; empty if there is none.
pub value_of : Text → List (Text × Text) → Text
value_of key [] = []
value_of key (arg ∷ args) = let rest = value_of key args in if arg.0 == key then arg.1 else rest

abbrev pub Lacks : ℕ → Text → Type 0
Lacks sep = All (λ c. c ≢ sep)

-- What can be written out: keys have neither separator, and values no semicolon.
pub record IsPrintable (arg : Text × Text) : Type 0 where
  pub key_equals : Lacks equals arg.0
  pub key_semicolon : Lacks semicolon arg.0
  pub value_semicolon : Lacks semicolon arg.1

split_whole : (sep : ℕ) (cs : Text) → Lacks sep cs → split sep cs ≡ cs ∷ []
unfolding split
split_whole sep [] h = refl
split_whole sep (c ∷ cs) h = ground (arith, split_whole sep cs h.1)

split_first :
    (sep : ℕ) (cs ds : Text) → Lacks sep cs → split sep (cs ++ (sep ∷ ds)) ≡ cs ∷ split sep ds
unfolding split
split_first sep [] ds h = ground arith
split_first sep (c ∷ cs) ds h = ground (arith, split_first sep cs ds h.1)

split_two-print :
    (key value : Text)
    → Lacks equals key
    → split_two equals (key ++ (equals ∷ value)) ≡ some (key, value)
unfolding split_two
split_two-print [] value h = ground arith
split_two-print (c ∷ key) value h = ground (arith, split_two-print key value h.1)

print_arg-Lacks : (arg : Text × Text) → IsPrintable arg → Lacks semicolon (print_arg arg)
unfolding print_arg
print_arg-Lacks arg h =
    All-append (λ c. c ≢ semicolon) arg.0 (equals ∷ arg.1) h.key_semicolon
      (ground arith, h.value_semicolon)

value_in-print :
    (key : Text) (arg : Text × Text) (segments : List Text)
    → IsPrintable arg
    → value_in (print_arg arg ∷ segments) key
      ≡ (if arg.0 == key then arg.1 else value_in segments key)
unfolding value_in print_arg
value_in-print key arg segments h = ground (arith, split_two-print arg.0 arg.1 h.key_equals)

-- Of arguments that were written out with semicolons between them, the method finds the value of
-- the first one with the key, and an empty text if there is none.
pub parse_arg_value-print :
    (key : Text) (args : List (Text × Text))
    → All IsPrintable args
    → parse_arg_value (print_args args) key ≡ value_of key args
unfolding parse_arg_value print_args value_of
parse_arg_value-print key [] h = refl
parse_arg_value-print key (arg ∷ []) h =
    rw (split_whole semicolon (print_arg arg) (print_arg-Lacks arg h.0))
      (value_in-print key arg [] h.0)
parse_arg_value-print key (arg ∷ b ∷ args) h =
    rw (split_first semicolon (print_arg arg) (print_args (b ∷ args)) (print_arg-Lacks arg h.0)) (
      value_in-print key arg (split semicolon (print_args (b ∷ args))) h.0
      ∙ ap (λ rest. if arg.0 == key then arg.1 else rest)
          (parse_arg_value-print key (b ∷ args) h.1))
