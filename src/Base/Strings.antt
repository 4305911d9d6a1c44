-- ===== src/Base/Strings.antt =====
-- The functions of Go's `strings` that the program uses on settings: `TrimSpace` and `ToLower`.
use mathlib.Core.List.{reverse, reverse-reverse, reverse-append}
use multus_multivpc_cni.Base.Equality.{◌==◌, if◌then◌else◌, nat_eq}
use multus_multivpc_cni.Base.Tests.{leb, Bool-cases}
use multus_multivpc_cni.Base.Bytes.{Text}
use multus_multivpc_cni.Base.Lists.{}
use Prim.Native.Nat.{ℕ, ◌+◌}
use mathlib.Core.Path.{◌≡◌, refl, sym, ap, ◌∙◌, subst}
use mathlib.Core.Logic.{inl, inr}
use mathlib.Core.Bool.{Bool, true, false, ◌&&◌, ◌||◌}
use mathlib.Core.List.{[], ◌∷◌, ◌++◌, map}
use native.Mathlib.Omega.{arith}

-- The white space of `unicode.IsSpace` in UTF-8, of one, two and three bytes.
abbrev pub space1 : ℕ → Bool
space1 a = (leb 9 a && leb a 13) || a == 32

abbrev pub space2 : ℕ → ℕ → Bool
space2 a b = a == 0xC2 && (b == 0x85 || b == 0xA0)

abbrev pub space3 : ℕ → ℕ → ℕ → Bool
space3 a b c =
    (a == 0xE1 && b == 0x9A && c == 0x80)
    || (a == 0xE2
        && b == 0x80
        && ((leb 0x80 c && leb c 0x8A) || c == 0xA8 || c == 0xA9 || c == 0xAF))
    || (a == 0xE2 && b == 0x81 && c == 0x9F)
    || (a == 0xE3 && b == 0x80 && c == 0x80)

-- Their bytes from the back.
abbrev pub space2_back : ℕ → ℕ → Bool
space2_back b a = space2 a b

abbrev pub space3_back : ℕ → ℕ → ℕ → Bool
space3_back c b a = space3 a b c

module _ (s1 : ℕ → Bool) (s2 : ℕ → ℕ → Bool) (s3 : ℕ → ℕ → ℕ → Bool) where
  -- The text without the spaces at its front.
  unfoldable pub trim_front : Text → Text
  trim_front [] = []
  trim_front (a ∷ []) = if s1 a then [] else a ∷ []
  trim_front (a ∷ b ∷ []) = elim (s1 a) [
    | true ↦ trim_front (b ∷ [])
    | false ↦ if s2 a b then [] else a ∷ b ∷ []
  ]
  trim_front (a ∷ b ∷ c ∷ t) = elim (s1 a) [
    | true ↦ trim_front (b ∷ c ∷ t)
    | false ↦ elim (s2 a b) [
      | true ↦ trim_front (c ∷ t)
      | false ↦ elim (s3 a b c) [ true ↦ trim_front t | false ↦ a ∷ b ∷ c ∷ t ]
    ]
  ]

  -- Whether there is a space at the front.
  abbrev pub starts : Text → Bool
  starts [] = false
  starts (a ∷ []) = s1 a
  starts (a ∷ b ∷ []) = s1 a || s2 a b
  starts (a ∷ b ∷ c ∷ t) = s1 a || s2 a b || s3 a b c

  trim_front_done : (t : Text) → starts t ≡ false → trim_front t ≡ t
  unfolding trim_front
  trim_front_done [] h = refl
  trim_front_done (a ∷ []) h = ground arith
  trim_front_done (a ∷ b ∷ []) h = ground arith
  trim_front_done (a ∷ b ∷ c ∷ t) h = ground arith

  starts-trim_front : (t : Text) → starts (trim_front t) ≡ false
  unfolding trim_front
  starts-trim_front [] = refl
  starts-trim_front (a ∷ []) = ground arith
  starts-trim_front (a ∷ b ∷ []) = ground (arith, starts-trim_front (b ∷ []))
  starts-trim_front (a ∷ b ∷ c ∷ t) =
      ground (arith, starts-trim_front (b ∷ c ∷ t), starts-trim_front (c ∷ t), starts-trim_front t)

  starts-append : (t u : Text) → starts (t ++ u) ≡ false → starts t ≡ false
  starts-append [] u h = refl
  starts-append (a ∷ []) [] h = h
  starts-append (a ∷ []) (b ∷ []) h = ground arith
  starts-append (a ∷ []) (b ∷ c ∷ u) h = ground arith
  starts-append (a ∷ b ∷ []) [] h = ground arith
  starts-append (a ∷ b ∷ []) (c ∷ u) h = ground arith
  starts-append (a ∷ b ∷ c ∷ t) u h = h

  trim_front-suffix : (t : Text) → (cut : Text) × (t ≡ cut ++ trim_front t)
  unfolding trim_front
  trim_front-suffix [] = ([], refl)
  trim_front-suffix (a ∷ []) = elim (Bool-cases (s1 a)) [
    | inl h ↦ (a ∷ [], ground arith)
    | inr h ↦ ([], ground arith)
  ]
  trim_front-suffix (a ∷ b ∷ []) = elim (Bool-cases (s1 a)) [
    | inl h ↦ let (cut, e) = trim_front-suffix (b ∷ []) in (a ∷ cut, ground (arith, e))
    | inr h ↦ elim (Bool-cases (s2 a b)) [
      | inl i ↦ (a ∷ b ∷ [], ground arith)
      | inr i ↦ ([], ground arith)
    ]
  ]
  trim_front-suffix (a ∷ b ∷ c ∷ t) = elim (Bool-cases (s1 a)) [
    | inl h ↦ let (cut, e) = trim_front-suffix (b ∷ c ∷ t) in (a ∷ cut, ground (arith, e))
    | inr h ↦ elim (Bool-cases (s2 a b)) [
      | inl i ↦ let (cut, e) = trim_front-suffix (c ∷ t) in (a ∷ b ∷ cut, ground (arith, e))
      | inr i ↦ elim (Bool-cases (s3 a b c)) [
        | inl j ↦ let (cut, e) = trim_front-suffix t in (a ∷ b ∷ c ∷ cut, ground (arith, e))
        | inr j ↦ ([], ground arith)
      ]
    ]
  ]

unfoldable pub trim_left : Text → Text
unfolding trim_front
trim_left t = trim_front space1 space2 space3 t

-- From the back, the bytes of a space come in reverse.
unfoldable pub trim_right : Text → Text
unfolding trim_front
trim_right t = reverse (trim_front space1 space2_back space3_back (reverse t))

unfoldable pub trim_space : Text → Text
unfolding trim_left trim_right
trim_space t = trim_right (trim_left t)

abbrev lower : ℕ → ℕ
lower b = if leb 65 b && leb b 90 then b + 32 else b

-- `ToLower` on the letters of ASCII. The program only compares the result with words of ASCII without
-- an i or a k, which no other letter becomes.
unfoldable pub to_lower : Text → Text
to_lower t = map lower t

pub record IsTrimmed (t : Text) : Type 0 where
  pub front : starts space1 space2 space3 t ≡ false
  pub back : starts space1 space2_back space3_back (reverse t) ≡ false

trim_right-prefix : (t : Text) → (cut : Text) × (t ≡ trim_right t ++ cut)
unfolding trim_right
trim_right-prefix t =
    let (cut, e) = trim_front-suffix space1 space2_back space3_back (reverse t) in
    (reverse cut, sym (reverse-reverse t) ∙ ap reverse e ∙ reverse-append cut _)

-- What is trimmed has no space at its ends.
pub trim_space-IsTrimmed : (t : Text) → IsTrimmed (trim_space t)
unfolding trim_space trim_right trim_left
trim_space-IsTrimmed t =
    let (cut, e) = trim_right-prefix (trim_left t) in
    record {
      front = starts-append space1 space2 space3 (trim_space t) cut (
          subst (λ x. starts space1 space2 space3 x ≡ false) e
            (starts-trim_front space1 space2 space3 t));
      back =
          subst (λ x. starts space1 space2_back space3_back x ≡ false)
            (sym
              (reverse-reverse (trim_front space1 space2_back space3_back (reverse (trim_left t)))))
            (starts-trim_front space1 space2_back space3_back (reverse (trim_left t)));
    }

-- A text without spaces at its ends stays as it is.
pub trim_space_done : (t : Text) → IsTrimmed t → trim_space t ≡ t
unfolding trim_space trim_right trim_left
trim_space_done t h =
    ap trim_right (trim_front_done space1 space2 space3 t h.front)
    ∙ ap reverse (trim_front_done space1 space2_back space3_back (reverse t) h.back)
    ∙ reverse-reverse t
