-- ===== src/Plugin/Names.antt =====
-- The names of cached results in cmd/multus-multivpc-cni/main.go: `sanitizeComponent`,
-- `truncateID`, `matchContainer` and `cacheFilePath`.
pub mod Laws
use multus_multivpc_cni.Base.{
  ℕ, zero, suc, Text, text, text_eq, nat_eq, Bool, true, false, not, ◌&&◌, ◌||◌, List, [], ◌∷◌,
  ◌++◌, ◌==◌, if◌then◌else◌, leb, ltb, length, take,
}

abbrev pub between : ℕ → ℕ → ℕ → Bool
between low high c = leb low c && leb c high

-- The bytes of letters, digits, `-` and `_`.
unfoldable pub is_safe : ℕ → Bool
is_safe c =
    between b'a' b'z' c || between b'A' b'Z' c || between b'0' b'9' c || c == b'-' || c == b'_'

-- UTF-8, as Go decodes it: whether the bytes begin a rune of two, three or four bytes, and whether
-- a byte continues one.
abbrev is_continuation : ℕ → Bool
is_continuation c = between 0x80 0xBF c

abbrev starts_two : ℕ → ℕ → Bool
starts_two a b = between 0xC2 0xDF a && is_continuation b

abbrev starts_three : ℕ → ℕ → Bool
starts_three a b =
    a == 0xE0 && between 0xA0 0xBF b
    || (between 0xE1 0xEC a || between 0xEE 0xEF a) && is_continuation b
    || a == 0xED && between 0x80 0x9F b

abbrev starts_four : ℕ → ℕ → Bool
starts_four a b =
    a == 0xF0 && between 0x90 0xBF b
    || between 0xF1 0xF3 a && is_continuation b
    || a == 0xF4 && between 0x80 0x8F b

abbrev continues : Text → Bool
continues [] = false
continues (c ∷ _) = is_continuation c

abbrev rest_of : Text → Text
rest_of [] = []
rest_of (_ ∷ cs) = cs

-- How many more bytes belong to the rune of a byte that is followed by some; none if the byte is
-- ASCII or no rune begins there.
unfoldable pub rune_tail : ℕ → Text → ℕ
rune_tail a [] = 0
rune_tail a (b ∷ cs) =
    if starts_two a b
    then 1
    else if starts_three a b && continues cs
    then 2
    else if starts_four a b && continues cs && continues (rest_of cs)
    then 3
    else 0

-- `strings.Map` of the function of `sanitizeComponent`, with a number of bytes still to skip.
unfoldable pub sanitize_from : ℕ → Text → Text
unfolding is_safe rune_tail
sanitize_from skip [] = []
sanitize_from zero (c ∷ cs) = (if is_safe c then c else b'_') ∷ sanitize_from (rune_tail c cs) cs
sanitize_from (suc skip) (c ∷ cs) = sanitize_from skip cs

unfoldable pub sanitize_component : Text → Text
unfolding sanitize_from
sanitize_component component = if component == [] then text "unknown" else sanitize_from 0 component

unfoldable pub truncate_id : Text → Text
truncate_id id = if ltb 12 (length id) then take 12 id else if id == [] then text "unknown" else id

unfoldable pub match_container : Text → Text → Bool
unfolding truncate_id
match_container stored_id container_id =
    if stored_id == [] then false else truncate_id stored_id == truncate_id container_id

-- The last element of the path that `cacheFilePath` joins to the directory.
unfoldable pub cache_file_name : Text → Text → Text → Text
unfolding sanitize_component truncate_id
cache_file_name pod_uid if_name container_id =
    let safe_pod = sanitize_component pod_uid in
    let safe_if = sanitize_component if_name in
    let safe_id = truncate_id (sanitize_component container_id) in
    safe_pod ++ (b'_' ∷ safe_if ++ (b'_' ∷ safe_id ++ text ".cache"))
