-- ===== src/Proxy/Identity.antt =====
-- nonRootIdentity of infra/socket-proxy/internal/proxy/validate.go. The regular expressions are
-- matchers over the text; each has one way to match, so no match is missed.
pub mod Laws
use run_secure.Common.{
  ℕ, ◌+◌, ◌-◌, ◌*◌, ◌^◌, Bool, true, false, ◌&&◌, ◌||◌, Option, none, some, List, [], ◌∷◌, all, eqb,
  leb, ltb, if◌then◌else◌,
}
use run_secure.Common.Text.{Text, split}

abbrev pub is_digit : ℕ → Bool
is_digit c = leb b'0' c && leb c b'9'

abbrev pub is_positive_digit : ℕ → Bool
is_positive_digit c = leb b'1' c && leb c b'9'

-- ([0-9]|[1-9][0-9]*)$
unfoldable pub group_part : Text → Bool
group_part [] = false
group_part (c ∷ []) = is_digit c
group_part (c ∷ d ∷ s) = is_positive_digit c && all is_digit (d ∷ s)

-- [0-9]*(:([0-9]|[1-9][0-9]*))?$
unfoldable pub user_rest : Text → Bool
unfolding group_part
user_rest [] = true
user_rest (c ∷ s) = if is_digit c then user_rest s else eqb c b':' && group_part s

-- numericIdentity
unfoldable pub numeric_identity : Text → Bool
unfolding user_rest
numeric_identity [] = false
numeric_identity (c ∷ s) = is_positive_digit c && user_rest s

-- The loop of strconv.ParseUint in base 10.
unfoldable pub parse_digits : ℕ → Text → Option ℕ
parse_digits n [] = some n
parse_digits n (c ∷ s) = if is_digit c then parse_digits (n * 10 + (c - b'0')) s else none

-- strconv.ParseUint(s, 10, bits): no value for no digits, another character, or one out of range.
unfoldable pub parse_uint : ℕ → Text → Option ℕ
unfolding parse_digits
parse_uint bits [] = none
parse_uint bits (c ∷ s) = elim (parse_digits 0 (c ∷ s)) [
  | none ↦ none
  | some n ↦ if ltb n (2 ^ bits) then some n else none
]

abbrev pub is_some : Option ℕ → Bool
is_some none = false
is_some (some n) = true

-- nonRootIdentity
unfoldable pub non_root_identity : Text → Bool
unfolding numeric_identity parse_uint split
non_root_identity user =
    numeric_identity user && all (λ id. is_some (parse_uint 31 id)) (split b':' user)
