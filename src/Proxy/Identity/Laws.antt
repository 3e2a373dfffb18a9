-- ===== src/Proxy/Identity/Laws.antt =====
-- An accepted user runs as a numeric id other than 0.
use run_secure.Common.{
  ℕ, ◌+◌, ◌-◌, ◌*◌, ◌^◌, ◌≤◌, ◌<◌, ◌≡◌, ◌≢◌, refl, true, some, List, [], ◌∷◌, all, eqb,
  if◌then◌else◌, arith, Option-cases, inl, inr,
}
use run_secure.Common.Text.{Text, split, split-ne-nil, cons_head}
use run_secure.Proxy.Identity.{
  is_positive_digit, numeric_identity, parse_digits, parse_uint, is_some, non_root_identity,
}

-- The part of a user before the first colon.
abbrev pub first_part : List Text → Text
first_part [] = []
first_part (part ∷ parts) = part

parse_digits_grows : (n m : ℕ) (s : Text) → parse_digits n s ≡ some m → n ≤ m
unfolding parse_digits
parse_digits_grows n m [] h = ground arith
parse_digits_grows n m (c ∷ s) h = ground (arith, parse_digits_grows (n * 10 + (c - b'0')) m s)

parse_uint_pos :
    (c m : ℕ) (s : Text)
    → is_positive_digit c ≡ true
    → parse_uint 31 (c ∷ s) ≡ some m
    → (0 < m) × (m < 2 ^ 31)
unfolding parse_uint parse_digits
parse_uint_pos c m s h p = elim (Option-cases (parse_digits (c - b'0') s)) [
  | inl none_read ↦ ground arith
  | inr (k, read) ↦ ground (arith, parse_digits_grows (c - b'0') k s)
]

first_part_head :
    (c : ℕ) (s : Text)
    → is_positive_digit c ≡ true
    → first_part (split b':' (c ∷ s)) ≡ c ∷ first_part (split b':' s)
unfolding split
first_part_head c s h = onto (split b':' s)
  where
    onto :
        (parts : List Text)
        → first_part (if eqb c b':' then [] ∷ parts else cons_head c parts) ≡ c ∷ first_part parts
    onto [] = ground arith
    onto (part ∷ parts) = ground arith

first_part_parses :
    (parts : List Text)
    → parts ≢ []
    → all (λ id. is_some (parse_uint 31 id)) parts ≡ true
    → is_some (parse_uint 31 (first_part parts)) ≡ true
first_part_parses [] n h = absurd (n refl)
first_part_parses (part ∷ parts) n h = ground arith

-- The value of an accepted user's first part is a number from 1 to 2³¹ - 1.
accepted_uid :
    (c : ℕ) (s : Text)
    → is_positive_digit c ≡ true
    → is_some (parse_uint 31 (c ∷ s)) ≡ true
    → (uid : ℕ) × (parse_uint 31 (c ∷ s) ≡ some uid) × (0 < uid) × (uid < 2 ^ 31)
accepted_uid c s h some_value = elim (Option-cases (parse_uint 31 (c ∷ s))) [
  | inl e ↦ absurd (ground arith)
  | inr (uid, e) ↦ let bounds = parse_uint_pos c uid s h e in (uid, e, bounds.0, bounds.1)
]

-- A user that is accepted names, before its first colon, a numeric id from 1 to 2³¹ - 1: never root.
pub non_root_identity_uid :
    (user : Text)
    → non_root_identity user ≡ true
    → (uid : ℕ) × (parse_uint 31 (first_part (split b':' user)) ≡ some uid)
      × (0 < uid)
      × (uid < 2 ^ 31)
unfolding non_root_identity numeric_identity
non_root_identity_uid [] h = absurd (ground arith)
non_root_identity_uid (c ∷ s) h =
    let positive : is_positive_digit c ≡ true = ground arith in
    let head = first_part_head c s positive in
    rw head (
      accepted_uid c (first_part (split b':' s)) positive (
        rw head at
          (first_part_parses (split b':' (c ∷ s)) (split-ne-nil b':' (c ∷ s)) (ground arith))))
