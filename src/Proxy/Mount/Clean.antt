-- ===== src/Proxy/Mount/Clean.antt =====
-- What the cleaned mount targets are.
use mathlib.Core.List.{reverse, reverse-cons, append_assoc, append-nil, reverse-reverse}
use run_secure.Common.{
  ℕ, ◌≡◌, refl, ◌↔◌, true, false, ◌||◌, List, [], ◌∷◌, ◌++◌, All, if◌then◌else◌, ◌==◌, bytes_equal,
  bytes_eq, bytes_eq_iff, eqb_iff, All-reverse, arith,
}
use run_secure.Common.Text.{Text, split, join, starts_with, has_char, split-All, split-join}
use run_secure.Proxy.Mount.{dot, dot_dot, pop, resolve, clean_rooted, clean_mount_target}

-- An element of a clean path: not empty, not a dot or a double dot, and without a slash.
abbrev pub PlainElement : Text → Type 0
PlainElement part =
    ((part == []) ≡ false)
    × ((part == dot) ≡ false)
    × ((part == dot_dot) ≡ false)
    × (has_char b'/' part ≡ false)

All-pop : (parts : List Text) → All PlainElement parts → All PlainElement (pop parts)
All-pop [] a = tt
All-pop (part ∷ parts) a = a.1

resolve-All :
    (kept parts : List Text)
    → All PlainElement kept
    → All (λ part. has_char b'/' part ≡ false) parts
    → All PlainElement (resolve kept parts)
unfolding resolve
resolve-All kept [] a b = a
resolve-All kept (part ∷ parts) a b =
    resolve-All
      (if part == [] || part == dot
        then kept
        else if part == dot_dot
        then pop kept
        else part ∷ kept)
      parts (ground (arith, All-pop kept a)) b.1

resolve-plain :
    (kept parts : List Text) → All PlainElement parts → resolve kept parts ≡ reverse parts ++ kept
unfolding resolve
resolve-plain kept [] a = refl
resolve-plain kept (part ∷ parts) a =
    rw (reverse-cons part parts, append_assoc)
      (ground (arith, resolve-plain (part ∷ kept) parts a.1))

-- The target names these elements, one after the other, from the root.
abbrev pub Rooted : Text → List Text → Type 0
Rooted target parts = target ≡ b'/' ∷ join b'/' parts

abbrev pub Clean : Text → Type 0
Clean target =
    (part : Text) × (parts : List Text) × Rooted target (part ∷ parts)
    × All PlainElement (part ∷ parts)
    × (has_char 0 target ≡ false)
    × (has_char b':' target ≡ false)

-- A path that joins plain elements and is not empty has a first element.
first_element :
    (c : ℕ) (path : Text) (parts : List Text)
    → c ∷ path ≡ join b'/' parts
    → All PlainElement parts
    → (part : Text) × (rest : List Text) × (c ∷ path ≡ join b'/' (part ∷ rest))
      × All PlainElement (part ∷ rest)
unfolding join
first_element c path [] e a = absurd (ground arith)
first_element c path (part ∷ rest) e a = (part, rest, e, a)

clean_mount_target-Clean : (target : Text) → clean_mount_target target ≡ true → Clean target
unfolding clean_mount_target starts_with clean_rooted bytes_eq
clean_mount_target-Clean [] h = absurd (ground arith)
clean_mount_target-Clean (slash ∷ []) h = absurd (ground arith)
clean_mount_target-Clean (slash ∷ c ∷ path) h =
    let parts : List Text = reverse (resolve [] (split b'/' (c ∷ path))) in
    let cleaned : b'/' ∷ join b'/' parts ≡ slash ∷ c ∷ path =
      (bytes_eq_iff (b'/' ∷ join b'/' parts) (slash ∷ c ∷ path)).0 (ground arith) in
    let w = first_element c path parts (ground arith) (
      All-reverse PlainElement _
        (resolve-All [] (split b'/' (c ∷ path)) tt (split-All b'/' (c ∷ path)))) in
    (w.0, w.1, ground arith, w.3, ground arith, ground arith)

All-no_slash :
    (parts : List Text) → All PlainElement parts → All (λ part. has_char b'/' part ≡ false) parts
All-no_slash [] a = tt
All-no_slash (part ∷ parts) a = (a.0.3, All-no_slash parts a.1)

-- Cleaning leaves a path of plain elements as it is.
clean_rooted-join :
    (part : Text) (parts : List Text)
    → All PlainElement (part ∷ parts)
    → clean_rooted (b'/' ∷ join b'/' (part ∷ parts)) ≡ b'/' ∷ join b'/' (part ∷ parts)
unfolding clean_rooted
clean_rooted-join part parts a = rw (
  split-join b'/' part parts (All-no_slash (part ∷ parts) a),
  resolve-plain [] (part ∷ parts) a,
  append-nil,
  reverse-reverse,
)

join-starts :
    (part : Text) (parts : List Text)
    → (part == []) ≡ false
    → (join b'/' (part ∷ parts) == []) ≡ false
unfolding join bytes_eq
join-starts [] parts h = absurd (ground arith)
join-starts (c ∷ part) [] h = refl
join-starts (c ∷ part) (next ∷ parts) h = refl

Clean-clean_mount_target : (target : Text) → Clean target → clean_mount_target target ≡ true
Clean-clean_mount_target target (part, parts, rooted, plain, no_null, no_colon) =
    let path : Text = join b'/' (part ∷ parts) in
    unfold clean_mount_target starts_with bytes_eq in
    ground (
      arith,
      rooted,
      join-starts part parts plain.0.0,
      clean_rooted-join part parts plain,
      bytes_eq_iff (b'/' ∷ path) (b'/' ∷ path),
      eqb_iff b'/' b'/',
    )

-- A mount target is accepted exactly when it is a slash-rooted sequence of at least one element, no
-- element being empty, a dot or a double dot, and has neither a null character nor a colon in it.
pub clean_mount_target_iff : (target : Text) → (clean_mount_target target ≡ true) ↔ Clean target
clean_mount_target_iff target = (clean_mount_target-Clean target, Clean-clean_mount_target target)
