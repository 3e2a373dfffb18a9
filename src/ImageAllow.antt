-- ===== src/ImageAllow.antt =====
-- infra/socket-proxy/internal/imageallow/imageallow.go: the list of image digests that a container
-- may be created from. A scanner's lines are given, with whether it ended in an error.
pub mod Parsing
pub mod Laws
mod Examples
use run_secure.Common.{
  ℕ, suc, ◌&&◌, eqb, leb, Bool, true, false, not, ◌||◌, Option, none, some, List, [], ◌∷◌, length,
  if◌then◌else◌, ◌==◌, bytes_equal,
}
use run_secure.Common.Map.{Map, lookup, insert}
use run_secure.Common.Text.{Text, codes, starts_with, contains}

-- Allowlist: a set of references.
abbrev pub Allowlist : Type 0
Allowlist = Map Text (Unit {0})

-- What opening and scanning a file gives.
pub data File : Type 0 where
  missing : File
  unreadable : File
  lines : List Text → (broken : Bool) → File

pub data LoadError : Type 0 where
  open_failed read_failed : LoadError
  not_a_digest : (line_no : ℕ) → LoadError

pub data Loaded : Type 0 where
  loaded : Allowlist → Loaded
  load_error : LoadError → Loaded

-- unicode.IsSpace
abbrev pub is_space : ℕ → Bool
is_space c =
    leb 9 c && leb c 13
    || eqb c 32
    || eqb c 133
    || eqb c 160
    || eqb c 5760
    || leb 8192 c && leb c 8202
    || eqb c 8232
    || eqb c 8233
    || eqb c 8239
    || eqb c 8287
    || eqb c 12288

unfoldable pub trim_left : Text → Text
trim_left [] = []
trim_left (c ∷ s) = let rest = trim_left s in if is_space c then rest else c ∷ s

-- Spaces at the end go with the last character before them.
unfoldable pub trim_right : Text → Text
trim_right [] = []
trim_right (c ∷ s) =
    let rest = trim_right s in
    elim rest [ [] ↦ if is_space c then [] else c ∷ [] | d ∷ t ↦ c ∷ d ∷ t ]

-- strings.TrimSpace
unfoldable pub trim_space : Text → Text
unfolding trim_left trim_right
trim_space s = trim_right (trim_left s)

abbrev pub is_skipped : Text → Bool
is_skipped line = line == [] || starts_with line (codes "#")

abbrev pub is_pinned : Text → Bool
is_pinned line = contains line (codes "@sha256:")

-- parse: the loop over the scanner's lines, from a line number and a set on.
unfoldable pub parse_lines : ℕ → Allowlist → List Text → (broken : Bool) → Loaded
unfolding trim_space starts_with contains insert
parse_lines line_no allowed [] broken = if broken then load_error read_failed else loaded allowed
parse_lines line_no allowed (text ∷ rest) broken =
    let line = trim_space text in
    let skipped = parse_lines (suc line_no) allowed rest broken in
    let added = parse_lines (suc line_no) (insert line tt allowed) rest broken in
    if is_skipped line
    then skipped
    else if not (is_pinned line)
    then load_error (not_a_digest (suc line_no))
    else added

unfoldable pub parse : List Text → (broken : Bool) → Loaded
unfolding parse_lines
parse texts broken = parse_lines 0 [] texts broken

-- Load
unfoldable pub load : File → Loaded
unfolding parse
load missing = load_error open_failed
load unreadable = load_error open_failed
load (lines texts broken) = parse texts broken

-- The loop that adds the extra entries.
unfoldable pub merge : Allowlist → Allowlist → Allowlist
unfolding insert
merge base [] = base
merge base ((ref, u) ∷ extra) = merge (insert ref tt base) extra

abbrev pub with_extra : Allowlist → Loaded → Loaded
with_extra base (load_error e) = load_error e
with_extra base (loaded extra) = loaded (merge base extra)

abbrev pub add_file : Allowlist → Option File → Loaded
add_file base none = loaded base
add_file base (some missing) = loaded base
add_file base (some unreadable) = load_error open_failed
add_file base (some (lines texts broken)) = with_extra base (parse texts broken)

abbrev pub add_extra : Loaded → Option File → Loaded
add_extra (load_error e) extra = load_error e
add_extra (loaded base) extra = add_file base extra

-- LoadWithExtra. There is no second file where its path is empty.
unfoldable pub load_with_extra : File → Option File → Loaded
unfolding load merge
load_with_extra file extra = add_extra (load file) extra

-- Allows
unfoldable pub allows : Allowlist → Text → Bool
unfolding lookup
allows allowed ref = elim (lookup ref allowed) [ none ↦ false | some u ↦ true ]

-- Size
unfoldable pub size : Allowlist → ℕ
size allowed = length allowed
