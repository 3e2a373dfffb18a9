-- ===== src/Proxy/Mount.antt =====
-- The checks of volumes and mount targets in infra/socket-proxy/internal/proxy/validate.go.
pub mod Clean
pub mod Binds
use run_secure.Common.{
  ℕ, ◌+◌, Bool, true, false, not, ◌&&◌, ◌||◌, Option, none, some, List, [], ◌∷◌, all, any, eqb, leb,
  if◌then◌else◌, ◌==◌, bytes_equal,
}
use mathlib.Core.List.{reverse}
use run_secure.Common.Text.{Text, codes, split, join, starts_with, has_char}
use run_secure.Proxy.Errors.{Check, ok, err, ◌>>=◌, ◌>>◌, bind_forbidden, egress_volume_denied}

abbrev pub dot : Text
dot = b'.' ∷ []

abbrev pub dot_dot : Text
dot_dot = b'.' ∷ b'.' ∷ []

abbrev pub pop : List Text → List Text
pop [] = []
pop (part ∷ parts) = parts

-- The elements that path.Clean keeps of a rooted path, the last one first: no empty element and no
-- dot, and a double dot takes away the element before it.
unfoldable pub resolve : List Text → List Text → List Text
resolve kept [] = kept
resolve kept (part ∷ parts) =
    resolve
      (if part == [] || part == dot
        then kept
        else if part == dot_dot
        then pop kept
        else part ∷ kept)
      parts

-- path.Clean of a path that begins with a slash.
unfoldable pub clean_rooted : Text → Text
unfolding resolve split join
clean_rooted [] = dot
clean_rooted (slash ∷ path) = b'/' ∷ join b'/' (reverse (resolve [] (split b'/' path)))

-- cleanMountTarget
unfoldable pub clean_mount_target : Text → Bool
unfolding clean_rooted starts_with
clean_mount_target target =
    starts_with target (codes "/")
    && not (target == codes "/")
    && clean_rooted target == target
    && not (has_char 0 target || has_char b':' target)

abbrev pub is_alphanumeric : ℕ → Bool
is_alphanumeric c = leb b'a' c && leb c b'z' || leb b'A' c && leb c b'Z' || leb b'0' c && leb c b'9'

abbrev pub is_volume_char : ℕ → Bool
is_volume_char c = is_alphanumeric c || eqb c b'_' || eqb c b'.' || eqb c b'-'

-- volumeName: ^[a-zA-Z0-9][a-zA-Z0-9_.-]+$
unfoldable pub volume_name : Text → Bool
volume_name [] = false
volume_name (c ∷ []) = false
volume_name (c ∷ d ∷ s) = is_alphanumeric c && all is_volume_char (d ∷ s)

-- The test of checkBinds on the parts of a bind, which split always gives at least one of.
unfoldable pub check_parts : Text → Text → List Text → Check
unfolding volume_name clean_mount_target starts_with
check_parts egress_vol role [] = err egress_volume_denied
check_parts egress_vol role (source ∷ rest) =
    if starts_with source (codes "/") then err bind_forbidden else elim rest [
      | [] ↦ err egress_volume_denied
      | target ∷ more ↦ elim more [
        | [] ↦ err egress_volume_denied
        | mode ∷ extra ↦ elim extra [
          | [] ↦
              if not (volume_name source)
                || egress_vol == []
                || not (source == egress_vol)
                || not (role == codes "proxy")
                || not (clean_mount_target target)
                || not (mode == codes "ro")
              then err egress_volume_denied
              else ok tt
          | _ ∷ _ ↦ err egress_volume_denied
        ]
      ]
    ]

-- checkBinds
unfoldable pub check_binds : List Text → Text → Text → Check
unfolding check_parts split
check_binds [] egress_vol role = ok tt
check_binds (bind ∷ binds) egress_vol role = do
  check_parts egress_vol role (split b':' bind)
  check_binds binds egress_vol role
