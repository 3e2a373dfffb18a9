-- ===== src/Proxy/Routes.antt =====
-- infra/socket-proxy/internal/proxy/routes.go: the method and path allowlist. The regular expressions
-- are matchers over the text; each has one way to match, so no match is missed.
pub mod Laws
use run_secure.Common.{
  ℕ, Bool, true, false, ◌&&◌, ◌||◌, Option, none, some, List, [], ◌∷◌, any, eqb, leb, if◌then◌else◌,
  ◌==◌, bytes_equal,
}
use run_secure.Common.Text.{Text, codes}
use run_secure.Proxy.Identity.{is_digit}

-- [0-9]*
unfoldable pub skip_digits : Text → Text
skip_digits [] = []
skip_digits (c ∷ s) = let rest = skip_digits s in if is_digit c then rest else c ∷ s

-- \d+: what follows the digits, if there is one.
unfoldable pub digits : Text → Option Text
unfolding skip_digits
digits [] = none
digits (c ∷ s) = if is_digit c then some (skip_digits s) else none

-- \.\d+
unfoldable pub dot_digits : Text → Option Text
unfolding digits
dot_digits [] = none
dot_digits (c ∷ s) = if eqb c b'.' then digits s else none

-- (\.\d+)?
unfoldable pub patch : Text → Text
unfolding dot_digits
patch s = elim (dot_digits s) [ none ↦ s | some rest ↦ rest ]

-- versionPrefix, ^/v\d+\.\d+(\.\d+)?: what follows it.
unfoldable pub version_rest : Text → Option Text
unfolding patch
version_rest [] = none
version_rest (a ∷ []) = none
version_rest (a ∷ b ∷ s) =
    if eqb a b'/' && eqb b b'v'
    then elim (digits s) [
      | none ↦ none
      | some minor ↦ elim (dot_digits minor) [ none ↦ none | some rest ↦ some (patch rest) ]
    ]
    else none

-- versionPrefix.ReplaceAllString(path, "")
unfoldable pub strip_version : Text → Text
unfolding version_rest
strip_version path = elim (version_rest path) [ none ↦ path | some rest ↦ rest ]

-- What follows a literal prefix.
unfoldable pub after : Text → Text → Option Text
after [] s = some s
after (c ∷ p) [] = none
after (c ∷ p) (d ∷ s) = if eqb d c then after p s else none

-- [^/]* and the text that follows.
unfoldable pub span_segment : Text → Text × Text
span_segment [] = ([], [])
span_segment (c ∷ s) =
    let rest = span_segment s in if eqb c b'/' then ([], c ∷ s) else (c ∷ rest.0, rest.1)

-- [^/]+ and a literal suffix, to the end.
unfoldable pub segment_then : Text → Text → Bool
unfolding span_segment
segment_then suffix s =
    let (segment, rest) = span_segment s in elim segment [ [] ↦ false | _ ∷ _ ↦ rest == suffix ]

-- One pattern of the table: a literal path, or one with a segment in it.
pub data Pattern : Type 0 where
  literal : Text → Pattern
  with_segment : Text → Text → Pattern

unfoldable pub matches : Pattern → Text → Bool
unfolding after segment_then
matches (literal p) path = path == p
matches (with_segment prefix suffix) path = elim (after prefix path) [
  | none ↦ false
  | some rest ↦ segment_then suffix rest
]

abbrev pub containers : Text
containers = codes "/containers/"

abbrev pub networks : Text
networks = codes "/networks/"

-- allowedRoutes
unfoldable pub allowed_routes : List (Text × Pattern)
allowed_routes =
    (codes "GET", literal (codes "/info"))
    ∷ (codes "GET", literal (codes "/version"))
    ∷ (codes "GET", literal (codes "/containers/json"))
    ∷ (codes "GET", with_segment containers (codes "/json"))
    ∷ (codes "POST", literal (codes "/containers/create"))
    ∷ (codes "POST", with_segment containers (codes "/start"))
    ∷ (codes "DELETE", with_segment containers [])
    ∷ (codes "GET", literal (codes "/networks"))
    ∷ (codes "POST", literal (codes "/networks/create"))
    ∷ (codes "DELETE", with_segment networks [])
    ∷ []

abbrev pub or_root : Text → Text
or_root [] = codes "/"
or_root (c ∷ s) = c ∷ s

-- RouteAllowed
unfoldable pub route_allowed : Text → Text → Bool
unfolding strip_version matches allowed_routes
route_allowed method path =
    let stripped = or_root (strip_version path) in
    any (λ route. route.0 == method && matches route.1 stripped) allowed_routes
