-- ===== src/ImageAllow/Examples.antt =====
-- The loading of concrete lists.
use run_secure.Common.{◌≡◌, refl, ◌↔◌, ◌⊎◌, true, false, Option, some, [], ◌∷◌, bytes_eq}
use run_secure.Common.Map.{insert}
use run_secure.Common.Text.{codes, starts_with, contains}
use run_secure.ImageAllow.{
  File, lines, loaded, load_error, not_a_digest, Allowlist, load_with_extra, parse, allows,
}
use run_secure.ImageAllow.Laws.{ListedIn, ListedInExtra, load_with_extra-allows_iff}

abbrev base : File
base = lines (codes "# pinned" ∷ codes " a/b@sha256:01 " ∷ [] ∷ []) false

abbrev extra : Option File
extra = some (lines (codes "c/d@sha256:02" ∷ []) false)

abbrev both : Allowlist
both = (codes "a/b@sha256:01", tt) ∷ (codes "c/d@sha256:02", tt) ∷ []

loads_both : load_with_extra base extra ≡ loaded both
unfolding load_with_extra bytes_eq insert starts_with contains
loads_both = refl

refuses_tag :
    parse (codes "a/b@sha256:01" ∷ codes "a/b:latest" ∷ []) false ≡ load_error (not_a_digest 2)
unfolding parse bytes_eq insert starts_with contains
refuses_tag = refl

load_with_extra-allows_iff_example :
    (allows both (codes "c/d@sha256:02") ≡ true)
    ↔ (ListedIn (codes "c/d@sha256:02") base ⊎ ListedInExtra (codes "c/d@sha256:02") extra)
load_with_extra-allows_iff_example =
    load_with_extra-allows_iff base extra both (codes "c/d@sha256:02") loads_both
