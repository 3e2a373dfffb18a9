-- ===== src/Proxy/Routes/Laws.antt =====
-- The requests that the route table lets through.
use run_secure.Common.{
  ◌≡◌, ◌≢◌, refl, sym, ap, subst, ◌∙◌, ◌↔◌, inl, inr, true, false, ◌&&◌, some, List, [], ◌∷◌, ◌++◌,
  any, Any, All, eqb_iff, ◌==◌, bytes_equal, bytes_eq_iff, Bool-cases, Option-cases, arith,
}
use run_secure.Common.Text.{Text, has_char}
use run_secure.Proxy.Routes.{
  Pattern, literal, with_segment, matches, after, span_segment, segment_then, allowed_routes,
  or_root, strip_version, route_allowed,
}

after_append : (p s rest : Text) → after p s ≡ some rest → s ≡ p ++ rest
unfolding after
after_append [] s rest h = ground arith
after_append (c ∷ p) [] rest h = absurd (ground arith)
after_append (c ∷ p) (d ∷ s) rest h = ground (arith, after_append p s rest, eqb_iff d c)

after-append : (p rest : Text) → after p (p ++ rest) ≡ some rest
unfolding after
after-append [] rest = refl
after-append (c ∷ p) rest = ground (arith, after-append p rest, eqb_iff c c)

span_joins : (s : Text) → (span_segment s).0 ++ (span_segment s).1 ≡ s
unfolding span_segment
span_joins [] = refl
span_joins (c ∷ s) = ground (arith, span_joins s)

span_no_slash : (s : Text) → has_char b'/' (span_segment s).0 ≡ false
unfolding span_segment
span_no_slash [] = refl
span_no_slash (c ∷ s) = ground (arith, span_no_slash s)

-- A text that is empty or starts with a slash.
abbrev StartsSlash : Text → Type 0
StartsSlash [] = Unit
StartsSlash (c ∷ s) = c ≡ b'/'

span-append :
    (segment rest : Text)
    → has_char b'/' segment ≡ false
    → StartsSlash rest
    → span_segment (segment ++ rest) ≡ (segment, rest)
unfolding span_segment
span-append [] [] h r = refl
span-append [] (c ∷ rest) h r = ground (arith, eqb_iff c b'/')
span-append (c ∷ segment) rest h r = ground (arith, span-append segment rest)

-- One path segment, then the suffix.
abbrev pub OneSegment : Text → Text → Type 0
OneSegment suffix s =
    (segment : Text) × (segment ≢ []) × (has_char b'/' segment ≡ false) × (s ≡ segment ++ suffix)

-- The paths that a pattern stands for.
abbrev pub Describes : Pattern → Text → Type 0
Describes (literal p) path = path ≡ p
Describes (with_segment prefix suffix) path =
    (rest : Text) × (path ≡ prefix ++ rest) × OneSegment suffix rest

abbrev Regular : Pattern → Type 0
Regular (literal p) = Unit
Regular (with_segment prefix suffix) = StartsSlash suffix

segment_then_iff :
    (suffix s : Text) → StartsSlash suffix → (segment_then suffix s ≡ true) ↔ OneSegment suffix s
unfolding segment_then
segment_then_iff suffix s r = (
  λ h.
      let (some_id, tail) = split_test (span_segment s).0 (span_segment s).1 h in
      (
        (span_segment s).0,
        some_id,
        span_no_slash s,
        sym (span_joins s) ∙ ap (λ t. (span_segment s).0 ++ t) tail,
      ),
  λ (segment, some_id, no_slash, is).
      subst (λ p. elim p.0 [ [] ↦ false | _ ∷ _ ↦ p.1 == suffix ] ≡ true)
        (sym (ap span_segment is ∙ span-append segment suffix no_slash r))
        (join_test segment some_id),
)
  where
    split_test :
        (segment rest : Text)
        → elim segment [ [] ↦ false | _ ∷ _ ↦ rest == suffix ] ≡ true
        → (segment ≢ []) × (rest ≡ suffix)
    split_test [] rest h = absurd (ground arith)
    split_test (c ∷ segment) rest h = (λ e. cc, (bytes_eq_iff rest suffix).0 h)

    join_test :
        (segment : Text)
        → segment ≢ []
        → elim segment [ [] ↦ false | _ ∷ _ ↦ suffix == suffix ] ≡ true
    join_test [] n = absurd (n refl)
    join_test (c ∷ segment) n = (bytes_eq_iff suffix suffix).1 refl

matches_iff :
    (pattern : Pattern) (path : Text)
    → Regular pattern
    → (matches pattern path ≡ true) ↔ Describes pattern path
unfolding matches
matches_iff (literal p) path r = bytes_eq_iff path p
matches_iff (with_segment prefix suffix) path r = (
  λ h. elim (Option-cases (after prefix path)) [
    | inl gone ↦ absurd (ground arith)
    | inr (rest, found) ↦ (
      rest,
      after_append prefix path rest found,
      (segment_then_iff suffix rest r).0 (ground arith),
    )
  ],
  λ (rest, is, one).
      let found = ap (after prefix) is ∙ after-append prefix rest in
      rw (found, matches) ((segment_then_iff suffix rest r).1 one),
)

-- A request is let through exactly when some row of the table has its method and a pattern that its
-- path, less the API version, matches: the literal path itself, or the prefix, one non-empty segment
-- without a slash, and the suffix.
pub route_allowed_iff :
    (method path : Text)
    → (route_allowed method path ≡ true)
      ↔ Any
          (λ route. (route.0 ≡ method) × Describes route.1 (or_root (strip_version path)))
          allowed_routes
unfolding route_allowed allowed_routes matches after segment_then
route_allowed_iff method path = rows allowed_routes all_regular
  where
    stripped : Text
    stripped = or_root (strip_version path)

    all_regular : All (λ route. Regular route.1) allowed_routes
    all_regular = (tt, (tt, (tt, (refl, (tt, (refl, (tt, (tt, (tt, (tt, tt))))))))))

    rows :
        (routes : List (Text × Pattern))
        → All (λ route. Regular route.1) routes
        → (any (λ route. route.0 == method && matches route.1 stripped) routes ≡ true)
          ↔ Any (λ route. (route.0 ≡ method) × Describes route.1 stripped) routes
    rows [] r = (λ h. absurd (ground arith), λ w. absurd w)
    rows (route ∷ routes) r =
        let this = matches_iff route.1 stripped r.0 in
        let named = bytes_eq_iff route.0 method in
        let later = rows routes r.1 in
        (
          λ h. elim (Bool-cases (route.0 == method && matches route.1 stripped)) [
            | inl holds ↦ inl (named.0 (ground arith), this.0 (ground arith))
            | inr fails ↦ inr (later.0 (ground arith))
          ],
          λ w. elim w [
            | inl here ↦ (let a = named.1 here.0 in let b = this.1 here.1 in ground arith)
            | inr there ↦ (let a = later.1 there in ground arith)
          ],
        )
