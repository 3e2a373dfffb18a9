-- ===== src/ImageAllow/Laws.antt =====
-- What a loaded list allows.
use run_secure.Common.{
  ◌≡◌, refl, sym, ap, ◌∙◌, ◌↔◌, ◌⊎◌, inl, inr, Bool, true, Option, none, some, List, [], Any,
  bytes_equal, arith,
}
use run_secure.Common.Text.{Text}
use run_secure.ImageAllow.{
  Allowlist, File, missing, unreadable, lines, Loaded, loaded, load_error, parse, load, with_extra,
  add_file, add_extra, load_with_extra, allows,
}
use run_secure.ImageAllow.Parsing.{Names, allows-nil, allows-merge, or_iff, parse_lines-allows}

-- A line of a file names the reference.
abbrev pub ListedIn : Text → File → Type 0
ListedIn ref missing = ⊥
ListedIn ref unreadable = ⊥
ListedIn ref (lines texts broken) = Any (Names ref) texts

abbrev pub ListedInExtra : Text → Option File → Type 0
ListedInExtra ref none = ⊥
ListedInExtra ref (some file) = ListedIn ref file

parse-allows :
    (texts : List Text) (broken : Bool) (a : Allowlist) (ref : Text)
    → parse texts broken ≡ loaded a
    → (allows a ref ≡ true) ↔ Any (Names ref) texts
unfolding parse
parse-allows texts broken a ref e =
    let all = parse_lines-allows 0 [] a texts broken ref e in
    (
      λ h. elim (all.0 h) [ inl old ↦ absurd (ground (arith, allows-nil ref)) | inr new ↦ new ],
      λ w. all.1 (inr w),
    )

load-allows :
    (file : File) (a : Allowlist) (ref : Text)
    → load file ≡ loaded a
    → (allows a ref ≡ true) ↔ ListedIn ref file
unfolding load
load-allows missing a ref e = absurd (ground arith)
load-allows unreadable a ref e = absurd (ground arith)
load-allows (lines texts broken) a ref e = parse-allows texts broken a ref e

loaded-eq : (x y : Allowlist) → loaded x ≡ loaded y → x ≡ y
loaded-eq x y h = cc

with_extra-allows :
    (base a : Allowlist) (extra : Loaded) (texts : List Text) (broken : Bool) (ref : Text)
    → parse texts broken ≡ extra
    → with_extra base extra ≡ loaded a
    → (allows a ref ≡ true) ↔ ((allows base ref ≡ true) ⊎ Any (Names ref) texts)
with_extra-allows base a (load_error x) texts broken ref p e = absurd (ground arith)
with_extra-allows base a (loaded extra) texts broken ref p e =
    let listed = parse-allows texts broken extra ref p in
    let merged = ap (λ x. allows x ref) (sym (loaded-eq _ _ e)) ∙ allows-merge base extra ref in
    let both = or_iff (allows base ref) (allows extra ref) in
    (
      λ h. elim (both.0 (sym merged ∙ h)) [ inl old ↦ inl old | inr new ↦ inr (listed.0 new) ],
      λ w. merged ∙ both.1 (elim w [ inl old ↦ inl old | inr new ↦ inr (listed.1 new) ]),
    )

alone :
    (base a : Allowlist) (ref : Text)
    → loaded base ≡ loaded a
    → (allows a ref ≡ true) ↔ ((allows base ref ≡ true) ⊎ ⊥)
alone base a ref e =
    let same = ap (λ x. allows x ref) (loaded-eq base a e) in
    (λ h. inl (same ∙ h), λ w. elim w [ inl h ↦ sym same ∙ h | inr f ↦ absurd f ])

add_file-allows :
    (base a : Allowlist) (extra : Option File) (ref : Text)
    → add_file base extra ≡ loaded a
    → (allows a ref ≡ true) ↔ ((allows base ref ≡ true) ⊎ ListedInExtra ref extra)
add_file-allows base a none ref e = alone base a ref e
add_file-allows base a (some missing) ref e = alone base a ref e
add_file-allows base a (some unreadable) ref e = absurd (ground arith)
add_file-allows base a (some (lines texts broken)) ref e =
    with_extra-allows base a (parse texts broken) texts broken ref refl e

-- When both files load, a reference is allowed exactly when some line of the first file, or of the
-- second, is the reference between spaces, is neither blank nor a comment, and has a digest in it.
pub load_with_extra-allows_iff :
    (file : File) (extra : Option File) (a : Allowlist) (ref : Text)
    → load_with_extra file extra ≡ loaded a
    → (allows a ref ≡ true) ↔ (ListedIn ref file ⊎ ListedInExtra ref extra)
unfolding load_with_extra
load_with_extra-allows_iff file extra a ref e = from_first (load file) refl e
  where
    from_first :
        (first : Loaded)
        → load file ≡ first
        → add_extra first extra ≡ loaded a
        → (allows a ref ≡ true) ↔ (ListedIn ref file ⊎ ListedInExtra ref extra)
    from_first (load_error x) l h = absurd (ground arith)
    from_first (loaded base) l h =
        let first = load-allows file base ref l in
        let both = add_file-allows base a extra ref h in
        (
          λ g. elim (both.0 g) [ inl old ↦ inl (first.0 old) | inr new ↦ inr new ],
          λ w. both.1 (elim w [ inl old ↦ inl (first.1 old) | inr new ↦ inr new ]),
        )
