-- ===== src/ImageAllow/Parsing.antt =====
-- What the entries of parsed lines and of a merge allow.
use run_secure.Common.{
  ℕ, suc, ◌≡◌, refl, sym, ap, ◌∙◌, ◌↔◌, ◌⊎◌, inl, inr, Bool, true, false, ◌||◌, List, [], ◌∷◌, Any,
  ◌==◌, bytes_equal, bytes_eq_iff, Bool-cases, arith,
}
use run_secure.Common.Map.{lookup, insert, lookup-insert}
use run_secure.Common.Text.{Text}
use run_secure.ImageAllow.{
  Allowlist, loaded, trim_space, is_skipped, is_pinned, parse_lines, merge, allows,
}

-- A line with the reference on it, which is not a comment and has a digest.
abbrev pub Names : Text → Text → Type 0
Names ref text = (trim_space text ≡ ref) × (is_skipped ref ≡ false) × (is_pinned ref ≡ true)

allows-insert :
    (k ref : Text) (a : Allowlist) → allows (insert k tt a) ref ≡ (k == ref || allows a ref)
unfolding allows
allows-insert k ref a = ground (arith, lookup-insert k ref tt a)

allows-cons : (k ref : Text) (a : Allowlist) → allows ((k, tt) ∷ a) ref ≡ (k == ref || allows a ref)
unfolding allows lookup
allows-cons k ref a = ground arith

pub allows-nil : (ref : Text) → allows [] ref ≡ false
unfolding allows lookup
allows-nil ref = refl

pub allows-merge :
    (base extra : Allowlist) (ref : Text)
    → allows (merge base extra) ref ≡ (allows base ref || allows extra ref)
unfolding merge
allows-merge base [] ref = ground (arith, allows-nil ref)
allows-merge base ((k, u) ∷ extra) ref = ground (
  arith,
  allows-merge (insert k tt base) extra ref,
  allows-insert k ref base,
  allows-cons k ref extra,
)

pub or_iff : (a b : Bool) → ((a || b) ≡ true) ↔ ((a ≡ true) ⊎ (b ≡ true))
or_iff true b = (λ _. inl refl, λ _. refl)
or_iff false b = (inr, λ w. elim w [ inl e ↦ absurd (ground arith) | inr e ↦ e ])

parse_lines-skipped :
    (n : ℕ) (a : Allowlist) (text : Text) (rest : List Text) (broken : Bool)
    → is_skipped (trim_space text) ≡ true
    → parse_lines n a (text ∷ rest) broken ≡ parse_lines (suc n) a rest broken
unfolding parse_lines
parse_lines-skipped n a text rest broken h = ground arith

parse_lines-pinned :
    (n : ℕ) (a : Allowlist) (text : Text) (rest : List Text) (broken : Bool)
    → is_skipped (trim_space text) ≡ false
    → is_pinned (trim_space text) ≡ true
    → parse_lines n a (text ∷ rest) broken
      ≡ parse_lines (suc n) (insert (trim_space text) tt a) rest broken
unfolding parse_lines
parse_lines-pinned n a text rest broken h g = ground arith

parse_lines-bad :
    (n : ℕ) (a r : Allowlist) (text : Text) (rest : List Text) (broken : Bool)
    → is_skipped (trim_space text) ≡ false
    → is_pinned (trim_space text) ≡ false
    → parse_lines n a (text ∷ rest) broken ≡ loaded r
    → ⊥
unfolding parse_lines
parse_lines-bad n a r text rest broken h g e = ground arith

parse_lines-nil :
    (n : ℕ) (a r : Allowlist) (broken : Bool) → parse_lines n a [] broken ≡ loaded r → a ≡ r
unfolding parse_lines
parse_lines-nil n a r true e = cc
parse_lines-nil n a r false e = cc

pub parse_lines-allows :
    (n : ℕ) (a r : Allowlist) (texts : List Text) (broken : Bool) (ref : Text)
    → parse_lines n a texts broken ≡ loaded r
    → (allows r ref ≡ true) ↔ ((allows a ref ≡ true) ⊎ Any (Names ref) texts)
parse_lines-allows n a r [] broken ref e =
    let same = ap (λ x. allows x ref) (parse_lines-nil n a r broken e) in
    (λ h. inl (same ∙ h), λ w. elim w [ inl h ↦ sym same ∙ h | inr f ↦ absurd f ])
parse_lines-allows n a r (text ∷ rest) broken ref e =
    elim (Bool-cases (is_skipped (trim_space text))) [
      | inl skip ↦
          let later =
            parse_lines-allows (suc n) a r rest broken ref
              (sym (parse_lines-skipped n a text rest broken skip) ∙ e) in
          (
            λ h. elim (later.0 h) [ inl old ↦ inl old | inr new ↦ inr (inr new) ],
            λ w. later.1 (elim w [
              | inl old ↦ inl old
              | inr (inl (is, counts, _)) ↦
                  absurd (true-ne-false (sym skip ∙ ap is_skipped is ∙ counts))
              | inr (inr new) ↦ inr new
            ]),
          )
      | inr counts ↦ elim (Bool-cases (is_pinned (trim_space text))) [
        | inr bad ↦ absurd (parse_lines-bad n a r text rest broken counts bad e)
        | inl pinned ↦
            let line = trim_space text in
            let later =
              parse_lines-allows (suc n) (insert line tt a) r rest broken ref
                (sym (parse_lines-pinned n a text rest broken counts pinned) ∙ e) in
            let added = allows-insert line ref a in
            (
              λ h. elim (later.0 h) [
                | inr new ↦ inr (inr new)
                | inl old ↦ elim ((or_iff (line == ref) (allows a ref)).0 (sym added ∙ old)) [
                  | inr before ↦ inl before
                  | inl this ↦
                      let is = (bytes_eq_iff line ref).0 this in
                      inr
                        (inl (is, sym (ap is_skipped is) ∙ counts, sym (ap is_pinned is) ∙ pinned))
                ]
              ],
              λ w. later.1 (elim w [
                | inl old ↦ inl (added ∙ (or_iff (line == ref) (allows a ref)).1 (inr old))
                | inr (inl (is, _, _)) ↦ inl (
                    added
                    ∙ (or_iff (line == ref) (allows a ref)).1 (inl ((bytes_eq_iff line ref).1 is)))
                | inr (inr new) ↦ inr new
              ]),
            )
      ]
    ]
  where
    true-ne-false : true ≡ false → ⊥
    true-ne-false h = cc
