-- ===== src/Common/Text.antt =====
-- Texts that the code takes apart, as lists of code points, and what it calls of Go's `strings`.
use Prim.Native.Nat.{ℕ}
use Prim.Native.Char.{code}
use Prim.Native.String.{String}
use mathlib.Core.Path.{◌≡◌, refl, ap, ◌∙◌}
use mathlib.Core.Logic.{◌≢◌}
use mathlib.Core.Bool.{Bool, true, false, ◌&&◌, ◌||◌}
use mathlib.Core.List.{List, [], ◌∷◌, ◌++◌}
use native.Mathlib.Omega.{arith}
use run_secure.Common.Tests.{eqb, if◌then◌else◌}
use run_secure.Common.Lists.{All, any}

abbrev pub Text : Type 0
Text = List ℕ

abbrev pub codes : String → Text
codes String.[] = []
codes (String.◌∷◌ first rest) = code first ∷ codes rest

-- strings.HasPrefix(s, p)
unfoldable pub starts_with : Text → Text → Bool
starts_with s [] = true
starts_with [] (c ∷ p) = false
starts_with (d ∷ s) (c ∷ p) = eqb d c && starts_with s p

-- strings.Contains(s, p)
unfoldable pub contains : Text → Text → Bool
unfolding starts_with
contains [] p = starts_with [] p
contains (c ∷ s) p = starts_with (c ∷ s) p || contains s p

-- Whether a character of the text is the given one.
abbrev pub has_char : ℕ → Text → Bool
has_char c = any (λ d. eqb d c)

abbrev pub cons_head : ℕ → List Text → List Text
cons_head c [] = (c ∷ []) ∷ []
cons_head c (part ∷ parts) = (c ∷ part) ∷ parts

-- strings.Split(s, sep) for a separator of one character. There is always a first part.
unfoldable pub split : ℕ → Text → List Text
split sep [] = [] ∷ []
split sep (c ∷ s) = let parts = split sep s in if eqb c sep then [] ∷ parts else cons_head c parts

-- strings.Join(parts, sep)
unfoldable pub join : ℕ → List Text → Text
join sep [] = []
join sep (part ∷ []) = part
join sep (part ∷ next ∷ parts) = part ++ sep ∷ join sep (next ∷ parts)

-- No part of a split has the separator in it.
pub split-All : (sep : ℕ) (s : Text) → All (λ part. has_char sep part ≡ false) (split sep s)
unfolding split
split-All sep [] = (refl, tt)
split-All sep (c ∷ s) = cons_all (split sep s) (split-All sep s)
  where
    cons_all :
        (parts : List Text)
        → All (λ part. has_char sep part ≡ false) parts
        → All
            (λ part. has_char sep part ≡ false)
            (if eqb c sep then [] ∷ parts else cons_head c parts)
    cons_all [] a = ground arith
    cons_all (part ∷ parts) a = ground arith

put_head-ne-nil :
    (b : Bool) (c : ℕ) (parts : List Text) → (if b then [] ∷ parts else cons_head c parts) ≢ []
put_head-ne-nil true c parts e = cc
put_head-ne-nil false c [] e = cc
put_head-ne-nil false c (part ∷ parts) e = cc

pub split-ne-nil : (sep : ℕ) (s : Text) → split sep s ≢ []
unfolding split
split-ne-nil sep [] e = cc
split-ne-nil sep (c ∷ s) e = put_head-ne-nil (eqb c sep) c (split sep s) e

-- Joining undoes splitting.
pub join-split : (sep : ℕ) (s : Text) → join sep (split sep s) ≡ s
unfolding split join
join-split sep [] = refl
join-split sep (c ∷ s) = onto (split sep s) (join-split sep s) (split-ne-nil sep s)
  where
    onto :
        (parts : List Text)
        → join sep parts ≡ s
        → parts ≢ []
        → join sep (if eqb c sep then [] ∷ parts else cons_head c parts) ≡ c ∷ s
    onto [] e n = absurd (n refl)
    onto (part ∷ []) e n = ground arith
    onto (part ∷ next ∷ parts) e n = ground arith

split-part : (sep : ℕ) (part : Text) → has_char sep part ≡ false → split sep part ≡ part ∷ []
unfolding split
split-part sep [] h = refl
split-part sep (c ∷ part) h = ground (arith, split-part sep part)

split-append :
    (sep : ℕ) (part rest : Text)
    → has_char sep part ≡ false
    → split sep (part ++ sep ∷ rest) ≡ part ∷ split sep rest
unfolding split
split-append sep [] rest h = ground arith
split-append sep (c ∷ part) rest h = ground (arith, split-append sep part rest)

-- Splitting undoes joining, where the parts are without the separator.
pub split-join :
    (sep : ℕ) (part : Text) (parts : List Text)
    → All (λ p. has_char sep p ≡ false) (part ∷ parts)
    → split sep (join sep (part ∷ parts)) ≡ part ∷ parts
unfolding join
split-join sep part [] a = split-part sep part a.0
split-join sep part (next ∷ parts) a =
    split-append sep part (join sep (next ∷ parts)) a.0
    ∙ ap (◌∷◌ part) (split-join sep next parts a.1)

pub has_char-append : (c : ℕ) (s t : Text) → has_char c (s ++ t) ≡ (has_char c s || has_char c t)
has_char-append c [] t = refl
has_char-append c (d ∷ s) t = ground (arith, has_char-append c s t)
