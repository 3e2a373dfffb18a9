-- ===== src/Scope/Chains.antt =====
-- Rows of tests that return at the first failure, and texts of which none stands twice.
use run_secure.Common.{
  ◌≡◌, refl, Bool, true, false, not, ◌||◌, Option, none, some, List, [], ◌∷◌, any, ◌⊎◌, inl, inr,
  ◌==◌, string_eq, bytes_equal, arith,
}
use run_secure.Common.Text.{Text}
use run_secure.Scope.{ScopeError, refuse_if, and_then, is_some}

-- A chain of tests that is passed has passed each of them.
pub passed :
    {A : Type 0} (test : Bool) (e : ScopeError) (rest : ScopeError ⊎ A) (a : A)
    → refuse_if test e rest ≡ inr a
    → (test ≡ false) × (rest ≡ inr a)
unfolding refuse_if
passed true e rest a h = absurd (cc h)
passed false e rest a h = (refl, h)

pub then_passed :
    {A B : Type 0} (m : ScopeError ⊎ A) (rest : A → ScopeError ⊎ B) (b : B)
    → and_then m rest ≡ inr b
    → (a : A) × (m ≡ inr a) × (rest a ≡ inr b)
unfolding and_then
then_passed (inl e) rest b h = absurd (cc h)
then_passed (inr a) rest b h = (a, refl, h)

pub negated : (b : Bool) → not b ≡ false → b ≡ true
negated b h = ground arith

pub neither : (a b : Bool) → (a || b) ≡ false → (a ≡ false) × (b ≡ false)
neither a b h = ground arith

pub not_some : {A : Type 0} (o : Option A) → is_some o ≡ false → o ≡ none
not_some none h = refl
not_some (some a) h = absurd (cc h)

-- No two of the texts are equal.
abbrev pub NoRepeats : List Text → Type 0
NoRepeats [] = Unit
NoRepeats (x ∷ xs) = (any (λ other. other == x) xs ≡ false) × NoRepeats xs

-- Each text is new to those before it.
abbrev pub Fresh : List Text → List Text → Type 0
Fresh seen [] = Unit
Fresh seen (x ∷ xs) = (any (λ other. other == x) seen ≡ false) × Fresh (x ∷ seen) xs

Fresh-apart :
    (x : Text) (seen xs : List Text)
    → any (λ other. other == x) seen ≡ true
    → Fresh seen xs
    → any (λ other. other == x) xs ≡ false
Fresh-apart x seen [] h f = refl
Fresh-apart x seen (y ∷ ys) h f =
    ground (arith, Fresh-apart x (y ∷ seen) ys (ground arith) f.1, bytes_equal.equal_iff y x)

pub Fresh-NoRepeats : (seen xs : List Text) → Fresh seen xs → NoRepeats xs
Fresh-NoRepeats seen [] f = tt
Fresh-NoRepeats seen (x ∷ xs) f = (
  Fresh-apart x (x ∷ seen) xs (ground (arith, bytes_equal.equal_iff x x)) f.1,
  Fresh-NoRepeats (x ∷ seen) xs f.1,
)
