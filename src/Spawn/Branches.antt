-- ===== src/Spawn/Branches.antt =====
-- Properties of what spawn.go and lifecycle.go do, branch by branch: one lemma for each of their tests.
use run_secure.Common.{
  ◌≡◌, refl, Bool, true, false, Option, none, some, ◌⊎◌, inl, inr, if◌then◌else◌,
}
use run_secure.Spawn.{Error, failing, returning}

module _ {ℓ κ} {A : Type ℓ} (P : A → Type κ) where
  pub failing_holds :
      {E : Type 0} (e : Option E) (f : E → A) (a : A)
      → ((d : E) → P (f d))
      → P a
      → P (failing e f a)
  failing_holds none f a h k = k
  failing_holds (some e) f a h k = h e

  pub returning_holds :
      {B : Type ℓ} (r : Error ⊎ B) (f : Error → A) (g : B → A)
      → ((e : Error) → P (f e))
      → ((b : B) → P (g b))
      → P (returning r f g)
  returning_holds (inl e) f g h k = h e
  returning_holds (inr b) f g h k = k b

  pub if_holds : (b : Bool) (x y : A) → P x → P y → P (if b then x else y)
  if_holds true x y h k = h
  if_holds false x y h k = k

  -- The same, with the branch that is taken at hand.
  pub failing_shows :
      {E : Type 0} (e : Option E) (f : E → A) (a : A)
      → ((d : E) → e ≡ some d → P (f d))
      → (e ≡ none → P a)
      → P (failing e f a)
  failing_shows none f a h k = k refl
  failing_shows (some e) f a h k = h e refl

  pub returning_shows :
      {B : Type ℓ} (r : Error ⊎ B) (f : Error → A) (g : B → A)
      → ((e : Error) → r ≡ inl e → P (f e))
      → ((b : B) → r ≡ inr b → P (g b))
      → P (returning r f g)
  returning_shows (inl e) f g h k = h e refl
  returning_shows (inr b) f g h k = k b refl

  pub if_shows :
      (b : Bool) (x y : A) → (b ≡ true → P x) → (b ≡ false → P y) → P (if b then x else y)
  if_shows true x y h k = h refl
  if_shows false x y h k = k refl
