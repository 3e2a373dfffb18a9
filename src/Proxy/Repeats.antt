-- ===== src/Proxy/Repeats.antt =====
-- Loops that remember the texts seen before, and the lists in which nothing is repeated. It serves
-- infra/socket-proxy/internal/proxy/validate.go, for JSON keys and for tmpfs options.
use run_secure.Common.{
  ◌≡◌, refl, ◌↔◌, Bool, false, List, [], ◌∷◌, any, All, ◌==◌, bytes_equal, bytes_eq_iff, arith,
}
use run_secure.Common.Text.{Text}

-- slices.Contains(texts, t), and seen[t].
abbrev pub includes : List Text → Text → Bool
includes texts t = any (λ u. u == t) texts

-- No text stands twice.
abbrev pub NoRepeat : List Text → Type 0
NoRepeat [] = Unit
NoRepeat (t ∷ texts) = (includes texts t ≡ false) × NoRepeat texts

abbrev pub Unseen : List Text → List Text → Type 0
Unseen seen texts = All (λ t. includes seen t ≡ false) texts

swap : (a b : Text) → (a == b) ≡ (b == a)
swap a b = ground (arith, bytes_eq_iff a b, bytes_eq_iff b a)

pub Unseen-cons :
    (t : Text) (seen texts : List Text)
    → Unseen (t ∷ seen) texts ↔ ((includes texts t ≡ false) × Unseen seen texts)
Unseen-cons t seen [] = (λ h. (refl, tt), λ h. tt)
Unseen-cons t seen (u ∷ texts) = (
  λ h. ground (arith, swap t u, Unseen-cons t seen texts),
  λ h. ground (arith, swap t u, Unseen-cons t seen texts),
)

pub Unseen-nil : (texts : List Text) → Unseen [] texts
Unseen-nil [] = tt
Unseen-nil (t ∷ texts) = (refl, Unseen-nil texts)
