-- ===== src/TokenBucket/Rate.antt =====
-- How many tokens a bucket hands out, for a clock that does not run backwards.
use run_secure.Common.{
  ℕ, ◌+◌, ◌-◌, ◌*◌, ◌≤◌, ◌≡◌, Bool, true, false, List, [], ◌∷◌, leb, if◌then◌else◌,
}
use run_secure.Common.Int.{pos}
use run_secure.TokenBucket.{TokenBucket, one_token, try_take}

-- One call of TryTake, `gap` nanoseconds after the one before: what is left, and how many tokens
-- it handed out.
pub take_after : TokenBucket → ℕ → TokenBucket
take_after b gap = (try_take b (b.last + gap)).0

abbrev pub one_if : Bool → ℕ
one_if true = 1
one_if false = 0

-- The tokens handed out over a series of calls.
unfoldable pub granted : TokenBucket → List ℕ → ℕ
unfolding take_after
granted b [] = 0
granted b (gap ∷ gaps) = one_if (try_take b (b.last + gap)).1 + granted (take_after b gap) gaps

unfoldable pub elapsed : List ℕ → ℕ
elapsed [] = 0
elapsed (gap ∷ gaps) = gap + elapsed gaps

-- The units in the bucket before the token is taken.
abbrev filled : TokenBucket → ℕ → ℕ → ℕ
filled b k gap = if leb (k + gap * b.rate) b.max_burst then k + gap * b.rate else b.max_burst

-- Within a bucket's life: it holds `k` units, no more than the burst.
module _ (b : TokenBucket) (k gap : ℕ) (e : b.tokens ≡ pos k) where
  abbrev left : ℕ
  left = if leb one_token (filled b k gap) then filled b k gap - one_token else filled b k gap

-- The bucket after a series of calls.
unfoldable pub after : TokenBucket → List ℕ → TokenBucket
after b [] = b
after b (gap ∷ gaps) = after (take_after b gap) gaps

-- What a bucket of the given rate and burst holds: some units, no more than the burst.
record Holds (rate burst : ℕ) (b : TokenBucket) : Type 0 where
  units : ℕ
  held : b.tokens ≡ pos units
  at_most : units ≤ burst
  same_rate : b.rate ≡ rate
  same_burst : b.max_burst ≡ burst
