-- ===== src/TokenBucket.antt =====
-- infra/orchestrator/internal/state/ratelimit.go: the spawn-rate limiter. The source counts tokens
-- in float64. Here they are exact: an amount is in units of 10⁻¹⁸ token, a rate in 10⁻⁹ token per
-- second and a time in nanoseconds, so that elapsed time multiplied by the rate is an amount.
-- Rounding is not modelled.
pub mod Rate
mod Examples
use run_secure.Common.{ℕ, ◌^◌, Bool, true, false, if◌then◌else◌}
use run_secure.Common.Int.{ℤ, pos, pos_part, leb_ℤ, min_ℤ, ◌+ℤ◌, ◌-ℤ◌, ◌*ℤ◌}

unfoldable pub one_token : ℕ
one_token = 10 ^ 18

pub record TokenBucket : Type 0 where
  pub tokens : ℤ
  pub max_burst : ℕ
  pub rate : ℕ
  pub last : ℕ

-- A rate of one token per second.
abbrev pub default_rate : ℕ
default_rate = 10 ^ 9

-- NewTokenBucket, with the defaults for arguments that are not positive.
unfoldable pub new_token_bucket : ℤ → ℤ → ℕ → TokenBucket
unfolding one_token
new_token_bucket rate_per_sec burst now =
    let full = if leb_ℤ burst (pos 0) then one_token else pos_part burst in
    record {
      tokens = pos full;
      max_burst = full;
      rate = if leb_ℤ rate_per_sec (pos 0) then default_rate else pos_part rate_per_sec;
      last = now;
    }

-- TryTake
unfoldable pub try_take : TokenBucket → ℕ → TokenBucket × Bool
unfolding ◌+ℤ◌ ◌-ℤ◌ ◌*ℤ◌
try_take b now =
    let elapsed = pos now -ℤ pos b.last in
    let filled = min_ℤ (b.tokens +ℤ elapsed *ℤ pos b.rate) (pos b.max_burst) in
    if leb_ℤ (pos one_token) filled
    then (record b { tokens = filled -ℤ pos one_token; last = now }, true)
    else (record b { tokens = filled; last = now }, false)

-- Available
unfoldable pub available : TokenBucket → ℤ
available b = b.tokens
