-- ===== src/Breaker.antt =====
-- infra/orchestrator/internal/state/breaker.go: the circuit breaker of one repository. Each method
-- holds the mutex throughout. The clock's reading is an argument, in nanoseconds.
pub mod Laws
mod Examples
use run_secure.Common.{
  ℕ, suc, ◌+◌, ◌*◌, ◌^◌, Bool, true, false, ◌&&◌, ◌||◌, not, List, [], ◌∷◌, eqb, leb, if◌then◌else◌,
}
use run_secure.Common.Int.{ℤ, pos, leb_ℤ, pos_part}

pub data BreakerState : Type 0 where
  closed opened half_open : BreakerState

pub record Breaker : Type 0 where
  pub state : BreakerState
  pub consecutive_failures : ℕ
  pub opened_at : ℕ
  pub threshold : ℕ
  pub cooldown : ℕ

-- NewBreaker, with the defaults for arguments that are not positive.
unfoldable pub new_breaker : ℤ → ℤ → Breaker
new_breaker threshold cooldown = record {
  state = closed;
  consecutive_failures = 0;
  opened_at = 0;
  threshold = if leb_ℤ threshold (pos 0) then 5 else pos_part threshold;
  cooldown = if leb_ℤ cooldown (pos 0) then 5 * 60 * 10 ^ 9 else pos_part cooldown;
}

abbrev pub is_open_state : BreakerState → Bool
is_open_state opened = true
is_open_state _ = false

abbrev pub is_closed_state : BreakerState → Bool
is_closed_state closed = true
is_closed_state _ = false

abbrev pub is_half_open_state : BreakerState → Bool
is_half_open_state half_open = true
is_half_open_state _ = false

-- IsOpen
unfoldable pub is_open : Breaker → Bool
is_open b = is_open_state b.state

-- MaybeHalfOpen: `now - openedAt >= cooldown`, written without a difference.
unfoldable pub maybe_half_open : Breaker → ℕ → Breaker × Bool
maybe_half_open b now =
    if is_open_state b.state && leb (b.opened_at + b.cooldown) now
    then (record b { state = half_open }, true)
    else (b, false)

-- RecordSuccess
unfoldable pub record_success : Breaker → Breaker × Bool
record_success b =
    (record b { state = closed; consecutive_failures = 0 }, not (is_closed_state b.state))

-- RecordFailure
unfoldable pub record_failure : Breaker → ℕ → Breaker × Bool × ℕ
record_failure b now =
    let failures = b.consecutive_failures + 1 in
    let counted = record b { consecutive_failures = failures } in
    let after =
      if is_half_open_state b.state || leb b.threshold failures
      then record counted { state = opened; opened_at = now }
      else counted in
    (after, not (is_open_state b.state) && is_open_state after.state, failures)
