-- ===== src/Breaker/Laws.antt =====
-- When the breaker opens, how long it denies, and what closes it.
use run_secure.Common.{
  ℕ, ◌+◌, ◌≤◌, ◌<◌, ◌≡◌, ◌⊎◌, refl, true, List, [], ◌∷◌, leb, arith, length, All,
}
use run_secure.Common.Int.{ℤ}
use run_secure.Breaker.{
  closed, opened, Breaker, new_breaker, is_open, maybe_half_open, record_success, record_failure,
}

-- The poll loop's calls, each with the clock's reading where it is read.
pub data Event : Type 0 where
  success : Event
  failure : ℕ → Event
  probe : ℕ → Event

unfoldable pub handle : Breaker → Event → Breaker
unfolding maybe_half_open record_success record_failure
handle b success = (record_success b).0
handle b (failure now) = (record_failure b now).0
handle b (probe now) = (maybe_half_open b now).0

unfoldable pub handle_all : Breaker → List Event → Breaker
unfolding handle
handle_all b [] = b
handle_all b (e ∷ es) = handle_all (handle b e) es

-- A breaker that is closed has failed less often in a row than its threshold; any other has failed.
pub record IsValid (b : Breaker) : Type 0 where
  pub positive : 0 < b.threshold
  pub below : b.state ≡ closed → b.consecutive_failures < b.threshold
  pub failed : (b.state ≡ closed) ⊎ (0 < b.consecutive_failures)

new_breaker-IsValid : (threshold cooldown : ℤ) → IsValid (new_breaker threshold cooldown)
unfolding new_breaker
new_breaker-IsValid threshold cooldown = ground arith

handle-IsValid : (b : Breaker) (e : Event) → IsValid b → IsValid (handle b e)
unfolding handle
handle-IsValid b success v = ground arith
handle-IsValid b (failure now) v = ground arith
handle-IsValid b (probe now) v = ground arith

handle_all-IsValid : (b : Breaker) (es : List Event) → IsValid b → IsValid (handle_all b es)
unfolding handle_all
handle_all-IsValid b [] v = v
handle_all-IsValid b (e ∷ es) v = handle_all-IsValid (handle b e) es (handle-IsValid b e v)

-- After any calls on a new breaker: if it is closed it has failed less often in a row than its
-- threshold, and otherwise it has failed at least once since the last success.
pub new_breaker-handle_all-IsValid :
    (threshold cooldown : ℤ) (es : List Event)
    → IsValid (handle_all (new_breaker threshold cooldown) es)
new_breaker-handle_all-IsValid threshold cooldown es =
    handle_all-IsValid _ es (new_breaker-IsValid threshold cooldown)

abbrev pub failures : List ℕ → List Event
failures [] = []
failures (now ∷ times) = failure now ∷ failures times

failures_keep_open :
    (b : Breaker) (times : List ℕ)
    → b.state ≡ opened
    → is_open (handle_all b (failures times)) ≡ true
unfolding handle_all is_open
failures_keep_open b [] o = ground arith
failures_keep_open b (now ∷ times) o =
    failures_keep_open (handle b (failure now)) times (ground arith)

-- A run of failures opens a closed breaker exactly when it brings the count to the threshold.
pub failures-is_open :
    (b : Breaker) (times : List ℕ)
    → b.state ≡ closed
    → b.consecutive_failures < b.threshold
    → is_open (handle_all b (failures times))
      ≡ leb b.threshold (b.consecutive_failures + length times)
unfolding handle_all is_open
failures-is_open b [] c h = ground arith
failures-is_open b (now ∷ times) c h = ground (
  arith,
  failures-is_open (record b { consecutive_failures = b.consecutive_failures + 1 }) times,
  failures_keep_open
      (record b {
        state = opened;
        consecutive_failures = b.consecutive_failures + 1;
        opened_at = now;
      })
      times,
)

-- The event is no success, and its clock reading lies in the window from `start` of length `span`.
abbrev pub Within : ℕ → ℕ → Event → Type 0
Within start span success = ⊥
Within start span (failure now) = (start ≤ now) × (now < start + span)
Within start span (probe now) = (start ≤ now) × (now < start + span)

abbrev Denying : ℕ → ℕ → Breaker → Type 0
Denying start span b = (b.state ≡ opened) × (start ≤ b.opened_at) × (b.cooldown ≡ span)

handle-Denying :
    (start span : ℕ) (b : Breaker) (e : Event)
    → Within start span e
    → Denying start span b
    → Denying start span (handle b e)
unfolding handle
handle-Denying start span b success w d = absurd w
handle-Denying start span b (failure now) w d = ground arith
handle-Denying start span b (probe now) w d = ground arith

handle_all-Denying :
    (start span : ℕ) (b : Breaker) (es : List Event)
    → All (Within start span) es
    → Denying start span b
    → Denying start span (handle_all b es)
unfolding handle_all
handle_all-Denying start span b [] w d = d
handle_all-Denying start span b (e ∷ es) w d =
    handle_all-Denying start span (handle b e) es w.1 (handle-Denying start span b e w.0 d)

-- An open breaker denies for its whole cooldown: probes and further failures whose clock readings
-- lie within the cooldown after it opened leave it open.
pub handle_all-is_open :
    (b : Breaker) (es : List Event)
    → b.state ≡ opened
    → All (Within b.opened_at b.cooldown) es
    → is_open (handle_all b es) ≡ true
unfolding is_open
handle_all-is_open b es o w =
    ground (arith, handle_all-Denying b.opened_at b.cooldown b es w (o, omega arith, refl))
