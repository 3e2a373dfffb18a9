-- ===== src/State.antt =====
-- infra/orchestrator/internal/state/state.go: the in-memory scheduling state of the orchestrator.
-- Each operation holds the mutex from its first line to its return, so it is one step on the
-- record. Times are nanoseconds; Go's zero time is 0. A cap that is negative in Go admits nothing,
-- as 0 does, so the caps are natural numbers.
pub mod Data
pub mod Ops
pub mod Records
pub mod Tally
pub mod Invariant
pub mod Counted
pub mod Debt
pub mod Sound
pub mod Teardown
pub mod Calls
pub mod Capacity
pub mod Fence
pub mod Apart
pub mod Bounded
mod Examples
