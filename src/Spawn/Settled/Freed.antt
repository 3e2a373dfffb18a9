-- ===== src/Spawn/Settled/Freed.antt =====
-- When capacity is given back: after the retries of settleCleanup, and at the end of Execute.
use run_secure.Common.{
  ℕ, ◌≡◌, refl, String, Bool, true, false, ◌&&◌, ◌||◌, Option, none, some, ◌⊎◌, if◌then◌else◌,
  arith, string_eq,
}
use run_secure.Common.Int.{ℤ, pos, ltb_ℤ}
use run_secure.Common.Map.{lookup}
use run_secure.State.Data.{has_reservation}
use run_secure.State.Ops.{try_reserve}
use run_secure.State.Fence.{Owes}
use run_secure.Spawn.{Error, failing, Intent, Worker, with_state, report, detail_of}
use run_secure.Spawn.Cleanup.{
  Cleaning, block_teardown, block_runner_cleanup, retried_teardown, retried_deletion, reconcile_all,
  cleanup_result, settle_failures, settle_cleanup,
}
use run_secure.Spawn.Execute.{
  new_error, err_semaphore_unavailable, Answers, releasing, reserved as run_reserved, execute,
}
use run_secure.Spawn.Branches.{if_holds}
use run_secure.Spawn.Settled.{
  is_nil, torn_down, deleted, Debtor, Retried, retry_backend_teardown-Retried,
  retry_runner_deletion-Retried, mark_teardown_blocked-Owes, resolve_teardown-frees,
  release_reservation-frees,
}

module _ (intent : Intent) where
  abbrev id : String
  id = intent.spawn_id

  -- What has become of the spawn's reservation.
  abbrev pub Settles : Bool → Worker → Type 0
  Settles true w = lookup id w.host.state.reservations ≡ none
  Settles false w = Debtor intent w

  module _ (c : Cleaning) (runner_id : ℤ) (known : ltb_ℤ (pos 0) runner_id ≡ true) where
    retried_teardown-Retried :
        (w : Worker) (backend : Option Error)
        → Debtor intent w
        → Retried intent (torn_down c backend) (retried_teardown c w intent backend)
    unfolding retried_teardown
    retried_teardown-Retried w none h = (refl, h)
    retried_teardown-Retried w (some e) h =
        retry_backend_teardown-Retried intent c.ended w c.teardown_now c.teardowns h

    retried_deletion-Retried :
        (w : Worker) (runner : Option Error)
        → Debtor intent w
        → Retried intent (deleted c runner) (retried_deletion c w intent runner_id runner)
    unfolding retried_deletion
    retried_deletion-Retried w none h = (refl, h)
    retried_deletion-Retried w (some e) h =
        retry_runner_deletion-Retried intent runner_id known c w e h

    settled :
        (torn deletion : Option Error) (w v u : Worker) (f g : Error → Option Error)
        (result : Option Error) (x y : Bool)
        → is_nil torn ≡ x
        → is_nil deletion ≡ y
        → Debtor intent w
        → Debtor intent v
        → lookup id u.host.state.reservations ≡ none
        → Settles
            (x && y)
            (failing {A = Worker × Option Error} torn
              (λ e. (w, f e))
              (failing deletion (λ e. (v, g e)) (u, result))).0
    settled none none w v u f g result true true p q h k l = l
    settled none (some e) w v u f g result true false p q h k l = k
    settled (some e) deletion w v u f g result false y p q h k l = h
    settled none deletion w v u f g result false y p q h k l = absurd (ground arith)
    settled (some e) deletion w v u f g result true y p q h k l = absurd (ground arith)
    settled none none w v u f g result true false p q h k l = absurd (ground arith)
    settled none (some e) w v u f g result true true p q h k l = absurd (ground arith)

    reconcile_all-Settles :
        (w : Worker) (backend runner result : Option Error)
        → Debtor intent w
        → Settles
            (torn_down c backend && deleted c runner)
            (reconcile_all c w intent runner_id backend runner result).0
    unfolding reconcile_all with_state
    reconcile_all-Settles w backend runner result h =
        let first = retried_teardown-Retried w backend h in
        let torn = retried_teardown c w intent backend in
        let second = retried_deletion-Retried torn.0 runner first.1 in
        let gone = retried_deletion c torn.0 intent runner_id runner in
        settled torn.1 gone.1 torn.0 gone.0 _ _ _ result (torn_down c backend) (deleted c runner)
          first.0 second.0 first.1 second.1
          (resolve_teardown-frees intent gone.0.host.state second.1)

    block_teardown-Debtor :
        (w : Worker) (e : Option Error) (at : ℕ) → Debtor intent (block_teardown w intent e at)
    unfolding block_teardown with_state report
    block_teardown-Debtor w e at =
        let owing = mark_teardown_blocked-Owes intent w.host.state intent.repo (detail_of e) at in
        if_holds (Debtor intent) _ _ _ owing owing

    block_runner_cleanup-Debtor :
        (w : Worker) (e : Option Error) (at : ℕ)
        → Debtor intent (block_runner_cleanup w intent e at)
    unfolding block_runner_cleanup with_state report
    block_runner_cleanup-Debtor w e at =
        mark_teardown_blocked-Owes intent w.host.state intent.repo (detail_of e) at

    settle_failures-Settles :
        (w : Worker) (backend runner result : Option Error)
        → (is_nil backend && is_nil runner) ≡ false
        → Settles
            (torn_down c backend && deleted c runner)
            (settle_failures c w intent runner_id backend runner result).0
    unfolding settle_failures
    settle_failures-Settles w none none result h = absurd (ground arith)
    settle_failures-Settles w none (some e) result h =
        reconcile_all-Settles _ none (some e) result (block_runner_cleanup-Debtor w result c.at)
    settle_failures-Settles w (some e) none result h =
        reconcile_all-Settles _ (some e) none result (block_teardown-Debtor w result c.at)
    settle_failures-Settles w (some e) (some d) result h =
        reconcile_all-Settles _ (some e) (some d) result
          (block_runner_cleanup-Debtor (block_teardown w intent result c.at) result c.at)

  -- settleCleanup, called with a failed cleanup of a registered runner: if for each of the two
  -- cleanups that had failed a retry succeeds before the worker's context is done, the spawn's
  -- reservation is gone; otherwise the spawn still owes its teardown.
  pub settle_cleanup-Settles :
      (c : Cleaning) (w : Worker) (runner_id : ℤ) (backend runner original : Option Error)
      → ltb_ℤ (pos 0) runner_id ≡ true
      → (is_nil backend && is_nil runner) ≡ false
      → Settles
          (torn_down c backend && deleted c runner)
          (settle_cleanup c w intent runner_id backend runner original).0
  unfolding settle_cleanup
  settle_cleanup-Settles c w runner_id none none original known h = absurd (ground arith)
  settle_cleanup-Settles c w runner_id none (some e) original known h =
      settle_failures-Settles c runner_id known w none (some e)
        (cleanup_result original none (some e)) h
  settle_cleanup-Settles c w runner_id (some e) runner original known h =
      settle_failures-Settles c runner_id known w (some e) runner
        (cleanup_result original (some e) runner) h

-- When a spawn has its reservation, or is granted one, then at the end of Execute, however it is
-- answered, the reservation is gone or the spawn owes a teardown: no capacity leaks.
pub execute_gives_back :
    (a : Answers) (intent : Intent) (w : Worker)
    → (has_reservation w.host.state intent.spawn_id intent.repo
        || (try_reserve w.host.state intent.spawn_id intent.repo a.repo_max a.global_max
            a.reserve_at).1)
      ≡ true
    → (lookup intent.spawn_id (execute a intent w).0.host.state.reservations ≡ none)
      ⊎ Owes (execute a intent w).0.host.state intent.spawn_id
unfolding execute
execute_gives_back a intent w h =
    let answer =
      try_reserve w.host.state intent.spawn_id intent.repo a.repo_max a.global_max a.reserve_at in
    let held = with_state w answer.0 in
    by_holding (has_reservation w.host.state intent.spawn_id intent.repo) answer.1
      (run_reserved a intent w) (run_reserved a intent held)
      (held, some (new_error err_semaphore_unavailable)) h
  where
    Free : Worker × Option Error → Type 0
    Free p =
        (lookup intent.spawn_id p.0.host.state.reservations ≡ none)
        ⊎ Owes p.0.host.state intent.spawn_id

    freed : (p : Worker × Option Error) → Free (releasing a intent p)
    freed (v, e) = release_reservation-frees intent v.host.state

    by_holding :
        (b granted : Bool) (p q r : Worker × Option Error)
        → (b || granted) ≡ true
        → Free (if b then releasing a intent p else if granted then releasing a intent q else r)
    by_holding true granted p q r h = freed p
    by_holding false true p q r h = freed q
    by_holding false false p q r h = absurd (ground arith)
