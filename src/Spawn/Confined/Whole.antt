-- ===== src/Spawn/Confined/Whole.antt =====
-- Execute, whole: what a worker does to the state that it shares with the others.
use run_secure.Common.{
  ◌≡◌, ◌≢◌, refl, String, true, false, Option, none, some, if◌then◌else◌, ◌==◌, string_eq, arith,
}
use run_secure.Common.Int.{ℤ}
use run_secure.State.Data.{State}
use run_secure.State.Ops.{try_reserve}
use run_secure.State.Debt.{IsSound}
use run_secure.State.Calls.{
  Call, jits, completes, exits_unassigned, reserves, releases, resolves, step, step-IsSound,
}
use run_secure.State.Fence.{Owes, resolves_id, step-Owes}
use run_secure.TokenBucket.{try_take}
use run_secure.RunnerYml.{validate_egress}
use run_secure.Spawn.{
  Error, Intent, Worker, with_state, report, spawn_started, leak_cleaned, runner_created,
  generate_jit, pause_for_rate_limit, fail,
}
use run_secure.Spawn.Cleanup.{deregister, settle_partial_spawn}
use run_secure.Spawn.Lifecycle.{LifecycleResult}
use run_secure.Spawn.Watch.{wait_for_lifecycle}
use run_secure.Spawn.Input.{YmlSnapshot, jit_runner_labels, spawn_input}
use run_secure.Spawn.Execute.{
  Jit, Handle, Answers, new_error, err_semaphore_unavailable, watching, container_name, exited,
  timed_out, undelivered, completed, conclude, deliver, not_spawned, acquired, not_acquired,
  configured, reserved, releasing, execute,
}
use run_secure.Spawn.Branches.{failing_holds, returning_holds, if_holds}
use run_secure.Spawn.Moves.{
  own, Moves, stays, moves, Moved, Moves-trans, mine, once, record_runner_operation-Moved,
  pause_for_rate_limit-Moved,
}
use run_secure.Spawn.Confined.{
  Leads, deregister-Leads, settle_cleanup-Leads, settle_partial_spawn-Leads, fail_and_leak-Leads,
}
use run_secure.Spawn.Confined.Watched.{wait_for_lifecycle-To}

module _ (a : Answers) (intent : Intent) where
  abbrev id : String
  id = intent.spawn_id

  exited-Leads :
      (w : Worker) (jit : Jit) (exit_code : ℤ) (teardown runner : Option Error)
      → Leads id w (exited a intent w jit exit_code teardown runner)
  unfolding exited fail report
  exited-Leads w jit exit_code teardown runner =
      let settled = settle_cleanup-Leads intent a.cleaning w jit.runner_id teardown runner none in
      failing_holds (Leads id w) teardown _ _ (λ _. settled)
        (failing_holds (Leads id w) runner _ _ (λ _. settled)
          (if_holds (Leads id w) _ (report w _, none) (report w _, some _) stays stays))

  timed_out-Leads :
      (w : Worker) (jit : Jit) (teardown runner : Option Error)
      → Leads id w (timed_out a intent w jit teardown runner)
  unfolding timed_out report
  timed_out-Leads w jit teardown runner =
      settle_cleanup-Leads intent a.cleaning w jit.runner_id teardown runner
        (some (new_error "spawn timed out"))

  undelivered-Leads :
      (w : Worker) (jit : Jit) (lifecycle : LifecycleResult) (e : Error)
      (teardown runner : Option Error)
      → Leads id w (undelivered a intent w jit lifecycle e teardown runner)
  unfolding undelivered fail report with_state step
  undelivered-Leads w jit lifecycle e teardown runner =
      let paused = pause_for_rate_limit-Moved id w e a.lifecycle_pause_at in
      let counted =
        if_holds (Moved id w) lifecycle.unassigned _ _ (moves paused exits_unassigned refl refl)
          paused in
      Moves-trans counted
        (settle_cleanup-Leads intent a.cleaning _ jit.runner_id teardown runner (some e))

  completed-Moved :
      (w : Worker) (jit : Jit) (lifecycle : LifecycleResult)
      → Moved id w (completed a intent w jit lifecycle)
  unfolding completed report with_state step
  completed-Moved w jit lifecycle =
      failing_holds (Moved id w) lifecycle.err _ _ (λ _. stays)
        (if_holds (Moved id w) _ _ _ stays (once completes refl refl))

  conclude-Leads :
      (w : Worker) (jit : Jit) (lifecycle : LifecycleResult)
      → Leads id w (conclude a intent w jit lifecycle)
  unfolding conclude
  conclude-Leads w jit lifecycle =
      let done = completed a intent w jit lifecycle in
      let gone = deregister done intent.repo jit.runner_id a.cleaning.deregister in
      let first =
        Moves-trans (completed-Moved w jit lifecycle)
          (deregister-Leads intent done jit.runner_id a.cleaning.deregister) in
      failing_holds (Leads id w) lifecycle.err _ _
        (λ e. Moves-trans first (undelivered-Leads gone.0 jit lifecycle e _ gone.1))
        (if_holds (Leads id w) lifecycle.timed_out _ _
          (Moves-trans first (timed_out-Leads gone.0 jit _ gone.1))
          (Moves-trans first (exited-Leads gone.0 jit lifecycle.exit_code _ gone.1)))

  deliver-Leads : (w : Worker) (jit : Jit) (h : Handle) → Leads id w (deliver a intent w jit h)
  unfolding deliver report
  deliver-Leads w jit h =
      let told = report w (runner_created h.network_name) in
      let waited = wait_for_lifecycle (watching a intent jit) told a.observation a.choices in
      Moves-trans (wait_for_lifecycle-To (watching a intent jit) told a.observation a.choices)
        (conclude-Leads waited.0 jit waited.1)

  not_spawned-Leads :
      (w : Worker) (jit : Jit) (h : Handle) (e : Error)
      → Leads id w (not_spawned a intent w jit h e)
  unfolding not_spawned fail report
  not_spawned-Leads w jit h e =
      let settled = settle_partial_spawn a.cleaning w intent jit.runner_id e in
      let first = settle_partial_spawn-Leads intent a.cleaning w jit.runner_id e in
      if_holds (Leads id w) _ _ _ (fail_and_leak-Leads intent a.cleaning w _ e jit.runner_id) (
        if_holds (Moved id w) _ settled.0 (report settled.0 (leak_cleaned jit.runner_id)) first
          first)

  acquired-Leads :
      (w : Worker) (snapshot : YmlSnapshot) (image : String) (jit : Jit)
      → Leads id w (acquired a intent w snapshot image jit)
  unfolding acquired report with_state step
  acquired-Leads w snapshot image jit =
      let known = mine id w (jits id jit.runner_id (container_name intent)) refl refl in
      returning_holds (Leads id w) (a.render id snapshot.yml) _ _
        (λ e. Moves-trans known (fail_and_leak-Leads intent a.cleaning _ _ e jit.runner_id))
        (λ rendered.
          let input =
            spawn_input intent snapshot a.seccomp_path image jit.encoded_jit_config rendered.0
              rendered.1 in
          failing_holds (Leads id w) (a.spawn input).1 _ _
            (λ e. Moves-trans known (not_spawned-Leads _ jit (a.spawn input).0 e))
            (Moves-trans known (deliver-Leads _ jit (a.spawn input).0)))

  not_acquired-Leads :
      (w : Worker) (jit : Jit) (e : Error) → Leads id w (not_acquired a intent w jit e)
  unfolding not_acquired fail report with_state step
  not_acquired-Leads w jit e =
      let paused = pause_for_rate_limit-Moved id w e a.pause_at in
      let known =
        mine id (pause_for_rate_limit w e a.pause_at)
          (jits id jit.runner_id (container_name intent)) refl refl in
      if_holds (Leads id w) _ _ _
        (Moves-trans paused
          (Moves-trans known (fail_and_leak-Leads intent a.cleaning _ _ e jit.runner_id)))
        paused

  configured-Leads :
      (w : Worker) (snapshot : YmlSnapshot) → Leads id w (configured a intent w snapshot)
  unfolding configured report
  configured-Leads w snapshot =
      let image =
        if snapshot.image_digest == ""
        then a.digest_for snapshot.yml.runtime
        else snapshot.image_digest in
      let told = report w (spawn_started image) in
      let answer =
        a.jit (container_name intent) (jit_runner_labels intent.scope snapshot.yml.labels) in
      let first = record_runner_operation-Moved id told intent.repo generate_jit answer.1 in
      failing_holds (Leads id w) answer.1 _ _
        (λ e. Moves-trans first (not_acquired-Leads _ answer.0 e))
        (Moves-trans first (acquired-Leads _ snapshot image answer.0))

  reserved-Leads : (w : Worker) → Leads id w (reserved a intent w)
  unfolding reserved fail report
  reserved-Leads w =
      let drawn = record w { bucket = (try_take w.bucket a.take_at).0 } in
      if_holds (Leads id w) _ (w, _) _ stays
        (if_holds (Leads id w) _ (report drawn _, _) _ stays
          (returning_holds (Leads id w) a.runner_yml _ _ (λ e. stays)
            (λ snapshot.
              failing_holds (Leads id w) (validate_egress snapshot.yml) _ _ (λ bad. stays)
                (configured-Leads drawn snapshot))))

  releasing-Leads :
      (w : Worker) (p : Worker × Option Error) → Leads id w p → Leads id w (releasing a intent p)
  unfolding releasing with_state step
  releasing-Leads w (v, e) m = Moves-trans m (mine id v (releases id) refl refl)

  -- However GitHub, the backend, the clock and the repository's file answer, Execute changes the
  -- shared state by a sequence of the calls of a worker: every call that names a reservation names
  -- the intent's own, and none configures, polls, sets a breaker, drains or stores a tag.
  pub execute-Moves :
      (w : Worker) → Moves intent.spawn_id w.host.state (execute a intent w).0.host.state
  unfolding execute with_state step
  execute-Moves w =
      let answer = try_reserve w.host.state id intent.repo a.repo_max a.global_max a.reserve_at in
      let held = with_state w answer.0 in
      let refused : Worker × Option Error = (held, some (new_error err_semaphore_unavailable)) in
      let granted = releasing a intent (reserved a intent held) in
      let call = reserves id intent.repo a.repo_max a.global_max a.reserve_at in
      let taken : Moved id w held = mine id w call refl refl in
      if_holds (Leads id w) _ _ (if answer.1 then granted else refused)
        (releasing-Leads w (reserved a intent w) (reserved-Leads w))
        (if_holds (Leads id w) answer.1 granted refused
          (releasing-Leads w (reserved a intent held) (Moves-trans taken (reserved-Leads held)))
          taken)

Moves-IsSound : {id : String} {s t : State} → IsSound s → Moves id s t → IsSound t
Moves-IsSound v stays = v
Moves-IsSound v (moves {t} m c allowed e) = rw e (step-IsSound t c (Moves-IsSound v m))

not_resolves :
    (id other : String) (c : Call)
    → own id c ≡ true
    → (id == other) ≡ false
    → resolves_id other c ≡ false
not_resolves id other (resolves mine) allowed apart =
    ground (arith, string_eq.equal_iff mine id, string_eq.equal_iff mine other)
not_resolves id other _ allowed apart = refl

Moves-Owes :
    {id : String} {s t : State} (other : String)
    → (id == other) ≡ false
    → Owes s other
    → Moves id s t
    → Owes t other
Moves-Owes other apart v stays = v
Moves-Owes {id} other apart v (moves {t} m c allowed e) =
    rw e (step-Owes t other c (Moves-Owes other apart v m) (not_resolves id other c allowed apart))

-- Execute keeps the state sound, however it is answered: each repository's in-flight number is the
-- sum of its phase counters, each of these counts the reservations in that phase, and admission is
-- flagged as stopped exactly when a reservation is blocked in teardown.
pub execute-IsSound :
    (a : Answers) (intent : Intent) (w : Worker)
    → IsSound w.host.state
    → IsSound (execute a intent w).0.host.state
execute-IsSound a intent w v = Moves-IsSound v (execute-Moves a intent w)

-- A worker never settles the teardown debt of another spawn.
pub execute-Owes :
    (a : Answers) (intent : Intent) (w : Worker) (other : String)
    → intent.spawn_id ≢ other
    → Owes w.host.state other
    → Owes (execute a intent w).0.host.state other
execute-Owes a intent w other apart v =
    Moves-Owes other (ground (arith, string_eq.equal_iff intent.spawn_id other)) v
      (execute-Moves a intent w)
