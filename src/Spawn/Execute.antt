-- ===== src/Spawn/Execute.antt =====
-- spawn.go, Execute: one spawn intent from its reservation to its end. `Answers` has what the worker
-- asks of GitHub, of the backend and of the clock, in the order in which it asks.
use Prim.Native.String.{◌++◌ as append}
use run_secure.Common.{
  ℕ, String, Bool, true, false, ◌&&◌, ◌||◌, not, Option, none, some, List, [], ◌∷◌, ◌⊎◌,
  if◌then◌else◌, ◌==◌, string_eq,
}
use run_secure.Common.Int.{ℤ, pos, ltb_ℤ, leb_ℤ}
use run_secure.State.Data.{has_reservation, scheduling_blocked}
use run_secure.State.Ops.{try_reserve, record_jit, release_reservation}
use run_secure.State.Records.{record_completed, record_unassigned_exit}
use run_secure.TokenBucket.{try_take}
use run_secure.RunnerYml.{RunnerConfig, EgressError, validate_egress}
use run_secure.Spawn.{
  Error, failing, returning, Intent, spawn_started, jit_acquired, leak_cleaned, runner_created,
  runner_completed, spawn_completed, spawn_failed, timeout_forced_teardown, Worker, with_state,
  report, generate_jit, record_runner_operation, pause_for_rate_limit, fail, classify_jit_error,
  classify_docker_error, LifecycleTiming, normalized_lifecycle_timing,
}
use run_secure.Spawn.Cleanup.{
  Cleaning, deregister, settle_cleanup, settle_partial_spawn, fail_and_leak,
}
use run_secure.Spawn.Lifecycle.{LifecycleResult, Observation, Choice, Watching}
use run_secure.Spawn.Watch.{wait_for_lifecycle}
use run_secure.Spawn.Input.{YmlSnapshot, SpawnInput, jit_runner_labels, spawn_input}

-- What Execute itself returns errors for.
abbrev pub err_semaphore_unavailable : String
err_semaphore_unavailable = "orchestrator: failed to acquire semaphore (concurrency)"

abbrev pub err_rate_limit_backoff : String
err_rate_limit_backoff = "orchestrator: spawn rate-limit hit (B1)"

abbrev pub err_scheduling_blocked : String
err_scheduling_blocked = "orchestrator: scheduling blocked by drain or teardown debt"

-- An error made by errors.New.
unfoldable pub new_error : String → Error
new_error text = record {
  causes = text ∷ [];
  status = 0;
  limit = record { limit = pos 0; remaining = pos 0; reset_unix = pos 0 };
  detail = text;
}

-- JITConfig, and Handle in the fields that are read.
pub record Jit : Type 0 where
  pub runner_id : ℤ
  pub encoded_jit_config : String

pub record Handle : Type 0 where
  pub backend : String
  pub network_name : String

-- `cancelled` is whether the worker's context is done when teardown begins. The lifecycle's fixed
-- inputs are those of its runner; `nonzero` is the error of an exit code.
pub record Answers : Type 0 where
  pub repo_max : ℕ
  pub global_max : ℕ
  pub reserve_at : ℕ
  pub take_at : ℕ
  pub runner_yml : Error ⊎ YmlSnapshot
  pub invalid : EgressError → Error
  pub digest_for : String → String
  pub jit : String → List String → Jit × Option Error
  pub pause_at : ℕ
  pub render : String → RunnerConfig → Error ⊎ (String × List String)
  pub seccomp_path : String → String
  pub spawn : SpawnInput → Handle × Option Error
  pub timing : LifecycleTiming
  pub started_at : ℕ
  pub deadline : Bool → Option Error → Error
  pub unassigned : ℤ → Error
  pub indeterminate : Error
  pub ended : Error
  pub observation : Observation
  pub choices : List Choice
  pub cancelled : Bool
  pub cleaning : Cleaning
  pub lifecycle_pause_at : ℕ
  pub elapsed_seconds : ℕ
  pub nonzero : ℤ → Error

abbrev pub container_name : Intent → String
container_name intent = append "rs-" (append intent.spawn_id "-runner")

module _ (a : Answers) (intent : Intent) where
  abbrev pub watching : Jit → Watching
  watching jit = record {
    intent = intent;
    runner = record { runner_id = jit.runner_id; runner_name = container_name intent };
    timing = normalized_lifecycle_timing a.timing;
    started_at = a.started_at;
    deadline = a.deadline;
    unassigned = a.unassigned;
    indeterminate = a.indeterminate;
    ended = a.ended;
  }

  -- The end of a runner that has been assigned and has exited.
  unfoldable pub exited : Worker → Jit → ℤ → Option Error → Option Error → Worker × Option Error
  unfolding settle_cleanup fail report
  exited w jit exit_code teardown runner =
      let (settled, result) =
        settle_cleanup a.cleaning w intent jit.runner_id teardown runner none in
      let zero_exit = leb_ℤ exit_code (pos 0) && leb_ℤ (pos 0) exit_code in
      failing teardown (λ _. (settled, result))
        (failing runner (λ _. fail settled "runner_deregistration_failed" result)
          (if zero_exit then (report w (spawn_completed exit_code), none) else (
            report w (spawn_failed "runner_nonzero_exit" (a.nonzero exit_code).detail),
            some (a.nonzero exit_code),
          )))

  -- The end of a runner that the wall clock has stopped.
  unfoldable pub timed_out : Worker → Jit → Option Error → Option Error → Worker × Option Error
  unfolding settle_cleanup report new_error
  timed_out w jit teardown runner =
      let (settled, result) =
        settle_cleanup a.cleaning w intent jit.runner_id teardown runner
          (some (new_error "spawn timed out")) in
      (report settled (timeout_forced_teardown a.elapsed_seconds), result)

  -- The end of a runner whose lifecycle has failed.
  unfoldable pub undelivered :
      Worker → Jit → LifecycleResult → Error → Option Error → Option Error → Worker × Option Error
  unfolding settle_cleanup fail with_state pause_for_rate_limit record_unassigned_exit
  undelivered w jit lifecycle e teardown runner =
      let w = pause_for_rate_limit w e a.lifecycle_pause_at in
      let w =
        if lifecycle.unassigned then with_state w (record_unassigned_exit w.host.state) else w in
      let (settled, result) =
        settle_cleanup a.cleaning w intent jit.runner_id teardown runner (some e) in
      fail settled lifecycle.failure_reason result

  -- RecordCompleted and its event, for a delivery that neither failed nor ran out of time.
  unfoldable pub completed : Worker → Jit → LifecycleResult → Worker
  unfolding with_state report record_completed
  completed w jit lifecycle =
      failing lifecycle.err (λ _. w)
        (if lifecycle.timed_out
          then w
          else report (with_state w (record_completed w.host.state))
              (runner_completed jit.runner_id lifecycle.exit_code))

  -- Execute from the lifecycle's result on.
  unfoldable pub conclude : Worker → Jit → LifecycleResult → Worker × Option Error
  unfolding completed deregister undelivered timed_out exited
  conclude w jit lifecycle =
      let force = lifecycle.timed_out || failing lifecycle.err (λ _. true) false in
      let teardown = a.cleaning.teardown (force || a.cancelled) in
      let (w, runner) =
        deregister (completed w jit lifecycle) intent.repo jit.runner_id a.cleaning.deregister in
      failing lifecycle.err (λ e. undelivered w jit lifecycle e teardown runner)
        (if lifecycle.timed_out
          then timed_out w jit teardown runner
          else exited w jit lifecycle.exit_code teardown runner)

  -- Execute from the backend's success on.
  unfoldable pub deliver : Worker → Jit → Handle → Worker × Option Error
  unfolding report wait_for_lifecycle conclude
  deliver w jit h =
      let w = report w (runner_created h.network_name) in
      let (w, lifecycle) = wait_for_lifecycle (watching jit) w a.observation a.choices in
      conclude w jit lifecycle

  -- A backend that has failed, and may have left something behind.
  unfoldable pub not_spawned : Worker → Jit → Handle → Error → Worker × Option Error
  unfolding settle_partial_spawn fail_and_leak fail report has_reservation classify_docker_error
  not_spawned w jit h e =
      let (settled, result) = settle_partial_spawn a.cleaning w intent jit.runner_id e in
      let kept = has_reservation settled.host.state intent.spawn_id intent.repo in
      let told = if kept then settled else report settled (leak_cleaned jit.runner_id) in
      if h.backend == ""
      then fail_and_leak a.cleaning w intent (classify_docker_error e) e jit.runner_id
      else fail told (classify_docker_error e) result

  -- Execute from the acquired registration on.
  unfoldable pub acquired : Worker → YmlSnapshot → String → Jit → Worker × Option Error
  unfolding report with_state record_jit fail_and_leak spawn_input not_spawned deliver
  acquired w snapshot image jit =
      let w = report w (jit_acquired jit.runner_id) in
      let name = container_name intent in
      let w = with_state w (record_jit w.host.state intent.spawn_id jit.runner_id name) in
      returning (a.render intent.spawn_id snapshot.yml)
        (λ e. fail_and_leak a.cleaning w intent "egress_render" e jit.runner_id)
        (λ rendered.
          let input =
            spawn_input intent snapshot a.seccomp_path image jit.encoded_jit_config rendered.0
              rendered.1 in
          let (h, failure) = a.spawn input in
          failing failure (λ e. not_spawned w jit h e) (deliver w jit h))

  -- A registration that has failed, and may have left a runner behind.
  unfoldable pub not_acquired : Worker → Jit → Error → Worker × Option Error
  unfolding pause_for_rate_limit with_state record_jit fail_and_leak fail classify_jit_error
  not_acquired w jit e =
      let w = pause_for_rate_limit w e a.pause_at in
      let name = container_name intent in
      let known = with_state w (record_jit w.host.state intent.spawn_id jit.runner_id name) in
      if ltb_ℤ (pos 0) jit.runner_id
      then fail_and_leak a.cleaning known intent (classify_jit_error e) e jit.runner_id
      else fail w (classify_jit_error e) (some e)

  -- Execute from a valid runner.yml on.
  unfoldable pub configured : Worker → YmlSnapshot → Worker × Option Error
  unfolding report jit_runner_labels record_runner_operation acquired not_acquired
  configured w snapshot =
      let yml = snapshot.yml in
      let image =
        if snapshot.image_digest == "" then a.digest_for yml.runtime else snapshot.image_digest in
      let w = report w (spawn_started image) in
      let (jit, failure) =
        a.jit (container_name intent) (jit_runner_labels intent.scope yml.labels) in
      let w = record_runner_operation w intent.repo generate_jit failure in
      failing failure (λ e. not_acquired w jit e) (acquired w snapshot image jit)

  -- Execute between the reservation and its release.
  unfoldable pub reserved : Worker → Worker × Option Error
  unfolding scheduling_blocked try_take report fail validate_egress configured new_error
  reserved w =
      let (bucket, taken) = try_take w.bucket a.take_at in
      let drawn = record w { bucket = bucket } in
      if scheduling_blocked w.host.state
      then (w, some (new_error err_scheduling_blocked))
      else if not taken
      then (
        report drawn (
            spawn_failed "spawn_rate_limited" "B1 token bucket denied — backlog larger than burst"),
        some (new_error err_rate_limit_backoff),
      )
      else returning a.runner_yml (λ e. fail drawn "runner_yml_parse" (some e))
          (λ snapshot.
            failing (validate_egress snapshot.yml)
              (λ bad. fail drawn "runner_yml_parse" (some (a.invalid bad)))
              (configured drawn snapshot))

  -- The deferred release.
  unfoldable pub releasing : Worker × Option Error → Worker × Option Error
  unfolding with_state release_reservation
  releasing (w, e) = (with_state w (release_reservation w.host.state intent.spawn_id), e)

  -- Execute
  unfoldable pub execute : Worker → Worker × Option Error
  unfolding has_reservation try_reserve with_state reserved releasing new_error
  execute w =
      let s = w.host.state in
      let (t, granted) =
        try_reserve s intent.spawn_id intent.repo a.repo_max a.global_max a.reserve_at in
      if has_reservation s intent.spawn_id intent.repo
      then releasing (reserved w)
      else if granted
      then releasing (reserved (with_state w t))
      else (with_state w t, some (new_error err_semaphore_unavailable))
