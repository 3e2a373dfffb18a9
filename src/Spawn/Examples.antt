-- ===== src/Spawn/Examples.antt =====
-- A concrete spawn: its runner takes a job, and its first teardown fails.
use run_secure.Common.{
  ◌*◌, ◌^◌, ◌≡◌, refl, String, true, false, not, ◌&&◌, ◌||◌, none, some, [], ◌∷◌, ◌⊎◌, inr, ◌==◌,
  string_eq,
}
use run_secure.Common.Text.{codes}
use run_secure.Common.Int.{pos}
use run_secure.Common.Map.{lookup, insert, remove}
use run_secure.State.Data.{new, has_reservation}
use run_secure.State.Ops.{
  admit, try_reserve, record_jit, mark_online, mark_assigned, mark_teardown_blocked,
  update_teardown_failure, resolve_teardown, release_reservation,
}
use run_secure.State.Records.{
  record_completed, record_runner_operation_failure, record_runner_operation_success,
}
use run_secure.State.Fence.{Owes}
use run_secure.TokenBucket.{one_token}
use run_secure.Poll.{RateLimit}
use run_secure.GitHub.{WorkflowJob, page_of}
use run_secure.RunnerYml.{RunnerConfig}
use run_secure.Spawn.{
  Error, Intent, Worker, default_lifecycle_timing, err_auth_failed, is_error, second,
}
use run_secure.Spawn.Cleanup.{Cleaning, settle_cleanup, runner_deletion_retry_delay}
use run_secure.Spawn.Lifecycle.{Observation, seen, Correlation, Exit, exits, polls}
use run_secure.Spawn.Input.{
  jit_owner_label, jit_scope_label, jit_runner_labels, parse_resources, tcp_egress_ports,
}
use run_secure.Spawn.Execute.{Jit, Answers, execute}
use run_secure.Spawn.Moves.{Moves}
use run_secure.Spawn.Confined.Whole.{execute-Moves}
use run_secure.Spawn.Settled.Freed.{settle_cleanup-Settles, execute_gives_back}
use run_secure.Spawn.Labels.{has_label, NoRepeats, jit_runner_labels_lem}

abbrev no_limit : RateLimit
no_limit = record { limit = pos 0; remaining = pos 0; reset_unix = pos 0 }

abbrev boom : Error
boom = record { causes = []; status = 500; limit = no_limit; detail = "boom" }

abbrev job : WorkflowJob
job = record {
  id = pos 3;
  run_id = pos 2;
  status = "completed";
  labels = [];
  runner_id = pos 7;
  runner_name = "rs-x1-runner";
}

abbrev intent : Intent
intent = record { scope = "s"; repo = "a/b"; spawn_id = "x1"; candidate_jobs = job ∷ [] }

abbrev config : RunnerConfig
config = record {
  runtime = "node";
  labels = "ci" ∷ "ci" ∷ "" ∷ [];
  resources = record { memory = codes "8g"; cpus = pos 2; pids = pos 100 };
  allow_domains = [];
  http_egress = codes ".example.org" ∷ [];
  tcp_egress = codes "db.internal:5432" ∷ [];
  dns_host = none;
  timeout_seconds = pos 60;
  seccomp_profile = "";
  security_overrides = [];
}

abbrev idle : Observation
idle = record { sighting = seen "online" false; online_at = 20; assigned_at = 21 }

abbrev correlation : Correlation
correlation = record {
  jobs = λ id. (no_limit, inr job);
  api = record {
    runs_page = λ status page. page_of [] no_limit;
    jobs_page = λ id page. page_of [] no_limit;
  };
  since = 1;
  failure = λ e. boom;
  refusal = λ e. boom;
  marked_at = 40;
}

abbrev exit : Exit
exit = record {
  exit_code = pos 0;
  timed_out = false;
  cancelled = none;
  observation = idle;
  online_read = 30;
  assignment_read = 31;
  correlation = correlation;
  done = false;
}

-- The second teardown succeeds, and so does the second deletion.
abbrev cleaning : Cleaning
cleaning = record {
  teardown = λ force. some boom;
  deregister = some boom;
  at = 50;
  teardown_now = some boom;
  teardowns = none ∷ [];
  delete_now = record { answer = some boom; at = 60 };
  deletes = record { answer = none; at = 70 } ∷ [];
  ended = boom;
}

abbrev answers : Answers
answers = record {
  repo_max = 2;
  global_max = 2;
  reserve_at = 10;
  take_at = 11;
  runner_yml = inr (record { yml = config; image_digest = "img@sha256:0" });
  invalid = λ e. boom;
  digest_for = λ runtime. "";
  jit = λ name labels. (record { runner_id = pos 7; encoded_jit_config = "jit" }, none);
  pause_at = 12;
  render = λ id yml. inr ("/egress/x1", []);
  seccomp_path = λ name. "/seccomp.json";
  spawn = λ input. (record { backend = "compose"; network_name = "rs-net" }, none);
  timing = default_lifecycle_timing;
  started_at = 15;
  deadline = λ assignment last. boom;
  unassigned = λ code. boom;
  indeterminate = boom;
  ended = boom;
  observation = idle;
  choices = polls idle ∷ exits exit ∷ [];
  cancelled = false;
  cleaning = cleaning;
  lifecycle_pause_at = 45;
  elapsed_seconds = 30;
  nonzero = λ code. boom;
}

abbrev start : Worker
start = record {
  host = record {
    state = new;
    breakers = [];
    paused = false;
    pause_reset = 0;
    last_poll = 0;
    sequence = 0;
    sent = [];
    events = [];
    stopped = false;
  };
  bucket = record { tokens = pos (2 * 10 ^ 18); max_burst = 2 * 10 ^ 18; rate = 10 ^ 9; last = 0 };
  events = [];
}

-- The state at the end, with everything given back.
gives_back : (execute answers intent start).0.host.state.reservations ≡ []
unfolding execute lookup admit insert remove one_token update_teardown_failure mark_teardown_blocked
    record_runner_operation_failure record_runner_operation_success mark_assigned mark_online
    record_jit resolve_teardown release_reservation record_completed
gives_back = refl

delivers : (execute answers intent start).0.host.state.completed_total ≡ 1
unfolding execute lookup admit insert remove one_token update_teardown_failure mark_teardown_blocked
    record_runner_operation_failure record_runner_operation_success mark_assigned mark_online
    record_jit resolve_teardown release_reservation record_completed
delivers = refl

-- A context that is done before a retry succeeds leaves the debt.
leaves_debt :
    (execute
      (record answers { cleaning = record cleaning { teardowns = [] } })
      intent
      start).0.host.state.teardown_blocked
    ≡ true
unfolding execute lookup admit insert remove one_token update_teardown_failure mark_teardown_blocked
    record_runner_operation_failure record_runner_operation_success mark_assigned mark_online
    record_jit resolve_teardown release_reservation record_completed
leaves_debt = refl

execute-Moves_example : Moves "x1" new (execute answers intent start).0.host.state
execute-Moves_example = execute-Moves answers intent start

granted : (has_reservation new "x1" "a/b" || (try_reserve new "x1" "a/b" 2 2 10).1) ≡ true
unfolding has_reservation try_reserve lookup insert admit
granted = refl

execute_gives_back_example :
    (lookup "x1" (execute answers intent start).0.host.state.reservations ≡ none)
    ⊎ Owes (execute answers intent start).0.host.state "x1"
execute_gives_back_example = execute_gives_back answers intent start granted

settle_cleanup-Settles_example :
    lookup "x1"
      (settle_cleanup cleaning start intent
        (pos 7)
        (some boom)
        (some boom)
        none).0.host.state.reservations
    ≡ none
unfolding is_error
settle_cleanup-Settles_example =
    settle_cleanup-Settles intent cleaning start (pos 7) (some boom) (some boom) none refl refl

abbrev jit : Jit
jit = record { runner_id = pos 7; encoded_jit_config = "jit" }

labels_run :
    jit_runner_labels "s" ("ci" ∷ "ci" ∷ "" ∷ [])
    ≡ "ci" ∷ jit_owner_label ∷ jit_scope_label "s" ∷ []
unfolding jit_runner_labels
labels_run = refl

memory_run : parse_resources (codes "8g") (pos 2) ≡ (pos (8 * 2 ^ 30), pos (2 * 10 ^ 9))
unfolding parse_resources
memory_run = refl

ports_run : tcp_egress_ports (codes "db:5432" ∷ codes "x:" ∷ []) ≡ pos 5432 ∷ []
unfolding tcp_egress_ports
ports_run = refl

refused_waits :
    runner_deletion_retry_delay new (record boom { causes = err_auth_failed ∷ [] }) second 0
    ≡ 30 * second
unfolding runner_deletion_retry_delay
refused_waits = refl

jit_runner_labels_lem_example :
    NoRepeats (jit_runner_labels "s" ("ci" ∷ "" ∷ []))
    × (has_label jit_owner_label (jit_runner_labels "s" ("ci" ∷ "" ∷ [])) ≡ true)
    × (has_label (jit_scope_label "s") (jit_runner_labels "s" ("ci" ∷ "" ∷ [])) ≡ true)
    × ((label : String)
        → has_label label (jit_runner_labels "s" ("ci" ∷ "" ∷ [])) ≡ (
            not (label == "")
            && (has_label label ("ci" ∷ "" ∷ [])
                || jit_owner_label == label
                || jit_scope_label "s" == label)))
jit_runner_labels_lem_example = jit_runner_labels_lem "s" ("ci" ∷ "" ∷ [])
