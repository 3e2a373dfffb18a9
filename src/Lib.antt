-- ===== src/Lib.antt =====
-- RunSecure runs ephemeral CI runners behind two services. The orchestrator
-- (infra/orchestrator) polls GitHub for queued jobs, reserves capacity and spawns runners; the
-- socket proxy (infra/socket-proxy) stands between it and the Docker socket, and lets through only
-- the requests that keep a container contained.
--
-- The poll loop (Poll) reads the breaker of a repository (Breaker) and the state (State), works
-- out how many runners are wanted, reserves each with TryReserve, and sends an intent to the
-- spawn workers. A worker (Spawn) takes a token of the limiter (TokenBucket), checks the
-- project's runner.yml (RunnerYml), registers a runner with GitHub and starts it, watches it
-- until it exits, reports its phases to the state, and owes a teardown when one fails. To find
-- the job of a runner that has exited it searches GitHub. What a project may reach is given by the
-- egress policy (Security), and the scope with its projects is validated before anything runs
-- (Scope). Each container and network that a worker creates goes through the proxy (Proxy),
-- which reads the list of allowed images (ImageAllow). Drift is the function that sets the
-- in-flight numbers to the containers that Docker lists; neither service calls it.
--
-- Files and sources:
--   State, infra/orchestrator/internal/state/state.go: `State` is the struct with its two maps, and
--     one function stands for each method; Data has the types and readings, Ops the reservations
--     (TryReserve is try_reserve, MarkTeardownBlocked mark_teardown_blocked, and so on), Records the
--     metadata and the snapshot. Calls has as data the calls that the services make, and runs of
--     them: not those of the semaphores kept for compatibility. Tally, Invariant, Counted, Debt,
--     Sound and Teardown prove the invariant; Capacity, Bounded, Fence and Apart the rest.
--   Breaker, TokenBucket and Drift: breaker.go, ratelimit.go and drift.go of the same folder.
--   Poll, infra/orchestrator/internal/orchestrator/poll.go: tick with all it calls, and of
--     infra/orchestrator/cmd/orchestrator/run.go the breaker map and the pause for rate limits. Order
--     has the rotation, Accounted and Sound the state over a cycle.
--   GitHub, infra/orchestrator/internal/github/queue.go: FindRecentWorkflowJobByRunner with run,
--     searchRun and do, and in Demand EligibleQueuedJobs. The loops over pages of the search run on
--     fuel, which is one more than MaxAPICalls: each page costs a call. Those of a listing have no
--     bound in the code, and their fuel is an argument: enough is the number of the first page
--     that is not full.
--   Spawn, infra/orchestrator/internal/orchestrator/spawn.go and lifecycle.go: Execute.execute is
--     Execute, in stages that are named for what has been reached (reserved, configured, acquired,
--     deliver, conclude); Cleanup has settleCleanup, settlePartialSpawn, failAndLeak and the loops of
--     retries; Lifecycle the observation and correlateCompletedJob, Watch waitForLifecycle; Input the
--     labels, parseResources and the input of the backend. A Worker holds the World of Poll, whose
--     state and pause it shares. Moves and Confined follow the calls on the state, Settled the
--     cleanup, Restored the reservations, Delivered the lifecycle.
--   RunnerYml, infra/orchestrator/internal/runneryml/runneryml.go: ValidateEgress and the defaults.
--   Scope, infra/orchestrator/internal/config: scope.go with SharedKubernetes, and scope_validate.go:
--     Projects has the validators of one project, Validate validateProjects and Validate, in the
--     order of their tests; Sized and Enrolled follow a scope that passes all of them.
--   Security, infra/orchestrator/internal/security: Defaults, ApplyProjectOverrides and, in Egress,
--     CheckEgressIPLiterals.
--   Proxy, infra/socket-proxy/internal/proxy: Json, Schema and Create have decodeCreate of
--     validate.go with uniqueJSONValue and exactJSONFields, Identity and Mount its checks of users,
--     volumes and targets, Policy the two validators, Routes routes.go, and Server ServeHTTP of
--     proxy.go.
--   ImageAllow, infra/socket-proxy/internal/imageallow/imageallow.go.
--   Common: what Go's language and library give, as maps, texts and integers.
--
-- Modelling. A method that holds a mutex is one step, so that a history is a list of calls. A map is
-- an association list, iterated in its order; no theorem depends on the order. A time is a
-- number of nanoseconds, read from the clock by the caller, and zero is Go's zero time. A text that
-- the code takes apart is a list of code points. A cap below zero admits nothing, as zero does, and
-- caps are natural numbers. Counters do not overflow. The token bucket counts in exact units in
-- place of float64. Regular expressions are matchers that have one way to match.
--
-- Parameters. The proxy's JSON tokenizer is `parse`, which gives the syntax tree with repeated keys
-- kept; `unicode.SimpleFold` gives `fold`; the functions of package net are the record `Net`. In a
-- poll cycle the answers of GitHub, the ids of spawns and the channel are the record `Outside`; in
-- the search the pages of the server are the record `Api`. For a worker they are the record
-- `Answers`: a loop of retries has the list of the attempts that its context lets it make, and the
-- lifecycle loop the list of the choices of its `select`, at whose end the context is done. An error
-- is what errors.Is, ErrorStatus and Error() tell of it. Of a scope, the file system and the
-- Kubernetes libraries are the record `Host`.
--
-- Bounds. `depth_limit` is the 64 of uniqueJSONValue, `body_limit` the 2^20 bytes that ServeHTTP
-- reads. `orbit_fuel` is 4: no more than four characters are equal under simple case folding. The
-- theorems on duplicate keys hold of every folding function.
--
-- Not modelled: YAML and the readers of files, the rendering of egress configuration, the collector, the clients of
-- Docker and Kubernetes, event emission and the HTTP endpoints. Other goroutines act between poll
-- cycles and not within one.
pub mod Common
pub mod State
pub mod Drift
pub mod Breaker
pub mod TokenBucket
pub mod Proxy
pub mod ImageAllow
pub mod Security
pub mod Poll
pub mod GitHub
pub mod Spawn
pub mod RunnerYml
pub mod Scope
