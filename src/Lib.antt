-- ===== src/Lib.antt =====
-- The runner of FlexNetOS: what its dispatcher decides for a frame, the policies it decides by, and
-- what its command-line tool decides in its audits.
--
-- The dispatcher (crates/runner-dispatch/src/main.rs) takes one signed frame at a time from a socket,
-- asks a row of gates, calls a kernel for a job that passes them all, and settles the ledgers by the
-- outcome of the call. The gates are pure code of crates/runner-core/src. Each gate may answer in place
-- of what follows it; each answer goes to the audit sink too.
--
-- Which file models which part (core/ is crates/runner-core/src/):
--   Dispatch.antt            handle_request: the order of the gates (`process`) and the reply
--   Dispatch/Steps.antt      the arguments of handle_request that stay (Runner) and that it changes
--                            (State), the steps that may answer early, and the ways to refuse
--   Dispatch/Admission.antt  the gates before the single-flight mutex
--   Dispatch/Flight.antt     the mutex, the rate limit, the loop guard and the budget
--   Dispatch/Delegate.antt   run_delegation, handle_failure, the end of handle_request, and
--                            SingleFlightPermit, whose Drop is `with_permit`
--   Dispatch/Cleared.antt    what the gates ask, and how a request can end; Dispatch/Turns.antt and
--                            Dispatch/Ends.antt show that it ends so
--   Wire.antt, Wire/Frame.antt   core/wire.rs: frames, envelopes, grants, signatures
--   Governor.antt            core/governor.rs     Recovery.antt      core/recovery.rs
--   Quarantine.antt          core/quarantine.rs   RateLimit.antt     core/ratelimit.rs
--   SingleFlight.antt        core/singleflight.rs LoopGuard.antt     core/loopguard.rs
--   Constitution.antt        core/constitution.rs Scan.antt          core/scan.rs
--   Lint.antt                core/lint.rs         Router.antt        core/router.rs
--   Targets.antt             core/targets.rs      StateGate.antt     core/stategate.rs
--   Authority.antt, Classes.antt   core/authority.rs
--   Approval.antt            core/approval.rs     Risk.antt          core/risk.rs
--   Deadline.antt            core/deadline.rs and core/liveness.rs
--   Events.antt              core/events.rs       Redact.antt        core/redact.rs
--   Job.antt                 core/jobspec.rs      Agent.antt         core/agent.rs
--   Cost.antt                core/cost.rs         Safety.antt        core/safety.rs
--   Lifecycle.antt           core/lifecycle.rs    Workspace.antt     core/workspace.rs
--   ForgeLoop.antt           the audits and the cycle engine of crates/runner-cli/src/forge_loop.rs:
--     Checks the runner's health by check states, Calendar timestamps, Runs what a workflow run
--     counts as, Idle the idle gaps, Audits and Flow the black-factor, SLO and flow reports,
--     Processes the process tree, Fleet the jobs that hold lanes, Queue who waits for them, Schema
--     the output schema, Eval and Manifest a cycle's score and its manifest, Publish what a cycle
--     publishes; Repository the files of a repository, Mining the research targets, Components and
--     Readiness the surfaces of the loop, Docs the drift of its documents, Agentic the audit of them
--     all, Invocation how codex is called, Sources and Continuity what a cycle starts from and
--     keeps; Entries is what is read
--   RunnerState.antt         crates/runner-cli/src/runner_state.rs: Disk its files, Class the classes
--     of paths, Audit the audit, Normalize the normalization and the settling
--   Release.antt             crates/runner-cli/src/release.rs
--   External.antt            the third-party functions: serde_json, hex, sha2, hmac
--   Shared.antt              texts, words, integers, orders, maps, lists, tests, f64
--   Tests.antt               the theorems at concrete data
--
-- A mutable argument of the handler is a field of State, and each function of the source on it returns
-- its new value. `log` is what the sink received, `calls` what the invoker was called with, and
-- `invoke` says what each call gives back. A text is the list of its code points; a map is an
-- association list, of which only lookups are observed; a number is a natural number, with the wrap or
-- the saturation of the source's type written out. The decimal printer runs on fuel, one round more
-- than the number, which each round divides by ten. The climb up the process tree runs on 66 rounds, of
-- which it takes at most 65, since it stops at a depth of 64. All other recursion is structural.
--
-- f64, the third-party functions and the way in which git spells a character in quotes are
-- parameters. What a theorem needs of them is a hypothesis: IsIeee of Shared/Floats.antt, IsSound
-- of Wire/RoundTrip.antt and IsGit of ForgeLoop/Publish/Git.antt, with instances in
-- Shared/Floats/Fixed.antt, Tests/Demo.antt and Tests/Forge.antt. A clock that does not run
-- backwards, and values that fit their machine words, are hypotheses where they are needed.
--
-- The command-line tool (crates/runner-cli) reads files, GitHub's answers and the process table, and
-- decides from them. What was read is the argument of a definition here, a JSON text as the records
-- that serde makes of it. An ordered map is a list sorted by its keys (Shared/Sorted.antt). A disk is a
-- function from paths to what a read gives, and git and the process list are fields of System.
--
-- Not modelled: the socket server, the peer check, the subprocess invoker and its timers, the reading
-- of the dispatcher's settings, the running of git, gh and codex, and the entry point of
-- crates/runner-cli, which are input and output; the JSON texts, which serde prints.
pub mod Shared
pub mod Agent
pub mod Job
pub mod Safety
pub mod Cost
pub mod Governor
pub mod Recovery
pub mod Quarantine
pub mod RateLimit
pub mod SingleFlight
pub mod Deadline
pub mod Lifecycle
pub mod Router
pub mod Classes
pub mod Authority
pub mod Approval
pub mod StateGate
pub mod Targets
pub mod Wire
pub mod ForgeLoop
pub mod RunnerState
pub mod Release
pub mod External
pub mod LoopGuard
pub mod Constitution
pub mod Lint
pub mod Scan
pub mod Risk
pub mod Events
pub mod Redact
pub mod Dispatch
pub mod Tests
pub mod Workspace
