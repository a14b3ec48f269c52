-- ===== src/Lib.antt =====
-- Codex Window Reset: a plugin that sends one small "preheat" request for each scheduled account
-- before work starts, so that the usage windows of the account reset at convenient times.
--
-- Parts. The scheduler (internal/schedule/scheduler.go) owns all timers in one goroutine. It asks the
-- planner for the occurrences of today and the next seven days, keeps them in the runtime state on
-- disk, and calls the executor when an occurrence is due, once more for its compensation. The quota
-- service (internal/quota/service.go) caches usage snapshots, keeps guardrail holds in the same
-- runtime state, and decides whether a request may be sent. The repositories (internal/store) keep
-- the runtime state, the operation history and the audit of resets as JSON documents. The types and
-- the validation of the configuration are in internal/domain.
--
-- Files.
--   Base            shared names: native numbers, integers, texts, association lists
--   Domain/Clock, Outcome, Snapshot, Operation, Config   the types of internal/domain
--   Domain/Validate ValidateConfig, and in its children what an accepted configuration satisfies
--   Store/Disk      writeAtomic and readJSON of internal/store/atomic_json.go
--   Store/Runtime   Load, Save and Update of internal/store/runtime_state.go
--   Store/History   internal/store/history.go
--   Store/Audit     internal/store/reset_audit.go; Audit/Calls runs sequences of its calls
--   Store/Configs   internal/store/config.go
--   Quota/Windows   shortestIndex and the tests on long windows
--   Quota/Decide    decide
--   Quota/Service   Get, Evaluate, loadHold, transitionHold, and what Refresh records
--   Schedule/LocalTime           subtractBlackouts of internal/schedule/local_time.go
--   Schedule/Scheduler           types and helpers of internal/schedule/scheduler.go
--   Schedule/Scheduler/Timers    replaceTimer, stopTimer, consumeTimer, retryTimer and the others
--   Schedule/Scheduler/Reconcile the mutations of reconcileOwned; Watch: reconcileTimers
--   Schedule/Scheduler/Callbacks the mutations of persistTerminal and of the two claims
--   Schedule/Scheduler/Loop      reconcileOwned, handleOccurrence, handleCompensation
--   Schedule/Scheduler/Commands  handle, Start, Stop, Reconcile, NewScheduler
--   App/Runtime     the state and helpers of internal/app/runtime.go and manual.go that executions use
--   App/Preheat     the tests, outcomes and decisions of internal/app/preheat.go
--   App/Execute     executePreheat, and the runtime as the scheduler's executor
--   App/Manual      executeManual of internal/app/manual.go; Left: what it leaves
--   App/Reset       internal/app/reset.go: the phases of ResetQuota (Steps), any number of interleaved
--                   calls (Machine), their evidence in the audit (Evidence, Writes), who owns
--                   a flight (Flights, Owners) and how it ends (Owned, Woken, Progress)
--   App/Settings    UpdateSchedule of internal/app/runtime.go
--   Simulate/Intervals, Cycles   mergeIntervals, clipInterval and cycleAvailability of
--                   internal/simulate/service.go
--   Tests of a folder            runs of the code and the theorems at concrete inputs
--
-- State. An instant is its number of nanoseconds since the zero instant, so IsZero is 0, and a
-- duration saturates at 64 bits as Sub does. Integers of the configuration and of snapshots are
-- unbounded integers, but for the products with time.Minute in decide and in Run of the
-- simulation, which wrap at 64 bits.
-- A map is an association list; no loop of the program depends on the order of iteration. JSON
-- documents are kept as the values that they encode, with what happens to a missing or corrupt one
-- and to an unknown schema version. A disk carries the faults of its next reads and writes: a write
-- may fail before the rename, and report an error after it. Locks, channels and goroutines are
-- replaced by sequences of steps: a command is handled as one step, and whether Stop comes between a
-- claim and its request is an argument of the step. The clock stands still within a command, but for
-- the calls of the executor. The list of requests records the calls of the executor for the theorems
-- and is read by no code.
--
-- An execution, of a preheat or of one account of a manual run, is one step of the runtime: what
-- other goroutines do to it meanwhile is
-- not modelled, and its clock advances with the calls of accounts, endpoint and probe, which are
-- parameters (App/Runtime.Services). The list of probes records the requests for the theorems.
--
-- A reset is a call that moves from phase to phase, one access to shared state or one call out of the
-- process at a time; an event names the call that moves next and what the outside answers to it. The
-- list of consumptions records the upstream calls for the theorems.
--
-- Environment. The executor, the planner and the calendar are parameters of the scheduler
-- (Callbacks.Environment); of the executor it is asked that it plans no occurrence again
-- (Loop/Compensated.ExecutorLaws). Whether a time zone loads and which accounts are known are
-- parameters of ValidateConfig.
--
-- Fuel. The loop over the cycles of the simulation has a round for each nanosecond from its anchor to
-- the end of the work, and each round moves on by a whole cycle. The other loops run over finite lists. The
-- horizon of the scheduler is the constant of the source, today and seven days.
--
-- Not modelled: the planner, the workers and the progress of manual runs, the timelines of the simulation, the
-- parsing of quota payloads, probes, accounts and the resolution of local clocks; the HTTP exchanges,
-- the plugin interface, the management pages and the sharing of one refresh among callers, which are
-- input and output. Repositories, planner and executor of a scheduler are not nil.
pub mod Base
pub mod Domain
pub mod Store
pub mod Quota
pub mod Simulate
pub mod Schedule
pub mod App
