-- ===== src/Lib.antt =====
-- sub2api-account-scheduler, the scheduler that turns accounts of an upstream on and off: its
-- decision core, in five parts.
--
-- ControlPlane (internal/controlplane). An intent asks for a state of a resource with an authority.
--   Types (types.go), Intent (intent.go: Validate and the constructors), Canonical (the canonical
--   keys of arbiter.go), Arbiter (Arbitrate) and Override (override.go). The buckets, a map in Go,
--   are an association list, and the loop over the sorted groups is a fold of them. The theorems on
--   each stand in the modules below: Intent/Valid, Canonical/Injective, Arbiter/Conservation,
--   Arbiter/Order, Arbiter/Groups (the idempotency groups), Arbiter/Reasons, Arbiter/Settled,
--   Arbiter/Winner.
-- Automation (internal/automation). Barrier is barrier.go: EnterMutation and EnterFreeze cut at the
--   points where the mutex is released, so a caller is a small state machine and a run is a sequence
--   of steps of any callers (Barrier/Safety). A closed channel is a higher number of the channel.
-- Reconcile (internal/reconcile). Coordinator is coordinator.go: the requests, and Run, waitDebounce
--   and runPending as a loop with one step for each event, the end of its context among them; a
--   request is a step under the mutex and a later one that signals (Coordinator/Requests). Matcher is
--   matcher.go: NormalizeEndpoint and ResolveBindings, with usedMonitors as the list of marked IDs
--   (Matcher/Sound, Matcher/Unmatched).
-- AccountControl (internal/accountcontrol). Submit carries an intent out: it arbitrates it against
--   the stored overrides and the queued candidates, writes a journal entry, asks the guard, writes,
--   reads back, retries once, and commits. Types and Records hold the data of types.go and of
--   internal/model; Projection is projection.go, Guard is guard.go, Overrides the conversions of
--   types.go, Decision, Journal, Service, Carry and Submit are service.go and executor.go,
--   and Queue is the candidate queue of lock.go, with a map in Go as an association list.
--   Program has the form of all this: a tree of calls to the store, the upstream, the clock, the ID
--   generator, the queue and the locks (the interfaces Repository and Transport). What answers is
--   not fixed, so a theorem on such a tree covers every store, every failure and every interleaving
--   with other submissions. It uses ControlPlane for intents and arbitration. Recovery is recoverOne
--   of recovery.go in the same form, with Closing for the ways in which it ends a mutation;
--   Submit/Watched follows what the last listing of the accounts showed, and Submit/Observed and
--   Recovery/Observed apply it; Submit/Balance and Recovery/Discipline follow the locks. Locks is accountLocks of lock.go:
--   acquire and releaseRef cut where the mutex is released, over an explicit store of entries, with
--   a run as a sequence of steps of any callers (Locks/Exclusive).
-- Health (internal/health). Classify, Policy, Window, Quality and Evaluate are v3.go: what a check
--   proves, the thresholds and penalties, the counts of a window, the load for a quality, and
--   EvaluateV3, whose flat description is in Evaluate/Load. Settings, Observe, Score, Stage and
--   Monitor are health.go: NormalizeSettings, the observations, the score, transitionStage and
--   Evaluate. Floats is the interface of float64. A map of categories is a function that gives 0
--   for a missing one.
-- Base holds what the parts share: texts, sorting, integers, decimal and quoted texts.
--
-- A text is the list of its runes; a time is the number of nanoseconds since the zero time of Go,
-- without the bounds of int64 beyond what unixNano needs. Native numbers stand for counters; the
-- coordinator's uint64 counters wrap around. No definition uses fuel: each loop is structural.
-- Parameters stand for code of the Go library: which runes are printable (strconv.Quote), and the
-- SHA-256 digest, the operations of float64, the JSON of a list of texts, and net/url with the
-- folding of cases in the matcher.
--
-- Not modelled: the worker pool of recovery.go, the lookups of the service that pass one call on,
-- the selection of upstream keys, balances, the reconcile pass, the agent, and everything that is
-- SQL, HTTP or process start.
pub mod Base
pub mod ControlPlane
pub mod Automation
pub mod Reconcile
pub mod AccountControl
pub mod Health
