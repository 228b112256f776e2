-- ===== src/Lib.antt =====
-- The control plane of KubeQueue: its coordination and admission core.
--
-- Parts and how they interact (paths from the repository's root, below
-- apps/control-plane/internal):
--
-- - Leadership models the package leadership. One process at a time may change Kubernetes: it
--   campaigns for a durable lease whose generation fences off earlier holders. Leadership/Lease
--   (leadership/leadership.go: Lease.Active, Acquire, Renew, Authorize) is the rule on the lease,
--   Leadership/Session (Session.Sync, Session.Validate) the local view of it, Leadership/Manager
--   (leadership/manager.go: TryAcquire, Authority, Revalidate, pause, observeFollower) a process that
--   campaigns, and Leadership/Mutation (leadership/mutation.go: Begin, Complete, Observe) the
--   coordination state around one command. Leadership/Lease/Fencing, Leadership/Mutation/Retry and
--   Leadership/Manager/Invariant are about histories of calls.
-- - Persistence models the tables behind them: Persistence/Leases
--   (adapters/persistence/leadership.go: AcquireLeadership, LeadershipLease) and
--   Persistence/Mutations (adapters/persistence/mutations.go: BeginMutation, CompleteMutation,
--   ObserveMutation), and Persistence/Quotas (adapters/persistence/quotas.go: ReserveQuota,
--   admitJobQuotaTx, requeueJobQuotaTx, releaseJobQuotaTx, releaseRetainedJobQuotaTx, ReleaseQuota,
--   MarkQuotaReserved), whose counters have the scope keys of Persistence/Scopes
--   (adapters/persistence/policies.go: policyScopeKey), and Persistence/Jobs
--   (adapters/persistence/sqlstore.go: SetDesiredState, SetObserved, MarkMissing, MarkOutOfScope,
--   RecordReconcileError, Archive, UpdateQueue, Reorder), whose transactions change the quota tables
--   too; Persistence/Jobs/Claims has the claims of the scheduler (Eligible, ClaimEligible,
--   ReleaseSchedulerClaim, AcquireSchedulerLease). Persistence/Policies (adapters/persistence/
--   policies.go: PolicyHierarchy, CompareAndSetPolicy) has the current policies, and
--   Persistence/Admission (adapters/persistence/scheduling.go: CommitRuntimeAdmission,
--   AbandonRuntimeAdmission, CommitSchedulingDecision, FairnessState) the transactions that admit a
--   job over all these tables: Admission/Checks are the checks before a transaction,
--   Admission/Conditions says when a job may be admitted, Admission/Commit and Admission/Outcome are
--   about one admission, and Admission/History is about sequences of transactions on all the tables.
--   Persistence/Quotas/History is about sequences on the quota tables, Persistence/Jobs/History about
--   what each transaction on a job keeps, and Persistence/Jobs/Queued and Ids about the jobs of the
--   queue and their ids, for Reorder. Domain/Lifecycle (domain/job.go: CanTransition,
--   SynchronizationStatus) has the states of a job; a text in the column of the status that is none
--   of them is other_status. A SQL statement is a function on the rows that it names, and a
--   transaction gives the tables after it or an error. SetDesiredState and SetObserved read the job
--   before their transaction, so the job that was read is an argument of theirs, which may be out of
--   date.
-- - Reconciler models reconciler/reconciler.go, the pass of the leader over the jobs. Reconciler/Fair
--   is the loop of schedule (runtimeSchedulerInput and disableRuntimeCandidate in Fair/Candidates), over
--   the scheduler's Select and a record of the calls that it makes, Services. Reconciler/Legacy is
--   scheduleLegacy, whose admissions Legacy/Bounded counts in a log beside the world, and
--   Reconciler/Schedule is schedule. Reconciler/Commands is mutateKubernetes with
--   resolveOutstandingMutations in Commands/Pending, Reconciler/Admit is admit, and Reconciler/Site
--   gives Services over the tables of Persistence. Fair/Bounded and Schedule/Returns are about the end
--   of the loop, the modules Kept about what every call keeps, Commands/Once about commands that are
--   not sent again, and Site/Exact about a whole pass over the tables.
-- - Quota models the package domain/policyquota. Quota/Counters and Quota/Reservation (quota.go) are
--   the counters, the checks against the limits and the reservations; Quota/Rules and Quota/Policy
--   (policy.go) are the policies whose composition gives the limits. Quota/Ledger is a caller that
--   keeps usage and reservations together, as the comment at DecideReservation asks.
-- - Scheduler models the package scheduler. Scheduler/Input (scheduler/policy.go, and validate of
--   scheduler/scheduler.go) is what a decision is given and answers, Scheduler/Order the order of the
--   jobs of a lane (effectivePriority, jobBefore, bestJob, bestEmergency), and Scheduler/Select the
--   decision itself (Select, normalizedState, startIndex, decision). The loop over the projects from
--   the start is a recursion on the rotated list. Scheduler/Order/Best, Scheduler/Order/Urgent,
--   Scheduler/Select/Selected and Scheduler/Select/Bounded are about what is selected and the state
--   that is left. Scheduler/Fairness is about many calls, each with the state that the one before left.
-- - Audit models part of the package domain/audit: Audit/Retention (domain/audit/retention.go) decides
--   whether a record may be deleted.
-- - Common holds the shared names: tests, lists, results, integers, strings with the functions of the
--   package strings, and the texts of instants.
--
-- Conventions. A string is a list of code points. An instant is the number of nanoseconds since the
-- zero Time, and a Duration an integer; instants and sums of instants do not overflow. Where a SQL
-- statement compares instants, it compares their texts byte by byte (Common/Stamps), in which the order
-- within one second is not that of the instants. A value that is cut at a number of bytes loses a
-- character that the cut splits. A uint64 is a
-- natural number, with its wrap-around written out where the source adds. An error is a value of a
-- data type, without the text of its message; a value that Go returns beside an error is left out
-- where it is the zero value. Pointers that may be nil are options. A map is the list of its entries,
-- in the order in which the source iterates over it. What a store or the clock answers is an argument
-- of the operation. A loop is a recursion on a list, which needs no fuel, but for two: the decimal digits of a
-- number are given one step more than the number, which is more than it has digits, and the loop of
-- schedule is given three steps for each candidate and four more, which is enough since each round
-- removes a candidate or is one of three conflicts in a row.
--
-- Not modelled: the HTTP server, the Kubernetes client and the OIDC validator, which wrap third-party
-- libraries; the web console; metrics, logging and configuration. Of the persistence adapters only
-- the tables above are modelled: of the jobs not their creation, the listings and ReorderProject, of
-- the admission not the listing of its candidates, which is an argument of the pass. Of the reconciler
-- the observation of Kubernetes (discover, markOutOfScope), applyCommands, the worker status and the
-- timers are not modelled; Kubernetes, the clock and the answers of the leadership are arguments, one
-- for each call. The application services are not modelled. Letters are folded in ASCII only.
pub mod Audit
pub mod Common
pub mod Leadership
pub mod Persistence
pub mod Quota
pub mod Scheduler
pub mod Domain
pub mod Reconciler
