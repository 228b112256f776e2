-- ===== src/Persistence/Jobs/Claims.antt =====
-- internal/adapters/persistence/sqlstore.go: the claims of the scheduler. Rows are claimed one
-- transaction after the other.
use kube_queue.Common.{
  stamp_lt, stamp_le, ℕ, ℤ, ltb_ℤ, eq_ℤ, add_duration, Bool, true, false, not, ◌&&◌, ◌||◌,
  if◌then◌else◌, Text, text_eq, take, List, [], ◌∷◌, Option, none, some, is_none,
}
use kube_queue.Domain.Lifecycle.{
  created, queued, paused, SyncStatus, missing, out_of_scope, sync_conflicted, state_eq,
}
use kube_queue.Persistence.Jobs.{JobRow, Store, Claim, is_managed}

abbrev cannot_start : SyncStatus → Bool
cannot_start missing = true
cannot_start out_of_scope = true
cannot_start sync_conflicted = true
cannot_start _ = false

-- `t IS NULL OR t<=?`
abbrev pub is_due : ℕ → Option ℕ → Bool
is_due now none = true
is_due now (some t) = stamp_le t now

-- The WHERE of Eligible, ClaimEligible and runtimeCandidateEligibleTx on the job.
abbrev pub is_startable : ℕ → JobRow → Bool
is_startable now j =
    state_eq j.desired queued
    && (state_eq j.seen created || state_eq j.seen paused)
    && is_managed j.management
    && not (cannot_start j.sync_status)
    && is_none j.archived_at
    && is_due now j.next_reconcile_at
    && is_due now j.scheduled_for

unfoldable pub claim_of : Text → List Claim → Option Claim
claim_of job [] = none
claim_of job (c ∷ claims) = if text_eq c.job job then some c else claim_of job claims

-- DELETE FROM scheduler_claims WHERE expires_at<=?
unfoldable pub drop_expired : ℕ → List Claim → List Claim
drop_expired now [] = []
drop_expired now (c ∷ claims) =
    if stamp_le c.expires now then drop_expired now claims else c ∷ drop_expired now claims

-- The startable jobs without a claim.
unfoldable pub unclaimed : ℕ → List Claim → List JobRow → List JobRow
unclaimed now claims [] = []
unclaimed now claims (j ∷ jobs) =
    if is_startable now j && is_none (claim_of j.id claims)
    then j ∷ unclaimed now claims jobs
    else unclaimed now claims jobs

-- ORDER BY priority DESC, position, created_at
abbrev pub starts_before : JobRow → JobRow → Bool
starts_before i j =
    ltb_ℤ j.priority i.priority
    || eq_ℤ i.priority j.priority
      && (ltb_ℤ i.position j.position
          || eq_ℤ i.position j.position && stamp_lt i.created_at j.created_at)

unfoldable pub insert_job : JobRow → List JobRow → List JobRow
insert_job i [] = i ∷ []
insert_job i (j ∷ jobs) = if starts_before j i then j ∷ insert_job i jobs else i ∷ j ∷ jobs

unfoldable pub sort_jobs : List JobRow → List JobRow
sort_jobs [] = []
sort_jobs (j ∷ jobs) = insert_job j (sort_jobs jobs)

-- The loop that inserts the claims.
unfoldable pub claim_all : Text → ℕ → List JobRow → List Claim → List Claim
claim_all holder expires [] claims = claims
claim_all holder expires (j ∷ jobs) claims =
    claim_all holder expires jobs
      (record { job = j.id; holder = holder; expires = expires } ∷ claims)

-- ClaimEligible: the claimed jobs, and the tables after it.
unfoldable pub claim_eligible : Text → ℕ → ℕ → ℤ → Store → List JobRow × Store
claim_eligible holder limit now ttl s =
    let live = drop_expired now s.claims in
    let jobs = take limit (sort_jobs (unclaimed now live s.jobs)) in
    (jobs, record s { claims = claim_all holder (add_duration now ttl) jobs live })

-- ReleaseSchedulerClaim
unfoldable pub release_claims : Text → Text → List Claim → List Claim
release_claims job holder [] = []
release_claims job holder (c ∷ claims) =
    if text_eq c.job job && text_eq c.holder holder
    then release_claims job holder claims
    else c ∷ release_claims job holder claims

-- AcquireSchedulerLease: the row after it, and whether it was written.
unfoldable pub acquire_scheduler_lease : Text → ℕ → ℤ → Option (Text × ℕ) → Option (Text × ℕ) × Bool
acquire_scheduler_lease holder now ttl none = (some (holder, add_duration now ttl), true)
acquire_scheduler_lease holder now ttl (some row) =
    if stamp_lt row.1 now || text_eq row.0 holder
    then (some (holder, add_duration now ttl), true)
    else (some row, false)
