-- ===== src/Persistence/Jobs/Calls.antt =====
-- internal/adapters/persistence/sqlstore.go: the transactions on one job.
use kube_queue.Common.{
  ◌+◌, Bool, true, false, not, ◌||◌, if◌then◌else◌, Text, text_eq, is_empty, codes, Option, none,
  some, Result, ok, err, ◌>>=◌,
}
use kube_queue.Domain.Lifecycle.{
  JobState, queued, completed, failed, cancelled, ManagementMode, SyncStatus, synced, pending,
  state_eq, can_transition, synchronization_status,
}
use kube_queue.Quota.Reservation.{Reservation, ReleaseCause}
use kube_queue.Quota.Reservation
use kube_queue.Persistence.Quotas.{Tables, QuotaError}
use kube_queue.Persistence.Quotas.Calls.{release_job_quota, Freed}
use kube_queue.Persistence.Jobs.{
  JobRow, Store, JobError, job_not_found, invalid_transition, quota_refused, get_job, update_job,
  add_event, queue_member,
}

abbrev pub Saved : Type 0
Saved = Result JobError Store

abbrev pub quota_freed : Freed → Result JobError Tables
quota_freed (ok r) = ok r.1
quota_freed (err e) = err (quota_refused e)

-- releaseAnyJobQuotaTx
abbrev pub release_any_job_quota : Text → ReleaseCause → Tables → Result JobError Tables
release_any_job_quota job cause t = quota_freed (release_job_quota true job cause t)

abbrev pub quota_saved : Result QuotaError Tables → Result JobError Tables
quota_saved (ok t) = ok t
quota_saved (err e) = err (quota_refused e)

-- A change of the quota tables, and then of the others.
abbrev pub saving : Result JobError Tables → (Tables → Store) → Saved
saving r next = do quota ← r; ok (next quota)

abbrev pub desired_row : JobState → JobRow → JobRow
desired_row state j = record j {
  desired = state;
  sync_status = pending;
  pending_action = some state;
  reconcile_retries = 0;
  next_reconcile_at = none;
  version = j.version + 1;
}

-- The quota that a state gives back.
abbrev pub quota_after : Text → JobState → Tables → Result JobError Tables
quota_after id cancelled t = release_any_job_quota id Reservation.cancelled t
quota_after id _ t = ok t

abbrev pub desired_store : JobState → Text → JobState → Store → Tables → Store
desired_store current id state s quota = record {
  jobs = update_job id (desired_row state) s.jobs;
  queue_version =
      if state_eq current queued || state_eq state queued
      then s.queue_version + 1
      else s.queue_version;
  claims = s.claims;
  events = add_event id (codes "DESIRED_STATE_CHANGED") s.events;
  quota = quota;
}

-- The transaction of SetDesiredState, for the desired state that was read before it.
unfoldable pub write_desired_state : JobState → Text → JobState → Store → Saved
write_desired_state current id state s = elim (get_job id s.jobs) [
  | none ↦ err job_not_found
  | some _ ↦ saving (quota_after id state s.quota) (desired_store current id state s)
]

-- SetDesiredState, given what Get read before the transaction, which may be out of date by then.
unfoldable pub set_desired_state : Option JobRow → Text → JobState → Store → Saved
set_desired_state none id state s = err job_not_found
set_desired_state (some current) id state s =
    if not (can_transition current.desired state)
    then err invalid_transition
    else write_desired_state current.desired id state s

-- Observation; the empty mode and status are `none`.
pub record Observation : Type 0 where
  pub state : JobState
  pub uid : Text
  pub resource_version : Text
  pub expected_resource_version : Text
  pub management : Option ManagementMode
  pub sync_status : Option SyncStatus

abbrev pub mode_or : ManagementMode → Option ManagementMode → ManagementMode
mode_or m none = m
mode_or m (some n) = n

abbrev pub status_or : SyncStatus → Option SyncStatus → SyncStatus
status_or s none = s
status_or s (some t) = t

abbrev is_synced : SyncStatus → Bool
is_synced synced = true
is_synced _ = false

abbrev pub seen_row : Observation → ManagementMode → SyncStatus → JobRow → JobRow
seen_row o management sync j = record j {
  seen = o.state;
  kubernetes_uid = if is_empty o.uid then j.kubernetes_uid else o.uid;
  management = management;
  sync_status = sync;
  resource_version = o.resource_version;
  pending_action = if is_synced sync then none else j.pending_action;
  reconcile_retries = 0;
  next_reconcile_at = none;
  version = j.version + 1;
}

abbrev pub bool_eq : Bool → Bool → Bool
bool_eq true b = b
bool_eq false b = not b

-- The quota that an observed state gives back.
abbrev pub quota_at : Text → JobState → Tables → Result JobError Tables
quota_at id completed t = release_any_job_quota id Reservation.completed t
quota_at id failed t = release_any_job_quota id Reservation.failed t
quota_at id cancelled t = release_any_job_quota id Reservation.cancelled t
quota_at id _ t = ok t

abbrev pub mode_of : Observation → JobRow → ManagementMode
mode_of o current = mode_or current.management o.management

abbrev pub status_of : Observation → JobRow → SyncStatus
status_of o current = status_or (synchronization_status current.desired o.state) o.sync_status

abbrev pub stays_in_queue : Observation → JobRow → Bool
stays_in_queue o current =
    bool_eq (queue_member current.desired current.seen current.management current.sync_status)
      (queue_member current.desired o.state (mode_of o current) (status_of o current))

abbrev pub seen_store : Text → Observation → JobRow → Store → Tables → Store
seen_store id o current s quota = record {
  jobs = update_job id (seen_row o (mode_of o current) (status_of o current)) s.jobs;
  queue_version = if stays_in_queue o current then s.queue_version else s.queue_version + 1;
  claims = s.claims;
  events = add_event id (codes "OBSERVED_STATE_CHANGED") s.events;
  quota = quota;
}

-- The transaction of SetObserved, for the job that was read before it. Where the job is gone, the Get
-- that follows fails.
unfoldable pub write_observed : JobRow → Text → Observation → Store → Saved
write_observed current id o s = elim (get_job id s.jobs) [
  | none ↦ err job_not_found
  | some row ↦
      if text_eq row.resource_version o.expected_resource_version
      then saving (quota_at id o.state s.quota) (seen_store id o current s)
      else ok s
]

-- SetObserved, given what Get read before the transaction, which may be out of date by then.
unfoldable pub set_observed : Option JobRow → Text → Observation → Store → Saved
set_observed none id o s = err job_not_found
set_observed (some current) id o s = write_observed current id o s
