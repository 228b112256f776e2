-- ===== src/Persistence/Jobs/Marks.antt =====
-- internal/adapters/persistence/sqlstore.go: the transactions that mark a job, archive it or place it in
-- the queue.
use kube_queue.Common.{
  ℕ, ◌+◌, ℤ, pos, negsuc, ltb_ℤ, Bool, true, false, not, ◌&&◌, ◌||◌, ◌==◌, if◌then◌else◌, Text,
  text_eq, codes, Option, none, some, is_none, ok, err,
}
use kube_queue.Domain.Lifecycle.{queued, SyncStatus, missing, error, out_of_scope, state_eq}
use kube_queue.Persistence.Quotas.{Tables}
use kube_queue.Persistence.Quotas.Calls.{release_retained_job_quota}
use kube_queue.Persistence.Jobs.{
  JobRow, Store, job_not_found, stale_version, priority_range, get_job, update_job, drop_claims,
  add_event, is_managed,
}
use kube_queue.Persistence.Jobs.Calls.{Saved, quota_saved, saving}

abbrev is_missing : SyncStatus → Bool
is_missing missing = true
is_missing _ = false

abbrev is_out_of_scope : SyncStatus → Bool
is_out_of_scope out_of_scope = true
is_out_of_scope _ = false

-- A job that leaves the queue, with its claims.
abbrev pub left_queue : Text → (JobRow → JobRow) → Text → Store → Store
left_queue id change kind s = record {
  jobs = update_job id change s.jobs;
  queue_version = s.queue_version + 1;
  claims = drop_claims id s.claims;
  events = add_event id kind s.events;
  quota = s.quota;
}

abbrev pub can_mark_missing : Text → Text → JobRow → Bool
can_mark_missing uid resource_version row =
    text_eq row.kubernetes_uid uid
    && text_eq row.resource_version resource_version
    && not (is_missing row.sync_status)

abbrev pub missing_row : JobRow → JobRow
missing_row j = record j { sync_status = missing; version = j.version + 1 }

-- MarkMissing; the job is read after it.
unfoldable pub mark_missing : Text → Text → Text → Store → Saved
mark_missing id uid resource_version s = elim (get_job id s.jobs) [
  | none ↦ err job_not_found
  | some row ↦
      if can_mark_missing uid resource_version row
      then ok (left_queue id missing_row (codes "KUBERNETES_JOB_MISSING") s)
      else ok s
]

abbrev pub can_mark_out_of_scope : Text → JobRow → Bool
can_mark_out_of_scope resource_version row =
    text_eq row.resource_version resource_version && not (is_out_of_scope row.sync_status)

abbrev pub out_of_scope_row : JobRow → JobRow
out_of_scope_row j = record j {
  sync_status = out_of_scope;
  pending_action = none;
  version = j.version + 1;
}

-- MarkOutOfScope; the job is read after it.
unfoldable pub mark_out_of_scope : Text → Text → Store → Saved
mark_out_of_scope id resource_version s = elim (get_job id s.jobs) [
  | none ↦ err job_not_found
  | some row ↦
      if can_mark_out_of_scope resource_version row
      then ok (left_queue id out_of_scope_row (codes "NAMESPACE_OUT_OF_SCOPE") s)
      else ok s
]

abbrev pub error_row : ℕ → JobRow → JobRow
error_row next_retry j = record j {
  sync_status = error;
  reconcile_retries = j.reconcile_retries + 1;
  next_reconcile_at = some next_retry;
  version = j.version + 1;
}

abbrev pub with_error : Text → ℕ → Store → Store
with_error id next_retry s = record s {
  jobs = update_job id (error_row next_retry) s.jobs;
  events = add_event id (codes "RECONCILIATION_ERROR") s.events;
}

-- RecordReconcileError
unfoldable pub record_reconcile_error : Text → Text → ℕ → Store → Saved
record_reconcile_error id resource_version next_retry s = elim (get_job id s.jobs) [
  | none ↦ ok s
  | some row ↦
      if text_eq row.resource_version resource_version
      then ok (with_error id next_retry s)
      else ok s
]

abbrev pub archived_row : ℕ → JobRow → JobRow
archived_row now j = record j {
  archived_at = some now;
  pending_action = none;
  version = j.version + 1;
}

abbrev pub archived : Text → ℕ → Store → Tables → Store
archived id now s quota = record (left_queue id (archived_row now) (codes "JOB_ARCHIVED") s) {
  quota = quota;
}

-- Archive
unfoldable pub archive_job : Text → ℕ → Store → Saved
archive_job id now s = elim (get_job id s.jobs) [
  | none ↦ err job_not_found
  | some row ↦
      if is_none row.archived_at
      then saving (quota_saved (release_retained_job_quota id s.quota)) (archived id now s)
      else ok s
]

-- The WHERE of UpdateQueue, beside the id.
abbrev pub can_update_queue : ℕ → JobRow → Bool
can_update_queue version row =
    row.version == version
    && is_managed row.management
    && not (is_out_of_scope row.sync_status)
    && is_none row.archived_at
    && state_eq row.desired queued

abbrev pub placed_row : ℤ → ℤ → Option ℕ → JobRow → JobRow
placed_row priority position scheduled_for j = record j {
  priority = priority;
  position = position;
  scheduled_for = scheduled_for;
  version = j.version + 1;
}

abbrev pub placed : Text → ℤ → ℤ → Option ℕ → Store → Store
placed id priority position scheduled_for s = record s {
  jobs = update_job id (placed_row priority position scheduled_for) s.jobs;
  queue_version = s.queue_version + 1;
  events = add_event id (codes "QUEUE_UPDATED") s.events;
}

-- UpdateQueue
unfoldable pub update_queue : Text → ℤ → ℤ → ℕ → Option ℕ → Store → Saved
update_queue id priority position version scheduled_for s =
    if ltb_ℤ priority (negsuc 999) || ltb_ℤ (pos 1000) priority
    then err priority_range
    else elim (get_job id s.jobs) [
      | none ↦ err stale_version
      | some row ↦
          if can_update_queue version row
          then ok (placed id priority position scheduled_for s)
          else err stale_version
    ]
