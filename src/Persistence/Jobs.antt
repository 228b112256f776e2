-- ===== src/Persistence/Jobs.antt =====
-- internal/adapters/persistence/sqlstore.go: the table jobs with the queue version, the claims of the
-- scheduler, the events, and the quota tables that the same transactions change. The columns that no
-- transaction here reads (times of changes, diagnostic texts, ownership) are left out; a transaction
-- gives the tables after it or an error, which rolls it back.
pub mod Calls
pub mod Claims
pub mod Marks
pub mod Rows
pub mod Steps
pub mod Advances
pub mod History
pub mod Versions
pub mod Reorder
pub mod Ids
pub mod Queued
pub mod Reordered
mod Examples
use kube_queue.Common.{
  ◌≡◌, arith, ℕ, ◌+◌, ℤ, pos, Bool, true, false, not, ◌&&◌, ◌||◌, ltb, ◌==◌, if◌then◌else◌, Text,
  text_eq, is_empty, codes, List, [], ◌∷◌, Option, none, some, is_none,
}
use kube_queue.Domain.Lifecycle.{
  JobState, created, queued, running, paused, completed, failed, cancelled, other, ManagementMode,
  managed, SyncStatus, synced, pending, missing, stale, error, out_of_scope, sync_conflicted,
  state_eq,
}
use kube_queue.Persistence.Quotas.{Tables, QuotaError}

pub record JobRow : Type 0 where
  pub id : Text
  pub desired : JobState
  pub seen : JobState
  pub management : ManagementMode
  pub sync_status : SyncStatus
  pub priority : ℤ
  pub position : ℤ
  pub scheduled_for : Option ℕ
  pub kubernetes_uid : Text
  pub resource_version : Text
  pub pending_action : Option JobState
  pub reconcile_retries : ℕ
  pub next_reconcile_at : Option ℕ
  pub archived_at : Option ℕ
  pub version : ℕ
  pub created_at : ℕ

pub record Event : Type 0 where
  pub job_id : Text
  pub kind : Text

-- A row of scheduler_claims; a job has one at most.
pub record Claim : Type 0 where
  pub job : Text
  pub holder : Text
  pub expires : ℕ

pub record Store : Type 0 where
  pub jobs : List JobRow
  pub queue_version : ℕ
  pub claims : List Claim
  pub events : List Event
  pub quota : Tables

pub data JobError : Type 0 where
  job_not_found invalid_transition stale_version priority_range : JobError
  quota_refused : QuotaError → JobError

-- Get
unfoldable pub get_job : Text → List JobRow → Option JobRow
get_job id [] = none
get_job id (j ∷ jobs) = if text_eq j.id id then some j else get_job id jobs

-- An UPDATE of the job with an id.
unfoldable pub update_job : Text → (JobRow → JobRow) → List JobRow → List JobRow
update_job id change [] = []
update_job id change (j ∷ jobs) =
    if text_eq j.id id then change j ∷ jobs else j ∷ update_job id change jobs

-- DELETE FROM scheduler_claims WHERE job_id=?
unfoldable pub drop_claims : Text → List Claim → List Claim
drop_claims id [] = []
drop_claims id (c ∷ claims) =
    if text_eq c.job id then drop_claims id claims else c ∷ drop_claims id claims

-- addEvent
abbrev pub add_event : Text → Text → List Event → List Event
add_event id kind events = record { job_id = id; kind = kind } ∷ events

abbrev pub is_managed : ManagementMode → Bool
is_managed managed = true
is_managed _ = false

abbrev pub is_listed_status : SyncStatus → Bool
is_listed_status synced = true
is_listed_status pending = true
is_listed_status error = true
is_listed_status _ = false

-- queueMember
abbrev pub queue_member : JobState → JobState → ManagementMode → SyncStatus → Bool
queue_member desired seen management sync =
    state_eq desired queued
    && is_managed management
    && (state_eq seen created || state_eq seen paused)
    && is_listed_status sync

abbrev pub is_left_out : SyncStatus → Bool
is_left_out missing = true
is_left_out stale = true
is_left_out out_of_scope = true
is_left_out sync_conflicted = true
is_left_out _ = false

-- The WHERE of the queue's listing, and of Reorder.
abbrev pub is_queued : JobRow → Bool
is_queued j =
    is_none j.archived_at
    && is_managed j.management
    && state_eq j.desired queued
    && (state_eq j.seen created || state_eq j.seen paused)
    && not (is_left_out j.sync_status)
