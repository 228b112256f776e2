-- ===== src/Domain/Lifecycle.antt =====
-- internal/domain/job.go: the states of a job and the transitions between them. The management modes
-- are only ever the constants of the source.
use kube_queue.Common.{◌≡◌, refl, Bool, true, false, not, ◌&&◌, ◌||◌, if◌then◌else◌, Text, text_eq}

pub data JobState : Type 0 where
  created queued running paused completed failed cancelled : JobState
  other : Text → JobState

pub data ManagementMode : Type 0 where
  managed observed ignored conflicted : ManagementMode

pub data SyncStatus : Type 0 where
  synced pending missing stale error out_of_scope sync_conflicted : SyncStatus
  -- Any other text of the column.
  other_status : Text → SyncStatus

-- `==`
abbrev pub state_eq : JobState → JobState → Bool
state_eq created created = true
state_eq queued queued = true
state_eq running running = true
state_eq paused paused = true
state_eq completed completed = true
state_eq failed failed = true
state_eq cancelled cancelled = true
state_eq (other s) (other t) = text_eq s t
state_eq _ _ = false

-- Where `from` differs from `to`.
abbrev moves_to : JobState → JobState → Bool
moves_to created from = false
moves_to cancelled from = not (state_eq from completed) && not (state_eq from cancelled)
moves_to queued from = state_eq from created || state_eq from paused || state_eq from failed
moves_to paused from = state_eq from queued || state_eq from running
moves_to running from = state_eq from queued || state_eq from paused
moves_to completed from = state_eq from running
moves_to failed from = state_eq from running
moves_to (other _) from = false

-- CanTransition
unfoldable pub can_transition : JobState → JobState → Bool
can_transition from to = if state_eq from to then true else moves_to to from

abbrev synced_if : Bool → SyncStatus
synced_if test = if test then synced else pending

-- SynchronizationStatus
unfoldable pub synchronization_status : JobState → JobState → SyncStatus
synchronization_status created seen = synced_if (state_eq seen created)
synchronization_status queued seen =
    synced_if (state_eq seen created || state_eq seen queued || state_eq seen paused)
synchronization_status running seen = synced_if (state_eq seen running)
synchronization_status paused seen = synced_if (state_eq seen paused)
synchronization_status completed seen = synced_if (state_eq seen completed)
synchronization_status failed seen = synced_if (state_eq seen failed)
synchronization_status cancelled seen = synced_if (state_eq seen cancelled)
synchronization_status (other _) seen = pending

pub cancelled_final : (to : JobState) → can_transition cancelled to ≡ true → to ≡ cancelled
unfolding can_transition
cancelled_final created e = cc e
cancelled_final queued e = cc e
cancelled_final running e = cc e
cancelled_final paused e = cc e
cancelled_final completed e = cc e
cancelled_final failed e = cc e
cancelled_final cancelled e = refl
cancelled_final (other _) e = cc e
