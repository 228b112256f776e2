-- ===== src/Persistence/Jobs/Reorder.antt =====
-- internal/adapters/persistence/sqlstore.go: Reorder, which gives the whole queue a new order. The order
-- in which the jobs of the queue are read does not matter to it.
use kube_queue.Common.{
  ℕ, ◌+◌, ℤ, pos, ltb_ℤ, Bool, false, not, ◌&&◌, ◌||◌, ◌==◌, if◌then◌else◌, Text, is_listed, length,
  codes, List, [], ◌∷◌, Option, none, some, is_none, Result, ok, err, ◌>>=◌, ◌>>◌, fail_if,
}
use kube_queue.Domain.Lifecycle.{queued, state_eq}
use kube_queue.Persistence.Jobs.{
  JobRow, Store, JobError, stale_version, get_job, update_job, add_event, is_managed, is_left_out,
  is_queued,
}
use kube_queue.Persistence.Jobs.Calls.{Saved}

-- The query: the jobs of the queue.
unfoldable pub queued_jobs : List JobRow → List JobRow
queued_jobs [] = []
queued_jobs (j ∷ jobs) = if is_queued j then j ∷ queued_jobs jobs else queued_jobs jobs

-- The loop that fills `seen`: whether some id stands twice.
unfoldable pub has_duplicate : List Text → Bool
has_duplicate [] = false
has_duplicate (id ∷ ids) = is_listed id ids || has_duplicate ids

-- The loop over the ids of the queue: whether one is not among the given ones.
unfoldable pub lacks_job : List Text → List JobRow → Bool
lacks_job ids [] = false
lacks_job ids (j ∷ jobs) = not (is_listed j.id ids) || lacks_job ids jobs

-- `priorities[id]`; a missing entry reads as 0.
abbrev pub priority_of : Text → List JobRow → ℤ
priority_of id jobs = elim (get_job id jobs) [ none ↦ pos 0 | some j ↦ j.priority ]

-- Whether a job would stand before one of a higher priority.
unfoldable pub is_inverted : List Text → List JobRow → Bool
is_inverted [] jobs = false
is_inverted (id ∷ []) jobs = false
is_inverted (id ∷ next ∷ ids) jobs =
    ltb_ℤ (priority_of id jobs) (priority_of next jobs) || is_inverted (next ∷ ids) jobs

-- The WHERE of the update, beside the id.
abbrev pub can_reorder : JobRow → Bool
can_reorder j =
    is_managed j.management
    && not (is_left_out j.sync_status)
    && is_none j.archived_at
    && state_eq j.desired queued

abbrev pub at_position : ℕ → JobRow → JobRow
at_position n j = record j { position = pos n; version = j.version + 1 }

abbrev pub moved_to : ℕ → Text → Store → Store
moved_to n id s = record s {
  jobs = update_job id (at_position n) s.jobs;
  events = add_event id (codes "QUEUE_REORDERED") s.events;
}

abbrev pub moved_or : ℕ → Text → Store → Option JobRow → Saved
moved_or n id s none = err stale_version
moved_or n id s (some row) = if can_reorder row then ok (moved_to n id s) else err stale_version

-- The loop over the ids, from a position.
unfoldable pub place_from : ℕ → List Text → Store → Saved
place_from n [] s = ok s
place_from n (id ∷ ids) s = do
  next ← moved_or n id s (get_job id s.jobs)
  place_from (n + 1) ids next

-- The next version of the queue, with its number.
abbrev pub next_version : Store → Store → Result JobError (ℕ × Store)
next_version s t = ok (s.queue_version + 1, record t { queue_version = s.queue_version + 1 })

-- Reorder
unfoldable pub reorder : List Text → ℕ → Store → Result JobError (ℕ × Store)
reorder ids expected s =
    let current = queued_jobs s.jobs in
    fail_if (not (s.queue_version == expected)) stale_version
    >> (fail_if (has_duplicate ids) stale_version
        >> (fail_if (not (length current == length ids)) stale_version
            >> (fail_if (lacks_job ids current) stale_version
                >> (fail_if (is_inverted ids current) stale_version
                    >> (place_from 1 ids s >>= next_version s)))))
