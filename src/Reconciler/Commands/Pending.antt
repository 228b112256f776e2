-- ===== src/Reconciler/Commands/Pending.antt =====
-- internal/reconciler/reconciler.go: resolveOutstandingMutations, and PendingMutations of
-- internal/adapters/persistence/mutations.go. One reading of the lease, the clock and the attempt
-- identifier serves all transactions of a call.
use kube_queue.Common.{
  stamp_lt, ℕ, Bool, true, false, not, ◌&&◌, ◌||◌, ◌==◌, if◌then◌else◌, Text, text_eq, text_lt,
  codes, List, [], ◌∷◌, Option, none, some, Result, ok, err, ◌>>=◌,
}
use kube_queue.Leadership.Lease.{Lease, Authority}
use kube_queue.Leadership.Mutation.{
  MutationState, in_flight, observation_required, observation_needed, not_ready,
}
use kube_queue.Persistence.Mutations.{
  StoreError, unreadable, rejected, Answer, begin_mutation, observe_mutation,
}
use kube_queue.Persistence.Mutations.Table.{MutationRecord, Row, read_row}
use kube_queue.Persistence.Jobs.{JobRow}
use kube_queue.Reconciler.{mutation_effect_present}
use kube_queue.Reconciler.Commands.{
  CommandError, observation_missing, store_error, is_seen_after, observation_of,
}

abbrev is_in_flight : MutationState → Bool
is_in_flight in_flight = true
is_in_flight _ = false

abbrev is_uncertain : MutationState → Bool
is_uncertain observation_required = true
is_uncertain _ = false

-- WHERE job_id=? AND state IN ('IN_FLIGHT','OBSERVATION_REQUIRED')
abbrev pub is_pending : Text → Row → Bool
is_pending job row =
    text_eq row.request.job_id job
    && (text_eq row.state (codes "IN_FLIGHT") || text_eq row.state (codes "OBSERVATION_REQUIRED"))

-- ORDER BY started_at,operation,request_identity
abbrev pub starts_earlier : Row → Row → Bool
starts_earlier r s =
    stamp_lt r.started_at s.started_at
    || r.started_at == s.started_at
      && (text_lt r.request.operation s.request.operation
          || text_eq r.request.operation s.request.operation
            && text_lt r.request.request_identity s.request.request_identity)

unfoldable pub insert_row : Row → List Row → List Row
insert_row r [] = r ∷ []
insert_row r (s ∷ rows) = if starts_earlier s r then s ∷ insert_row r rows else r ∷ s ∷ rows

unfoldable pub pending_rows : Text → List Row → List Row
pending_rows job [] = []
pending_rows job (row ∷ rows) =
    if is_pending job row then insert_row row (pending_rows job rows) else pending_rows job rows

-- The loop that scans the rows.
unfoldable pub scan_rows : List Row → Result StoreError (List MutationRecord)
scan_rows [] = ok []
scan_rows (row ∷ rows) = elim (read_row row) [
  | err e ↦ err (unreadable e)
  | ok record_ ↦ do rest ← scan_rows rows; ok (record_ ∷ rest)
]

-- PendingMutations
unfoldable pub pending_mutations : Text → List Row → Result StoreError (List MutationRecord)
pending_mutations job table = scan_rows (pending_rows job table)

pub record Moment : Type 0 where
  pub lease : Option Lease
  pub at : ℕ
  pub attempt : Text

-- The table after a call, and its error.
abbrev pub Resolution : Type 0
Resolution = List Row × Option CommandError

module _ (m : Moment) (seen : Option ℕ) (job : JobRow) (a : Authority) where
  -- The BeginMutation of a record in flight; else the variable err keeps what it was.
  abbrev pub begun_record : MutationRecord → Option StoreError → List Row → Answer
  begun_record r e table =
      if is_in_flight r.mutation.state
      then begin_mutation m.lease table r.request a m.attempt m.at m.at
      else (table, (r, e))

  abbrev pub after_observation :
      Option StoreError → (Option StoreError → List Row → Resolution) → Answer → Resolution
  after_observation e rest (table, (r, none)) = rest e table
  after_observation e rest (table, (r, some f)) = (table, some (store_error f))

  -- From the test on the state of the record.
  abbrev pub settled :
      MutationRecord
      → Option StoreError
      → List Row
      → (Option StoreError → List Row → Resolution)
      → Resolution
  settled r e table rest =
      if not (is_uncertain r.mutation.state)
      then rest e table
      else if not (is_seen_after seen r.started_at)
      then (table, some observation_missing)
      else after_observation e rest (
          observe_mutation m.lease table r.request a
            (observation_of (mutation_effect_present job r.request.operation)) m.at m.at)

  abbrev pub settled_from : (Option StoreError → List Row → Resolution) → Answer → Resolution
  settled_from rest (table, (r, none)) = settled r none table rest
  settled_from rest (table, (r, some (rejected not_ready))) = rest (some (rejected not_ready)) table
  settled_from rest (table, (r, some (rejected observation_needed))) =
      settled r (some (rejected observation_needed)) table rest
  settled_from rest (table, (r, some e)) = (table, some (store_error e))

  -- The loop of resolveOutstandingMutations, with its variable err.
  unfoldable pub resolve_records : List MutationRecord → Option StoreError → List Row → Resolution
  resolve_records [] e table = (table, none)
  resolve_records (r ∷ records) e table =
      settled_from (resolve_records records) (begun_record r e table)

  abbrev pub resolved_all : List Row → Result StoreError (List MutationRecord) → Resolution
  resolved_all table (err e) = (table, some (store_error e))
  resolved_all table (ok records) = resolve_records records none table

  -- resolveOutstandingMutations
  unfoldable pub resolve_outstanding_mutations : List Row → Resolution
  resolve_outstanding_mutations table = resolved_all table (pending_mutations job.id table)
