-- ===== src/Persistence/Mutations.antt =====
-- internal/adapters/persistence/mutations.go: the table reconciliation_mutations, one row for each
-- job, operation and request identity. A transaction that returns an error leaves the tables as they
-- were. The instants and the attempt identifier that a call makes are its arguments.
pub mod Table
pub mod Keys
use kube_queue.Common.{
  ℕ, ◌+◌, ◌<◌, Bool, true, false, not, ◌&&◌, ◌||◌, ltb, if◌then◌else◌, Text, text_eq, is_empty,
  trim_space, codes, Option, none, some, Result, ok, err, List, length,
}
use kube_queue.Leadership.Lease
use kube_queue.Leadership.Lease.{Lease, Authority, authorize}
use kube_queue.Leadership.Manager.{Failure}
use kube_queue.Leadership.Mutation.{
  Mutation, MutationState, zero_state, ready, in_flight, observation_required, succeeded,
  unknown_state, MutationOutcome, outcome_uncertain, MutationObservation, MutationError,
  observation_needed, not_ready, begin, complete, observe,
}
use kube_queue.Persistence.Leases.{leadership_lease}
use Table.{
  MutationRequest, MutationRecord, Row, ReadError, no_rows, read_mutation, write_mutation,
  byte_length,
}

pub data StoreError : Type 0 where
  invalid_request : StoreError
  lease_unreadable : Failure → StoreError
  unauthorized : Lease.Error → StoreError
  unreadable : ReadError → StoreError
  rejected : MutationError → StoreError

-- validateMutationRequest: whether it returns an error.
unfoldable pub is_invalid_request : MutationRequest → Bool
is_invalid_request r =
    is_empty (trim_space r.operation)
    || is_empty (trim_space r.job_id)
    || is_empty (trim_space r.attempt_identity)
    || is_empty (trim_space r.request_identity)
    || ltb 64 (byte_length r.operation)
    || ltb 128 (byte_length r.attempt_identity)
    || ltb 256 (byte_length r.request_identity)

-- authorizeMutationTx, on the row of the lease named reconciler.
abbrev pub authorize_mutation : Option Lease → Authority → ℕ → Option StoreError
authorize_mutation row a now = elim (leadership_lease row) [
  | err e ↦ some (lease_unreadable e)
  | ok lease ↦ elim (authorize a lease now) [ none ↦ none | some e ↦ some (unauthorized e) ]
]

-- The zero MutationRecord, with a request.
abbrev pub fresh_record : MutationRequest → MutationRecord
fresh_record request = record {
  mutation = record { state = zero_state; generation = 0 };
  request = request;
  attempt_id = codes "";
  error_class = codes "";
  started_at = 0;
  updated_at = 0;
  observed_at = none;
}

abbrev pub zero_record : MutationRecord
zero_record = fresh_record (record {
  operation = codes "";
  job_id = codes "";
  attempt_identity = codes "";
  request_identity = codes "";
})

-- The tables after a call, the record that it returns, and the error beside that.
abbrev pub Answer : Type 0
Answer = List Row × (MutationRecord × Option StoreError)

abbrev pub rolled_back : List Row → StoreError → Answer
rolled_back table e = (table, (zero_record, some e))

-- The record becomes uncertain, which is committed.
abbrev pub interrupted : List Row → MutationRecord → ℕ → Mutation × Option MutationError → Answer
interrupted table current now (m, some e) = rolled_back table (rejected e)
interrupted table current now (m, none) =
    let marked = record current { mutation = m; updated_at = now } in
    (write_mutation table marked, (marked, some (rejected observation_needed)))

abbrev pub begun : List Row → MutationRequest → Text → ℕ → Mutation × Option MutationError → Answer
begun table request attempt now (m, some e) = rolled_back table (rejected e)
begun table request attempt now (m, none) =
    let next : MutationRecord = record {
      mutation = m;
      request = request;
      attempt_id = attempt;
      error_class = codes "";
      started_at = now;
      updated_at = now;
      observed_at = none;
    } in
    (write_mutation table next, (next, none))

-- The tests of BeginMutation on the state that it reads.
abbrev pub begin_from :
    MutationState → List Row → MutationRecord → MutationRequest → Authority → Text → ℕ → Answer
begin_from in_flight table current request a attempt now =
    interrupted table current now
      (complete current.mutation current.mutation.generation outcome_uncertain)
begin_from observation_required table current request a attempt now =
    (table, (current, some (rejected observation_needed)))
begin_from succeeded table current request a attempt now =
    (table, (current, some (rejected not_ready)))
begin_from zero_state table current request a attempt now =
    begun table request attempt now (begin current.mutation a)
begin_from ready table current request a attempt now =
    begun table request attempt now (begin current.mutation a)
begin_from unknown_state table current request a attempt now =
    begun table request attempt now (begin current.mutation a)

abbrev pub begin_read :
    Result ReadError MutationRecord → List Row → MutationRequest → Authority → Text → ℕ → Answer
begin_read (err no_rows) table request a attempt now =
    begin_from zero_state table (fresh_record request) request a attempt now
begin_read (err e) table request a attempt now = rolled_back table (unreadable e)
begin_read (ok current) table request a attempt now =
    begin_from current.mutation.state table current request a attempt now

-- BeginMutation: `checked` is the instant of the check, `now` that of the change.
unfoldable pub begin_mutation :
    Option Lease → List Row → MutationRequest → Authority → Text → ℕ → ℕ → Answer
begin_mutation lease table request a attempt checked now =
    if is_invalid_request request
    then rolled_back table invalid_request
    else elim (authorize_mutation lease a checked) [
      | some e ↦ rolled_back table e
      | none ↦ begin_read (read_mutation table request) table request a attempt now
    ]

abbrev pub completed :
    List Row → MutationRecord → Text → ℕ → Mutation × Option MutationError → Answer
completed table current class now (m, some e) = rolled_back table (rejected e)
completed table current class now (m, none) =
    let next = record current {
      mutation = m;
      error_class = Table.bounded_mutation_value class 64;
      updated_at = now;
    } in
    (write_mutation table next, (next, none))

-- CompleteMutation
unfoldable pub complete_mutation :
    List Row → MutationRequest → ℕ → MutationOutcome → Text → ℕ → Answer
complete_mutation table request generation outcome class now = elim (read_mutation table request) [
  | err e ↦ rolled_back table (unreadable e)
  | ok current ↦ completed table current class now (complete current.mutation generation outcome)
]

abbrev pub observed : List Row → MutationRecord → ℕ → Mutation × Option MutationError → Answer
observed table current now (m, some e) = rolled_back table (rejected e)
observed table current now (m, none) =
    let next = record current {
      mutation = m;
      observed_at = some now;
      updated_at = now;
      error_class = codes "";
    } in
    (write_mutation table next, (next, none))

-- ObserveMutation
unfoldable pub observe_mutation :
    Option Lease → List Row → MutationRequest → Authority → MutationObservation → ℕ → ℕ → Answer
observe_mutation lease table request a observation checked now =
    elim (authorize_mutation lease a checked) [
      | some e ↦ rolled_back table e
      | none ↦ elim (read_mutation table request) [
        | err e ↦ rolled_back table (unreadable e)
        | ok current ↦ observed table current now (observe current.mutation a observation)
      ]
    ]
