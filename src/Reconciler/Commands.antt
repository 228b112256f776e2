-- ===== src/Reconciler/Commands.antt =====
-- internal/reconciler/reconciler.go: mutateKubernetes, which sends one command to Kubernetes, and
-- resolveOutstandingMutations, over the table of mutations. What the clock, the lease table, the
-- leadership and Kubernetes answer are arguments; no other replica writes the row between the calls.
pub mod Once
pub mod Pending
use kube_queue.Common.{
  ℕ, ◌<◌, Bool, true, false, not, ◌&&◌, ltb, if◌then◌else◌, Text, text_eq, codes, List, [], ◌∷◌,
  Option, none, some, Result, ok, err,
}
use kube_queue.Leadership.Lease.{Lease, Authority}
use kube_queue.Leadership.Manager.{Failure}
use kube_queue.Leadership.Mutation.{
  MutationState, in_flight, observation_required, MutationOutcome, outcome_succeeded,
  outcome_failed, outcome_uncertain, MutationObservation, effect_present, effect_absent,
  observation_needed, not_ready,
}
use kube_queue.Persistence.Mutations.{
  StoreError, rejected, Answer, begin_mutation, complete_mutation, observe_mutation,
}
use kube_queue.Persistence.Mutations.Table.{MutationRequest, MutationRecord, Row}
use kube_queue.Reconciler.{RuntimeJob, mutation_effect_present}

-- An error of the Kubernetes client: the class that ClassifyError gives it, and whether
-- ambiguousMutationError holds of it.
pub record KubeError : Type 0 where
  pub class : Text
  pub is_ambiguous : Bool

-- What one call of mutateKubernetes reads: the row of the lease and the clock at its transactions,
-- the new attempt identifiers, the answer of Revalidate and that of Kubernetes.
pub record Readings : Type 0 where
  pub lease : Option Lease
  pub started_at : ℕ
  pub attempt : Text
  pub observed_lease : Option Lease
  pub observed_at : ℕ
  pub again_lease : Option Lease
  pub again_at : ℕ
  pub again_attempt : Text
  pub revalidated : Option Failure
  pub reply : Option KubeError
  pub completed_at : ℕ

pub data CommandError : Type 0 where
  -- leadership.ErrObservationRequired
  observation_missing : CommandError
  store_error : StoreError → CommandError
  fence_rejected : Failure → Option StoreError → CommandError
  not_completed : Option KubeError → StoreError → CommandError
  uncertain : Option KubeError → CommandError
  command_failed : KubeError → CommandError

-- The table after a call, whether the command was sent, and the error.
pub record Effect : Type 0 where
  pub table : List Row
  pub sent : Bool
  pub error : Option CommandError

abbrev pub unsent : List Row → Option CommandError → Effect
unsent table e = record { table = table; sent = false; error = e }

-- `!r.observedAt.IsZero() && r.observedAt.After(record.StartedAt)`, where `none` is the zero Time.
abbrev pub is_seen_after : Option ℕ → ℕ → Bool
is_seen_after none started = false
is_seen_after (some at) started = ltb started at

abbrev pub observation_of : Bool → MutationObservation
observation_of true = effect_present
observation_of false = effect_absent

abbrev pub outcome_of : Option KubeError → MutationOutcome
outcome_of none = outcome_succeeded
outcome_of (some e) = if e.is_ambiguous then outcome_uncertain else outcome_failed

abbrev pub class_of : Option KubeError → Text
class_of none = codes ""
class_of (some e) = e.class

abbrev pub reply_error : Option KubeError → Option CommandError
reply_error none = none
reply_error (some e) = if e.is_ambiguous then some (uncertain (some e)) else some (command_failed e)

-- After the CompleteMutation that follows the command.
abbrev pub sent_command : Option KubeError → Answer → Effect
sent_command reply (table, (record_, none)) = record {
  table = table;
  sent = true;
  error = reply_error reply;
}
sent_command reply (table, (record_, some e)) = record {
  table = table;
  sent = true;
  error = some (not_completed reply e);
}

abbrev pub fenced_command : Failure → Answer → Effect
fenced_command f (table, (record_, e)) = unsent table (some (fence_rejected f e))

-- From Revalidate on, with the record that BeginMutation gave.
abbrev pub licensed :
    Readings → MutationRequest → List Row → MutationRecord → Option Failure → Effect
licensed rs request table r (some f) = fenced_command f (
    complete_mutation table request r.mutation.generation outcome_failed (codes "LEADERSHIP_FENCE")
      rs.completed_at)
licensed rs request table r none = sent_command rs.reply (
    complete_mutation table request r.mutation.generation (outcome_of rs.reply) (class_of rs.reply)
      rs.completed_at)

-- After the BeginMutation whose errors all end the call.
abbrev pub begun_again : Readings → MutationRequest → Answer → Effect
begun_again rs request (table, (r, none)) = licensed rs request table r rs.revalidated
begun_again rs request (table, (r, some e)) = unsent table (some (store_error e))

abbrev pub observed_effect : Readings → MutationRequest → Authority → Bool → Answer → Effect
observed_effect rs request a present (table, (r, some e)) = unsent table (some (store_error e))
observed_effect rs request a true (table, (r, none)) = unsent table none
observed_effect rs request a false (table, (r, none)) =
    begun_again rs request
      (begin_mutation rs.again_lease table request a rs.again_attempt rs.again_at rs.again_at)

-- After ErrObservationRequired, given whether the jobs were observed after the command started.
abbrev pub resolved : Readings → MutationRequest → Authority → Bool → List Row → Bool → Effect
resolved rs request a present table false = unsent table (some observation_missing)
resolved rs request a present table true = observed_effect rs request a present (
    observe_mutation rs.observed_lease table request a (observation_of present) rs.observed_at
      rs.observed_at)

-- After the first BeginMutation.
abbrev pub after_begin : Readings → Option ℕ → MutationRequest → Authority → Bool → Answer → Effect
after_begin rs seen request a present (table, (r, some (rejected not_ready))) = unsent table none
after_begin rs seen request a present (table, (r, some (rejected observation_needed))) =
    resolved rs request a present table (is_seen_after seen r.started_at)
after_begin rs seen request a present (table, (r, some e)) = unsent table (some (store_error e))
after_begin rs seen request a present (table, (r, none)) =
    licensed rs request table r rs.revalidated

-- mutateKubernetes, where `seen` is the instant of the last complete observation.
unfoldable pub mutate_kubernetes :
    Readings → Option ℕ → MutationRequest → Authority → Bool → List Row → Effect
mutate_kubernetes rs seen request a present table =
    after_begin rs seen request a present
      (begin_mutation rs.lease table request a rs.attempt rs.started_at rs.started_at)
