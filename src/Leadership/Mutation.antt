-- ===== src/Leadership/Mutation.antt =====
-- internal/leadership/mutation.go: the coordination state around one Kubernetes command. A method
-- returns the mutation and the error, as the source does: on an error the mutation is the receiver.
pub mod Retry
use kube_queue.Common.{
  ℕ, ◌+◌, ◌≤◌, Bool, true, false, not, ◌||◌, ◌≡◌, ◌≢◌, refl, ltb, ◌==◌, if◌then◌else◌, Option, none,
  some, List, [], ◌∷◌, arith, ◌⊎◌, inl, inr,
}
use kube_queue.Leadership.Lease.{Authority, is_malformed}

-- `zero` is the zero value of MutationState, `unknown` any number that names no state.
pub data MutationState : Type 0 where
  zero_state ready in_flight observation_required succeeded unknown_state : MutationState

pub data MutationOutcome : Type 0 where
  outcome_succeeded outcome_failed outcome_uncertain unknown_outcome : MutationOutcome

pub data MutationObservation : Type 0 where
  effect_present effect_absent unknown_observation : MutationObservation

pub data MutationError : Type 0 where
  invalid_authority stale_generation not_ready observation_needed : MutationError
  invalid_outcome invalid_observation : MutationError

pub record Mutation : Type 0 where
  pub state : MutationState
  pub generation : ℕ

abbrev started : Mutation → Authority → Mutation × Option MutationError
started m a =
    if ltb a.generation m.generation
    then (m, some stale_generation)
    else (record { state = in_flight; generation = a.generation }, none)

-- the switch of Begin
abbrev begin_at : MutationState → Mutation → Authority → Mutation × Option MutationError
begin_at zero_state m a = started m a
begin_at ready m a = started m a
begin_at observation_required m a = (m, some observation_needed)
begin_at in_flight m a = (m, some not_ready)
begin_at succeeded m a = (m, some not_ready)
begin_at unknown_state m a = (m, some not_ready)

-- Mutation.Begin
unfoldable pub begin : Mutation → Authority → Mutation × Option MutationError
begin m a = if is_malformed a then (m, some invalid_authority) else begin_at m.state m a

abbrev is_in_flight : MutationState → Bool
is_in_flight in_flight = true
is_in_flight _ = false

abbrev is_observation_required : MutationState → Bool
is_observation_required observation_required = true
is_observation_required _ = false

-- Mutation.Complete
unfoldable pub complete : Mutation → ℕ → MutationOutcome → Mutation × Option MutationError
complete m generation outcome =
    if not (generation == m.generation)
    then (m, some stale_generation)
    else if not (is_in_flight m.state)
    then (m, some not_ready)
    else elim outcome [
      | outcome_succeeded ↦ (record { state = succeeded; generation = generation }, none)
      | outcome_failed ↦ (record { state = ready; generation = generation }, none)
      | outcome_uncertain ↦ (record { state = observation_required; generation = generation }, none)
      | unknown_outcome ↦ (m, some invalid_outcome)
    ]

-- Mutation.Observe
unfoldable pub observe :
    Mutation → Authority → MutationObservation → Mutation × Option MutationError
observe m a observation =
    if is_malformed a
    then (m, some invalid_authority)
    else if ltb a.generation m.generation
    then (m, some stale_generation)
    else if not (is_observation_required m.state)
    then (m, some observation_needed)
    else elim observation [
      | effect_present ↦ (record { state = succeeded; generation = a.generation }, none)
      | effect_absent ↦ (record { state = ready; generation = a.generation }, none)
      | unknown_observation ↦ (m, some invalid_observation)
    ]

-- A call on a mutation.
pub data Call : Type 0 where
  begins : Authority → Call
  completes : ℕ → MutationOutcome → Call
  observes : Authority → MutationObservation → Call

unfoldable pub step : Mutation → Call → Mutation × Option MutationError
unfolding begin complete observe
step m (begins a) = begin m a
step m (completes g o) = complete m g o
step m (observes a o) = observe m a o

unfoldable pub run : Mutation → List Call → Mutation
run m [] = m
run m (c ∷ cs) = run (step m c).0 cs
