-- ===== src/Quota/Ledger.antt =====
-- The quota book of a caller that follows the contract stated at DecideReservation: one policy, a
-- usage, and the reservations made so far, found by idempotency key. Each call persists the usage and
-- the reservation that it is given together, and persists nothing on an error.
pub mod Balance
pub mod History
use kube_queue.Common.{
  ℕ, Bool, true, false, if◌then◌else◌, Text, text_eq, Option, none, some, Result, ok, err, List, [],
  ◌∷◌,
}
use kube_queue.Quota.Counters.{Usage}
use kube_queue.Quota.Counters.Laws.{◌⊞◌, no_usage}
use kube_queue.Quota.Rules.{EffectivePolicy}
use kube_queue.Quota.Reservation.{
  ReservationState, intent, reserved, released, unknown_state, ReleaseCause, Reservation,
  ReservationRequest, ReservationDecision, ReservationError, decide_reservation, mark_reserved,
  release_reservation,
}

pub record Ledger : Type 0 where
  pub usage : Usage
  pub reservations : List Reservation

abbrev pub empty_ledger : Ledger
empty_ledger = record { usage = no_usage; reservations = [] }

unfoldable pub find_reservation : Text → List Reservation → Option Reservation
find_reservation key [] = none
find_reservation key (r ∷ rs) =
    if text_eq r.idempotency_key key then some r else find_reservation key rs

unfoldable pub replace : Text → Reservation → List Reservation → List Reservation
replace key new [] = []
replace key new (r ∷ rs) =
    if text_eq r.idempotency_key key then new ∷ rs else r ∷ replace key new rs

pub data Call : Type 0 where
  reserves : ReservationRequest → Call
  confirms : Text → Call
  frees : Text → ReleaseCause → Call

-- A new intent is recorded with its usage; a replay and a refusal change nothing.
abbrev pub decided : Ledger → Result ReservationError ReservationDecision → Ledger
decided l (err e) = l
decided l (ok d) = elim d.reservation [
  | none ↦ l
  | some r ↦ if d.replay then l else record { usage = d.usage; reservations = r ∷ l.reservations }
]

abbrev pub confirmed : Ledger → Text → Result ReservationError Reservation → Ledger
confirmed l key (err e) = l
confirmed l key (ok r) = record l { reservations = replace key r l.reservations }

abbrev pub freed : Ledger → Text → Result ReservationError (Reservation × Usage) → Ledger
freed l key (err e) = l
freed l key (ok (r, usage)) = record { usage = usage; reservations = replace key r l.reservations }

abbrev pub confirm_found : Ledger → Text → Option Reservation → Ledger
confirm_found l key none = l
confirm_found l key (some r) = confirmed l key (mark_reserved r)

abbrev pub free_found : Ledger → Text → ReleaseCause → Option Reservation → Ledger
free_found l key cause none = l
free_found l key cause (some r) = freed l key (release_reservation r l.usage cause)

unfoldable pub step : EffectivePolicy → Ledger → Call → Ledger
step policy l (reserves request) = decided l (
    decide_reservation policy l.usage request
      (find_reservation request.idempotency_key l.reservations))
step policy l (confirms key) = confirm_found l key (find_reservation key l.reservations)
step policy l (frees key cause) = free_found l key cause (find_reservation key l.reservations)

unfoldable pub run : EffectivePolicy → Ledger → List Call → Ledger
run policy l [] = l
run policy l (c ∷ cs) = run policy (step policy l c) cs

-- What a reservation holds.
abbrev pub held_in : ReservationState → Usage → Usage
held_in intent demand = demand
held_in reserved demand = demand
held_in released demand = no_usage
held_in (unknown_state _) demand = no_usage

abbrev pub held : Reservation → Usage
held r = held_in r.state r.demand

unfoldable pub total : List Reservation → Usage
total [] = no_usage
total (r ∷ rs) = held r ⊞ total rs

abbrev pub KnownState : ReservationState → Type 0
KnownState (unknown_state _) = ⊥
KnownState _ = Unit {0}

abbrev pub IsKnown : Reservation → Type 0
IsKnown r = KnownState r.state
