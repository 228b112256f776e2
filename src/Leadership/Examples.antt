-- ===== src/Leadership/Examples.antt =====
-- Leases, tokens, managers and mutations at concrete inputs.
use kube_queue.Common.{
  ℕ, ◌≡◌, ◌≢◌, ◌⊎◌, ◌+◌, ◌≤◌, refl, true, false, Text, codes, none, some, ok, List, [], ◌∷◌, arith,
  pos, text_eq, text_ne, ◌↔◌,
}
use kube_queue.Leadership.Lease.{stale_generation, Lease, active, acquire, Authority, authorize}
use kube_queue.Leadership.Lease.Fencing
use kube_queue.Leadership.Lease.Fencing.{Follows, run-Follows, authorize_stale, run_intrusions}
use kube_queue.Leadership.Session.{
  Session, active_status, lost, sync, validate, IsConsistent, sync-IsConsistent, validate_iff,
}
use kube_queue.Leadership.Mutation
use kube_queue.Leadership.Mutation.{
  zero_state, ready, in_flight, observation_required, outcome_succeeded, outcome_failed,
  outcome_uncertain, effect_absent,
}
use kube_queue.Leadership.Mutation.Retry.{sent, licensed, sent-le-licensed, succeeded_final}
use kube_queue.Leadership.Manager.{Manager, new_manager, authority}
use kube_queue.Leadership.Manager.Invariant
use kube_queue.Leadership.Manager.Invariant.{IsSound, Answered, run-IsSound, authority-Answered}

abbrev first_pod : Text
first_pod = codes "pod-a"

abbrev second_pod : Text
second_pod = codes "pod-b"

abbrev held : Lease
held = record { holder = first_pod; generation = 4; expires_at = 100 }

abbrev token : Authority
token = record { holder = first_pod; generation = 4; valid_until = 100 }

abbrev taken : Lease
taken = record { holder = second_pod; generation = 5; expires_at = 160 }

-- The second process is refused at 90, and acquires at 130.
contended : List Fencing.Call
contended =
    Fencing.acquires first_pod 60 (pos 50)
    ∷ Fencing.acquires second_pod 90 (pos 50)
    ∷ Fencing.acquires second_pod 130 (pos 30)
    ∷ []

contended-run : Fencing.run held contended ≡ taken
unfolding contended Fencing.run Fencing.step acquire text_eq
contended-run = refl

authorize_stale_example : authorize token (Fencing.run taken []) 131 ≡ some stale_generation
unfolding Fencing.run acquire text_eq
authorize_stale_example =
    authorize_stale token held taken [] [] second_pod 130 131 (pos 30) (omega arith) refl refl refl
      (text_ne second_pod first_pod refl) refl

run-Follows_example : Follows held (Fencing.run held contended)
run-Follows_example = run-Follows held contended (omega arith)

abbrev session : Session
session = record {
  holder = first_pod;
  generation = 4;
  status = active_status;
  done = 0;
  done_closed = false;
}

abbrev lost_session : Session
lost_session = record session { status = lost; done_closed = true }

sync-IsConsistent_example :
    IsConsistent (sync session taken 131) × (((sync session taken 131).done ≡ 0) ⊎ (false ≡ true))
sync-IsConsistent_example = sync-IsConsistent session taken 131 (ground arith)

validate_iff_example : ((a : Authority) × ((validate session held 50).1 ≡ ok a)) ↔ (
    (active_status ≢ lost) × (◌≡◌ {A = ℕ} 4 4) × (first_pod ≡ first_pod) × (active held 50 ≡ true))
validate_iff_example = validate_iff session held 50

abbrev fresh : Mutation.Mutation
fresh = record { state = zero_state; generation = 0 }

-- A failed attempt, a second one that is uncertain, and a third after the effect was found absent.
attempts : List Mutation.Call
attempts =
    Mutation.begins token
    ∷ Mutation.completes 4 outcome_failed
    ∷ Mutation.begins token
    ∷ Mutation.completes 4 outcome_uncertain
    ∷ Mutation.begins token
    ∷ Mutation.observes token effect_absent
    ∷ Mutation.begins token
    ∷ []

attempts-sent : (sent fresh attempts ≡ 3) × (licensed fresh attempts ≡ 2)
unfolding attempts sent licensed Mutation.step
attempts-sent = (refl, refl)

sent-le-licensed_example : sent fresh attempts ≤ 1 + licensed fresh attempts
sent-le-licensed_example = sent-le-licensed fresh attempts

abbrev uncertain : Mutation.Mutation
uncertain = record { state = observation_required; generation = 4 }

abbrev done_mutation : Mutation.Mutation
done_mutation = record { state = Mutation.succeeded; generation = 4 }

succeeded_final_example :
    (Mutation.run done_mutation attempts ≡ done_mutation) × (sent done_mutation attempts ≡ 0)
succeeded_final_example = succeeded_final done_mutation attempts refl

-- A process that acquires the lease, gets a token, and is paused by a failing store.
campaign : List Invariant.Call
campaign =
    Invariant.tries held none 50
    ∷ Invariant.asks (ok held) 55
    ∷ Invariant.pauses 60
    ∷ Invariant.tries held none 61
    ∷ []

run-IsSound_example : IsSound first_pod (Invariant.run new_manager campaign)
unfolding campaign
run-IsSound_example = run-IsSound first_pod campaign (refl, (tt, (tt, (refl, tt))))

leading : Manager
leading = Invariant.run new_manager campaign

leading-IsSound : IsSound first_pod leading
unfolding leading
leading-IsSound = run-IsSound_example

authority-Answered_example : Answered first_pod held 70 (authority leading (ok held) 70)
authority-Answered_example = authority-Answered first_pod leading held 70 leading-IsSound
