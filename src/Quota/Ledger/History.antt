-- ===== src/Quota/Ledger/History.antt =====
-- The quota book over every history of calls.
use kube_queue.Common.{
  ◌≡◌, ◌⊎◌, inl, inr, refl, sym, ap, subst, ◌∙◌, Bool-cases, true, Option, none, some, Result, ok,
  err, ok-injective, List, [], ◌∷◌, All, arith, get_last?,
}
use kube_queue.Quota.Counters.{Usage}
use kube_queue.Quota.Counters.Laws.{◌⊞◌, UsageInRange}
use kube_queue.Quota.Rules.{EffectivePolicy, PolicyRef}
use kube_queue.Quota.Reservation.{
  new_intent, Reservation, ReservationRequest, ReservationDecision, ReservationError,
  decide_reservation,
}
use kube_queue.Quota.Reservation.Limits.{Within, LimitsInRange, Within-UsageInRange}
use kube_queue.Quota.Reservation.Decision.{IsComplete, decide_new}
use kube_queue.Quota.Ledger.{
  Ledger, empty_ledger, Call, reserves, confirms, frees, step, run, held, total, IsKnown, decided,
}
use kube_queue.Quota.Ledger.Balance.{
  IsBalanced, IsCause, free_found-IsBalanced, confirm_found-IsBalanced, ⊞_comm,
}

-- What a decision with its usage and its reservation may do to a book that balances.
abbrev Sound : EffectivePolicy → Usage → Result ReservationError ReservationDecision → Type 0
Sound policy usage (err e) = Unit
Sound policy usage (ok d) =
    ((d.replay ≡ true) ⊎ (d.reservation ≡ none))
    ⊎ ((r : Reservation) × (d.reservation ≡ some r)
        × (d.usage ≡ held r ⊞ usage)
        × IsKnown r
        × Within policy.rules.quotas d.usage)

decided-IsBalanced :
    (policy : EffectivePolicy) (l : Ledger) (a : Result ReservationError ReservationDecision)
    → Sound policy l.usage a
    → IsBalanced policy l
    → IsBalanced policy (decided l a)
unfolding total
decided-IsBalanced policy l (err e) h v = v
decided-IsBalanced policy l (ok d) (inl h) v = ground arith
decided-IsBalanced policy l (ok d) (inr (r, e, u, k, w)) v = elim (Bool-cases d.replay) [
  | inl again ↦ rw (e, again) v
  | inr new ↦
      rw (e, new)
        (record {
          balanced = u ∙ ap (λ (x : Usage). held r ⊞ x) v.balanced;
          known = (k, v.known);
          within = w;
        })
]

completed_request :
    (policy : EffectivePolicy) (usage : Usage) (request : ReservationRequest)
    (d : ReservationDecision)
    → decide_reservation policy usage request none ≡ ok d
    → IsComplete request × ((ref : PolicyRef) × (get_last? policy.applied ≡ some ref))
unfolding decide_reservation
completed_request policy usage request d e = ground arith

old-Sound :
    (policy : EffectivePolicy) (usage : Usage) (request : ReservationRequest) (old : Reservation)
    → Sound policy usage (decide_reservation policy usage request (some old))
unfolding decide_reservation
old-Sound policy usage request old = ground arith

new-Sound :
    (policy : EffectivePolicy) (usage : Usage) (request : ReservationRequest)
    (a : Result ReservationError ReservationDecision)
    → decide_reservation policy usage request none ≡ a
    → LimitsInRange policy.rules.quotas
    → UsageInRange usage
    → UsageInRange request.demand
    → Sound policy usage a
new-Sound policy usage request (err e) h l u v = tt
new-Sound policy usage request (ok d) h l u v =
    let (complete, (ref, applied)) = completed_request policy usage request d h in
    let (d', h', new) = decide_new policy ref applied usage request complete u v l in
    subst (λ x. Sound policy usage (ok x)) (ok-injective (sym h' ∙ h))
      (elim new [
        | inl (accepted, replay, within, sum, intent) ↦
            inr (new_intent ref request, intent, sum ∙ ⊞_comm usage request.demand, tt, within)
        | inr (refused, beyond, same, none_made, why) ↦ inl (inr none_made)
      ])

decide-Sound :
    (policy : EffectivePolicy) (usage : Usage) (request : ReservationRequest)
    (o : Option Reservation)
    → LimitsInRange policy.rules.quotas
    → UsageInRange usage
    → UsageInRange request.demand
    → Sound policy usage (decide_reservation policy usage request o)
decide-Sound policy usage request none l u v = new-Sound policy usage request _ refl l u v
decide-Sound policy usage request (some old) l u v = old-Sound policy usage request old

-- The demands are uint64, and a release names one of the three causes.
abbrev pub IsCall : Call → Type 0
IsCall (reserves request) = UsageInRange request.demand
IsCall (confirms key) = Unit {0}
IsCall (frees key cause) = IsCause cause

step-IsBalanced :
    (policy : EffectivePolicy) (l : Ledger) (c : Call)
    → LimitsInRange policy.rules.quotas
    → IsCall c
    → IsBalanced policy l
    → IsBalanced policy (step policy l c)
unfolding step
step-IsBalanced policy l (reserves request) r c v =
    decided-IsBalanced policy l _
      (decide-Sound policy l.usage request _ r
        (Within-UsageInRange policy.rules.quotas l.usage r v.within) c)
      v
step-IsBalanced policy l (confirms key) r c v = confirm_found-IsBalanced policy l key _ refl v
step-IsBalanced policy l (frees key cause) r c v =
    free_found-IsBalanced policy l key cause _ refl c v

empty-IsBalanced : (policy : EffectivePolicy) → IsBalanced policy empty_ledger
unfolding total
empty-IsBalanced policy = record { balanced = refl; known = tt; within = omega arith }

run_from-IsBalanced :
    (policy : EffectivePolicy) (l : Ledger) (cs : List Call)
    → LimitsInRange policy.rules.quotas
    → All IsCall cs
    → IsBalanced policy l
    → IsBalanced policy (run policy l cs)
unfolding run
run_from-IsBalanced policy l [] r c v = v
run_from-IsBalanced policy l (x ∷ cs) r c v =
    run_from-IsBalanced policy (step policy l x) cs r c.1 (step-IsBalanced policy l x r c.0 v)

-- Over every history of reservations, confirmations and releases on an empty book: the usage is
-- exactly what the unreleased reservations hold, and it is within all nine limits of the policy.
pub run-IsBalanced :
    (policy : EffectivePolicy) (cs : List Call)
    → LimitsInRange policy.rules.quotas
    → All IsCall cs
    → IsBalanced policy (run policy empty_ledger cs)
run-IsBalanced policy cs r c =
    run_from-IsBalanced policy empty_ledger cs r c (empty-IsBalanced policy)
