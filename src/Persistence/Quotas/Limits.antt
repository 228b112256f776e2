-- ===== src/Persistence/Quotas/Limits.antt =====
-- What is reserved or admitted in the quota tables is within the limits of the policy.
use kube_queue.Common.{
  ◌≡◌, refl, sym, subst, ◌∙◌, true, false, not, ◌||◌, Text, get_last?, ◌∷◌, Option, none, some,
  Option-cases, Result, ok, err, arith, Bool-cases, inl, inr, is_none,
}
use kube_queue.Quota.Counters.{Usage}
use kube_queue.Quota.Counters.Laws.{◌⊞◌, UsageInRange}
use kube_queue.Quota.Rules.{Scope, QuotaLimits, EffectivePolicy}
use kube_queue.Quota.Reservation.{
  Reservation, ReservationRequest, ReservationDecision, ReservationError, decide_reservation,
}
use kube_queue.Quota.Reservation.Limits.{Within, first_rejection_iff}
use kube_queue.Persistence.Quotas.{
  Tables, target_of, usage_at, quota_reservation, lift, reservation_by_job, update_quota_usage,
}
use kube_queue.Persistence.Quotas.Calls.{
  Decided, reserve_quota, recorded, reservation_of, insert_reservation,
}
use kube_queue.Persistence.Quotas.Balance.{IsExact, usage_at-update}
use kube_queue.Persistence.Quotas.Steps.{added_usage, decided_usage, usage_at-UsageInRange, checked}
use kube_queue.Persistence.Quotas.Steps.Reserve.{
  is_target_of, validated_target, fits-UsageInRange, not_recorded,
}

-- Where a demand is newly accepted, the usage at the target is within the limits.
abbrev pub Limited : Scope → QuotaLimits → Decided → Type 0
Limited target limits (err e) = Unit {0}
Limited target limits (ok (d, after)) =
    d.accepted ≡ true → d.replay ≡ false → Within limits (usage_at target after)

pub decided-Within :
    (policy : EffectivePolicy) (u : Usage) (request : ReservationRequest) (d : ReservationDecision)
    (r : Reservation)
    → decide_reservation policy u request none ≡ ok d
    → d.reservation ≡ some r
    → Within policy.rules.quotas (u ⊞ request.demand)
unfolding decide_reservation
decided-Within policy u request d r e f = elim (Option-cases (get_last? policy.applied)) [
  | inl g ↦ ground (arith, g)
  | inr (ref, g) ↦ (first_rejection_iff ref policy u request.demand).0 (ground (arith, g))
]

pub no_reservation :
    (policy : EffectivePolicy) (u : Usage) (request : ReservationRequest) (d : ReservationDecision)
    → decide_reservation policy u request none ≡ ok d
    → d.reservation ≡ none
    → d.accepted ≡ false
unfolding decide_reservation
no_reservation policy u request d e f = ground arith

pub fitted :
    (limits : QuotaLimits) (target : Scope) (after : Tables) (u next demand : Usage)
    → usage_at target after ≡ next
    → next ≡ u ⊞ demand
    → Within limits (u ⊞ demand)
    → Within limits (usage_at target after)
fitted limits target after u next demand e f w = subst (Within limits) (sym (e ∙ f)) w

module _ (project namespace : Text) (policy : EffectivePolicy) (t : Tables) (v : IsExact t) where
  abbrev target : Scope
  target = target_of project namespace

  inserted-Limited :
      (request : ReservationRequest) (d : ReservationDecision) (o : Option Reservation)
      → UsageInRange request.demand
      → decide_reservation policy (usage_at target t) request none ≡ ok d
      → d.reservation ≡ o
      → Limited target policy.rules.quotas (insert_reservation target t d o)
  inserted-Limited request d none fits e f =
      λ accepted replay. cc (accepted, no_reservation policy (usage_at target t) request d e f)
  inserted-Limited request d (some r) fits e f =
      elim (Bool-cases (not (is_none (reservation_by_job r.job_id t.reservations)))) [
        | inl g ↦ rw g tt
        | inr g ↦
            let (sum, _, _, _) = decided_usage policy (usage_at target t) request d r e f in
            let (added, _) =
              added_usage (usage_at target t) request.demand d.usage
                (usage_at-UsageInRange target t v) fits sum in
            let kept =
              record { reservation = r; project = project; namespace = namespace }
              ∷ t.reservations in
            let after : Tables = record {
              usage = update_quota_usage target d.usage t.usage;
              reservations = kept;
            } in
            rw g λ accepted replay.
              fitted policy.rules.quotas target after (usage_at target t) d.usage request.demand
                (usage_at-update project namespace d.usage t.usage kept) added
                (decided-Within policy (usage_at target t) request d r e f)
      ]

  recorded-Limited :
      (request : ReservationRequest) (r : Result ReservationError ReservationDecision)
      → UsageInRange request.demand
      → decide_reservation policy (usage_at target t) request none ≡ r
      → Limited target policy.rules.quotas (recorded target t (lift r))
  recorded-Limited request (err e) fits k = tt
  recorded-Limited request (ok d) fits k = elim (Bool-cases (not d.accepted || d.replay)) [
    | inl e ↦ rw e λ accepted replay. ground (arith, e, accepted, replay)
    | inr e ↦ rw e (inserted-Limited request d d.reservation fits k refl)
  ]

  replayed-Limited :
      (request : ReservationRequest) (old : Reservation)
      (r : Result ReservationError ReservationDecision)
      → decide_reservation policy (usage_at target t) request (some old) ≡ r
      → Limited target policy.rules.quotas (recorded target t (lift r))
  replayed-Limited request old (err e) k = tt
  replayed-Limited request old (ok d) k =
      let same = not_recorded policy (usage_at target t) request old d k in
      rw same λ accepted replay. ground (arith, same, accepted, replay)

  reserved-Limited :
      (request : ReservationRequest)
      → UsageInRange request.demand
      → Limited target policy.rules.quotas (
          recorded target t (
            lift (
              decide_reservation policy
                (usage_at target t)
                request
                (reservation_of (quota_reservation request.idempotency_key t.reservations)))))
  reserved-Limited request fits =
      elim (Option-cases (quota_reservation request.idempotency_key t.reservations)) [
        | inl e ↦ rw e (
            recorded-Limited request (decide_reservation policy (usage_at target t) request none)
              fits refl)
        | inr (row, e) ↦ rw e (
            replayed-Limited request row.reservation
              (decide_reservation policy (usage_at target t) request (some row.reservation)) refl)
      ]

reserve_quota-Limited :
    (installation_id : Text) (target : Scope) (policy : EffectivePolicy)
    (request : ReservationRequest) (t : Tables)
    → IsExact t
    → Limited target policy.rules.quotas (reserve_quota installation_id target policy request t)
unfolding reserve_quota
reserve_quota-Limited installation_id target policy request t v =
    let limited = Limited target policy.rules.quotas in
    checked limited (λ e. tt) _ _
      λ named.
        checked limited (λ e. tt) _ _
          λ _.
            checked limited (λ e. tt) _ _
              λ fits.
                subst
                  (λ at. Limited at policy.rules.quotas (
                    recorded at t (
                      lift (
                        decide_reservation policy (usage_at at t) request (
                          reservation_of
                            (quota_reservation request.idempotency_key t.reservations))))))
                  (sym (is_target_of target (validated_target installation_id target named)))
                  (reserved-Limited target.project target.namespace policy t v request
                    (fits-UsageInRange request.demand fits))

-- A new reservation that is accepted, in exact tables, leaves every counter above its target within
-- the nine limits of the policy.
pub reserve_quota-Within :
    (installation_id : Text) (target : Scope) (policy : EffectivePolicy)
    (request : ReservationRequest) (t after : Tables) (d : ReservationDecision)
    → IsExact t
    → reserve_quota installation_id target policy request t ≡ ok (d, after)
    → d.accepted ≡ true
    → d.replay ≡ false
    → Within policy.rules.quotas (usage_at target after)
reserve_quota-Within installation_id target policy request t after d v e =
    subst (Limited target policy.rules.quotas) e
      (reserve_quota-Limited installation_id target policy request t v)
