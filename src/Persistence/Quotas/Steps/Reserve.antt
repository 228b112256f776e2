-- ===== src/Persistence/Quotas/Steps/Reserve.antt =====
-- ReserveQuota keeps the counters exact.
use kube_queue.Common.{
  ◌≡◌, refl, sym, subst, true, not, ◌||◌, Text, Option, none, some, Option-cases, Result, ok, err,
  arith, Bool-cases, inl, inr, is_none,
}
use kube_queue.Quota.Counters.{Usage}
use kube_queue.Quota.Counters.Laws.{UsageInRange}
use kube_queue.Quota.Rules.{Scope, EffectivePolicy}
use kube_queue.Quota.Reservation.{
  Reservation, ReservationRequest, ReservationDecision, ReservationError, decide_reservation,
}
use kube_queue.Persistence.Quotas.{
  Tables, target_of, usage_at, quota_reservation, validate_usage, validate_quota_target, is_target,
  lift, reservation_by_job,
}
use kube_queue.Persistence.Quotas.Calls.{
  reserve_quota, recorded, reservation_of, insert_reservation,
}
use kube_queue.Persistence.Quotas.Balance.{IsExact}
use kube_queue.Persistence.Quotas.Exact.{inserted-IsExact}
use kube_queue.Persistence.Quotas.Steps.{
  Kept, added_usage, checked, decided_usage, tables_decided, usage_at-UsageInRange,
}

pub is_target_of :
    (target : Scope)
    → is_target target.kind ≡ true
    → target ≡ target_of target.project target.namespace
is_target_of target e = ground arith

pub validated_target :
    (installation_id : Text) (target : Scope)
    → validate_quota_target installation_id target ≡ ok tt
    → is_target target.kind ≡ true
validated_target installation_id target e = ground arith

pub fits-UsageInRange : (u : Usage) → validate_usage u ≡ ok tt → UsageInRange u
fits-UsageInRange u e = ground arith

pub not_recorded :
    (policy : EffectivePolicy) (usage : Usage) (request : ReservationRequest) (old : Reservation)
    (d : ReservationDecision)
    → decide_reservation policy usage request (some old) ≡ ok d
    → (not d.accepted || d.replay) ≡ true
unfolding decide_reservation
not_recorded policy usage request old d e = ground arith

module _ (project namespace : Text) (policy : EffectivePolicy) (request : ReservationRequest)
    (t : Tables) (v : IsExact t) where
  abbrev target : Scope
  target = target_of project namespace

  inserted :
      (d : ReservationDecision) (o : Option Reservation)
      → quota_reservation request.idempotency_key t.reservations ≡ none
      → UsageInRange request.demand
      → decide_reservation policy (usage_at target t) request none ≡ ok d
      → d.reservation ≡ o
      → Kept tables_decided (insert_reservation target t d o)
  inserted d none fresh fits e f = v
  inserted d (some r) fresh fits e f =
      elim (Bool-cases (not (is_none (reservation_by_job r.job_id t.reservations)))) [
        | inl g ↦ rw g tt
        | inr g ↦
            let (sum, i, named, held) = decided_usage policy (usage_at target t) request d r e f in
            let (added, range) =
              added_usage (usage_at target t) request.demand d.usage
                (usage_at-UsageInRange target t v) fits sum in
            rw g (
              inserted-IsExact t project namespace d.usage r (rw named fresh) (rw (i, held) added)
                range v)
      ]

  recorded_new :
      (r : Result ReservationError ReservationDecision)
      → quota_reservation request.idempotency_key t.reservations ≡ none
      → UsageInRange request.demand
      → decide_reservation policy (usage_at target t) request none ≡ r
      → Kept tables_decided (recorded target t (lift r))
  recorded_new (err e) fresh fits k = tt
  recorded_new (ok d) fresh fits k = elim (Bool-cases (not d.accepted || d.replay)) [
    | inl e ↦ rw e v
    | inr e ↦ rw e (inserted d d.reservation fresh fits k refl)
  ]

  recorded_old :
      (old : Reservation) (r : Result ReservationError ReservationDecision)
      → decide_reservation policy (usage_at target t) request (some old) ≡ r
      → Kept tables_decided (recorded target t (lift r))
  recorded_old old (err e) k = tt
  recorded_old old (ok d) k = rw (not_recorded policy (usage_at target t) request old d k) v

  recorded-Kept :
      UsageInRange request.demand
      → Kept tables_decided (
          recorded target t (
            lift (
              decide_reservation policy
                (usage_at target t)
                request
                (reservation_of (quota_reservation request.idempotency_key t.reservations)))))
  recorded-Kept fits =
      elim (Option-cases (quota_reservation request.idempotency_key t.reservations)) [
        | inl e ↦
            rw e (
              recorded_new (decide_reservation policy (usage_at target t) request none) e fits refl)
        | inr (row, e) ↦ rw e (
            recorded_old row.reservation
              (decide_reservation policy (usage_at target t) request (some row.reservation)) refl)
      ]

pub reserve_quota-Kept :
    (installation_id : Text) (target : Scope) (policy : EffectivePolicy)
    (request : ReservationRequest) (t : Tables)
    → IsExact t
    → Kept tables_decided (reserve_quota installation_id target policy request t)
unfolding reserve_quota
reserve_quota-Kept installation_id target policy request t v =
    checked (Kept tables_decided) (λ e. tt) _ _
      λ named.
        checked (Kept tables_decided) (λ e. tt) _ _
          λ _.
            checked (Kept tables_decided) (λ e. tt) _ _
              λ fits.
                let same = is_target_of target (validated_target installation_id target named) in
                subst
                  (λ at. Kept tables_decided (
                    recorded at t (
                      lift (
                        decide_reservation policy (usage_at at t) request (
                          reservation_of
                            (quota_reservation request.idempotency_key t.reservations))))))
                  (sym same)
                  (recorded-Kept target.project target.namespace policy request t v
                    (fits-UsageInRange request.demand fits))
