-- ===== src/Persistence/Quotas/Steps/Requeue.antt =====
-- requeueJobQuotaTx keeps the counters exact.
use kube_queue.Common.{◌≡◌, refl, Text, some, Result, ok, err, ◌>>=◌}
use kube_queue.Quota.Counters.{Usage, CounterError, add, release}
use kube_queue.Quota.Counters.Laws.{◌⊞◌}
use kube_queue.Quota.Reservation.{ReservationState, intent, reserved, released, unknown_state}
use kube_queue.Persistence.Quotas.{
  Row, Tables, target_of, usage_at, quota_reservation, lift_counters, changed, queued_demand,
}
use kube_queue.Persistence.Quotas.Calls.{requeue_job_quota, requeue_from}
use kube_queue.Persistence.Quotas.Balance.{IsExact}
use kube_queue.Persistence.Quotas.Steps.{
  Kept, added_usage, by_job, found_again, here-UsageInRange, parts-UsageInRange, released_usage,
  swapped-IsExact, waiting-UsageInRange,
}

-- The row found by its key, and the exact tables it stands in.
module _ (t : Tables) (row : Row)
    (found : quota_reservation row.reservation.idempotency_key t.reservations ≡ some row)
    (v : IsExact t) where
  abbrev here : Usage
  here = usage_at (target_of row.project row.namespace) t

  requeued :
      (base : Usage) (r : Result CounterError Usage)
      → row.reservation.state ≡ reserved
      → here ≡ base ⊞ row.reservation.demand
      → add base (queued_demand row.reservation.demand) ≡ r
      → Kept
          (λ after. after)
          (do
            next ← lift_counters r
            ok (
                changed t
                  (target_of row.project row.namespace)
                  next
                  row.reservation.idempotency_key
                  (record row.reservation {
                    demand = queued_demand row.reservation.demand;
                    state = intent;
                  })))
  requeued base (err e) s h k = tt
  requeued base (ok next) s h k =
      let (base_in, demand_in) =
        parts-UsageInRange here base row.reservation.demand h (here-UsageInRange t row found v) in
      let (sum, range) =
        added_usage base (queued_demand row.reservation.demand) next base_in
          (waiting-UsageInRange row.reservation.demand demand_in) k in
      swapped-IsExact t row found v base next
        (record row.reservation { demand = queued_demand row.reservation.demand; state = intent })
        refl (rw s h) sum range

  requeue_reserved :
      (r : Result CounterError Usage)
      → row.reservation.state ≡ reserved
      → release here row.reservation.demand ≡ r
      → Kept
          (λ after. after)
          (do
            base ← lift_counters r
            next ← lift_counters (add base (queued_demand row.reservation.demand))
            ok (
                changed t
                  (target_of row.project row.namespace)
                  next
                  row.reservation.idempotency_key
                  (record row.reservation {
                    demand = queued_demand row.reservation.demand;
                    state = intent;
                  })))
  requeue_reserved (err e) s k = tt
  requeue_reserved (ok base) s k =
      requeued base (add base (queued_demand row.reservation.demand)) s
        (released_usage here row.reservation.demand base k) refl

  pub requeue_from-Kept :
      (s : ReservationState)
      → row.reservation.state ≡ s
      → Kept
          (λ after. after)
          (requeue_from s (target_of row.project row.namespace) row.reservation t)
  requeue_from-Kept intent e = v
  requeue_from-Kept reserved e = requeue_reserved (release here row.reservation.demand) e refl
  requeue_from-Kept released e = tt
  requeue_from-Kept (unknown_state _) e = tt

pub requeue_job_quota-Kept :
    (job : Text) (t : Tables) → IsExact t → Kept (λ after. after) (requeue_job_quota job t)
unfolding requeue_job_quota
requeue_job_quota-Kept job t v =
    by_job (Kept (λ after. after)) job t _ _ v
      (λ row found.
        found_again (Kept (λ after. after)) t row _ _ found
          (requeue_from-Kept t row found v row.reservation.state refl))
      v
