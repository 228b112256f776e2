-- ===== src/Persistence/Quotas/Steps/Free.antt =====
-- releaseJobQuotaTx and releaseRetainedJobQuotaTx keep the counters exact.
use kube_queue.Common.{
  ◌≡◌, refl, true, false, not, ◌||◌, Text, some, Result, ok, err, ◌>>=◌, arith, Bool-cases, inl,
  inr,
}
use kube_queue.Quota.Counters.{Usage, CounterError, add, release}
use kube_queue.Quota.Counters.Laws.{no_usage}
use kube_queue.Quota.Reservation.{
  ReservationState, intent, reserved, released, unknown_state, ReleaseCause, Reservation,
  ReservationError, release_reservation, usage_eq,
}
use kube_queue.Persistence.Quotas.{
  Row, Tables, target_of, usage_at, quota_reservation, lift, lift_counters, changed,
  retained_demand,
}
use kube_queue.Persistence.Quotas.Calls.{
  release_job_quota, release_retained_job_quota, free_row, free_retained, is_released, kept,
  without_retained,
}
use kube_queue.Persistence.Quotas.Balance.{IsExact}
use kube_queue.Persistence.Quotas.Steps.{
  Kept, added_usage, by_job, found_again, freed_usage, here-UsageInRange, keeps_nothing,
  parts-UsageInRange, released_usage, retained-UsageInRange, swapped-IsExact, tables_freed,
}

-- The row found by its key, and the exact tables it stands in.
module _ (t : Tables) (row : Row)
    (found : quota_reservation row.reservation.idempotency_key t.reservations ≡ some row)
    (v : IsExact t) where
  abbrev here : Usage
  here = usage_at (target_of row.project row.namespace) t

  released_retained :
      (r : Result CounterError Usage)
      → row.reservation.state ≡ released
      → release here (retained_demand row.reservation.demand) ≡ r
      → Kept
          (λ after. after)
          (do
            next ← lift_counters r
            ok (
                changed t
                  (target_of row.project row.namespace)
                  next
                  row.reservation.idempotency_key
                  (record row.reservation { demand = without_retained row.reservation.demand })))
  released_retained (err e) s k = tt
  released_retained (ok next) s k =
      let sum = released_usage here (retained_demand row.reservation.demand) next k in
      let range =
        parts-UsageInRange here next (retained_demand row.reservation.demand) sum
          (here-UsageInRange t row found v) in
      swapped-IsExact t row found v next next
        (record row.reservation { demand = without_retained row.reservation.demand }) refl
        (rw s sum) (rw s (keeps_nothing next row.reservation.demand)) range.0

  released_state : (s : ReservationState) → is_released s ≡ true → s ≡ released
  released_state released e = refl
  released_state intent e = cc
  released_state reserved e = cc
  released_state (unknown_state _) e = cc

  pub free_retained-Kept :
      Kept (λ after. after) (free_retained (target_of row.project row.namespace) row.reservation t)
  free_retained-Kept =
      elim (Bool-cases (
        not (is_released row.reservation.state)
        || usage_eq (retained_demand row.reservation.demand) no_usage)) [
          | inl e ↦ rw e v
          | inr e ↦ rw e (
              released_retained (release here (retained_demand row.reservation.demand))
                (released_state row.reservation.state (ground arith)) refl)
        ]

  freed_with :
      (base : Usage) (cause : ReleaseCause) (after : Reservation) (r : Result CounterError Usage)
      → is_released row.reservation.state ≡ false
      → release_reservation row.reservation here cause ≡ ok (after, base)
      → add base (retained_demand row.reservation.demand) ≡ r
      → Kept tables_freed (do
        next ← lift_counters r
        ok (
          some (after, next),
          changed t
              (target_of row.project row.namespace)
              next
              row.reservation.idempotency_key
              (record row.reservation { state = after.state; release_cause = after.release_cause }),
        ))
  freed_with base cause after (err e) s h k = tt
  freed_with base cause after (ok next) s h k =
      let (sum, held, ended) = freed_usage row.reservation here base cause after s h in
      let (base_in, demand_in) =
        parts-UsageInRange here base row.reservation.demand sum (here-UsageInRange t row found v) in
      let (added, range) =
        added_usage base (retained_demand row.reservation.demand) next base_in
          (retained-UsageInRange row.reservation.demand demand_in) k in
      swapped-IsExact t row found v base next
        (record row.reservation { state = after.state; release_cause = after.release_cause }) refl
        (rw held sum) (rw ended added) range

  free_reserved :
      (cause : ReleaseCause) (r : Result ReservationError (Reservation × Usage))
      → is_released row.reservation.state ≡ false
      → release_reservation row.reservation here cause ≡ r
      → Kept tables_freed (do
        freed ← lift r
        next ← kept true freed.1 row.reservation.demand
        ok (
          some (freed.0, next),
          changed t
              (target_of row.project row.namespace)
              next
              row.reservation.idempotency_key
              (record row.reservation {
                state = freed.0.state;
                release_cause = freed.0.release_cause;
              }),
        ))
  free_reserved cause (err e) s k = tt
  free_reserved cause (ok (after, base)) s k =
      freed_with base cause after (add base (retained_demand row.reservation.demand)) s k refl

  pub free_row-Kept :
      (cause : ReleaseCause)
      → Kept tables_freed
          (free_row true cause (target_of row.project row.namespace) row.reservation t)
  free_row-Kept cause = elim (Bool-cases (is_released row.reservation.state)) [
    | inl e ↦ rw e v
    | inr e ↦ rw e (free_reserved cause (release_reservation row.reservation here cause) e refl)
  ]

pub release_job_quota-Kept :
    (job : Text) (cause : ReleaseCause) (t : Tables)
    → IsExact t
    → Kept tables_freed (release_job_quota true job cause t)
unfolding release_job_quota
release_job_quota-Kept job cause t v =
    by_job (Kept tables_freed) job t _ _ v
      (λ row found.
        found_again (Kept tables_freed) t row _ _ found (free_row-Kept t row found v cause))
      v

pub release_retained_job_quota-Kept :
    (job : Text) (t : Tables) → IsExact t → Kept (λ after. after) (release_retained_job_quota job t)
unfolding release_retained_job_quota
release_retained_job_quota-Kept job t v =
    by_job (Kept (λ after. after)) job t _ _ v
      (λ row found.
        found_again (Kept (λ after. after)) t row _ _ found (free_retained-Kept t row found v))
      v
