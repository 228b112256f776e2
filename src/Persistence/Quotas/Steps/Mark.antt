-- ===== src/Persistence/Quotas/Steps/Mark.antt =====
-- MarkQuotaReserved keeps the counters exact.
use kube_queue.Common.{◌≡◌, refl, ap, subst, ◌∙◌, Text, some, Result, ok, err, ◌>>=◌}
use kube_queue.Quota.Counters.{Usage}
use kube_queue.Quota.Reservation.{
  ReservationState, intent, reserved, released, unknown_state, Reservation, ReservationError,
  mark_reserved, marked,
}
use kube_queue.Persistence.Quotas.{
  Row, Tables, QuotaError, target_of, usage_at, quota_reservation, lift, update_reservation,
}
use kube_queue.Persistence.Quotas.Calls.{mark_quota_reserved}
use kube_queue.Persistence.Quotas.Balance.{IsExact}
use kube_queue.Persistence.Quotas.Exact.{unmoved-IsExact, quota_reservation_key}
use kube_queue.Persistence.Quotas.Steps.{Kept, by_key, tables_marked}

-- The row found by its key, and the exact tables it stands in.
module _ (t : Tables) (row : Row)
    (found : quota_reservation row.reservation.idempotency_key t.reservations ≡ some row)
    (v : IsExact t) where
  abbrev here : Usage
  here = usage_at (target_of row.project row.namespace) t

  mark_row :
      (s : ReservationState) (r : Result ReservationError Reservation)
      → row.reservation.state ≡ s
      → marked s row.reservation ≡ r
      → Kept tables_marked (do
        now ← lift r
        ok (
          now,
          record t {
            reservations =
                update_reservation row.reservation.idempotency_key
                  (record row.reservation { state = now.state })
                  t.reservations;
          },
        ))
  mark_row s (err e) h k = tt
  mark_row intent (ok now) h k =
      let state : now.state ≡ reserved = cc k in
      unmoved-IsExact t row (record row.reservation { state = now.state }) found refl
        (rw (state, h) refl) v
  mark_row reserved (ok now) h k =
      let state : now.state ≡ reserved = cc (k, h) in
      unmoved-IsExact t row (record row.reservation { state = now.state }) found refl
        (rw (state, h) refl) v
  mark_row released (ok now) h k = cc
  mark_row (unknown_state _) (ok now) h k = cc

  pub marked-Kept : Kept tables_marked (do
    now ← lift (mark_reserved row.reservation)
    ok (
      now,
      record t {
        reservations =
            update_reservation row.reservation.idempotency_key
              (record row.reservation { state = now.state })
              t.reservations;
      },
    ))
  unfolding mark_reserved
  marked-Kept =
      mark_row row.reservation.state (marked row.reservation.state row.reservation) refl refl

abbrev mark_by : Text → Tables → Row → Result QuotaError (Reservation × Tables)
mark_by key t row = do
  now ← lift (mark_reserved row.reservation)
  ok (
    now,
    record t {
      reservations =
          update_reservation key (record row.reservation { state = now.state }) t.reservations;
    },
  )

pub mark_quota_reserved-Kept :
    (key : Text) (t : Tables) → IsExact t → Kept tables_marked (mark_quota_reserved key t)
unfolding mark_quota_reserved
mark_quota_reserved-Kept key t v =
    by_key (Kept tables_marked) key t _ (mark_by key t) tt (λ row found.
      let named = quota_reservation_key key row t.reservations found in
      subst (λ k. Kept tables_marked (mark_by k t row)) named
        (marked-Kept t row (ap (λ k. quota_reservation k t.reservations) named ∙ found) v))
