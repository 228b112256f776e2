-- ===== src/Persistence/Quotas/Steps/Admit.antt =====
-- admitJobQuotaTx keeps the counters exact.
use kube_queue.Common.{
  ◌≡◌, refl, not, Text, Option, none, some, Result, ok, err, ◌>>=◌, ◌>>◌, Bool-cases, inl, inr,
}
use kube_queue.Quota.Counters.{Usage, CounterError, add, release}
use kube_queue.Quota.Counters.Laws.{◌⊞◌}
use kube_queue.Quota.Rules.{EffectivePolicy}
use kube_queue.Quota.Reservation.{
  ReservationState, intent, reserved, released, unknown_state, Reservation, ReservationRequest,
  ReservationDecision, ReservationError, decide_reservation, mark_reserved,
}
use kube_queue.Persistence.Quotas.{
  Row, Tables, target_of, usage_at, quota_reservation, conflict, validate_effective_policy, lift,
  lift_counters, changed, concurrent_demand,
}
use kube_queue.Persistence.Quotas.Calls.{
  admit_job_quota, admit_from, Decided, admitted, admitted_row,
}
use kube_queue.Persistence.Quotas.Balance.{IsExact}
use kube_queue.Persistence.Quotas.Steps.{
  Kept, added_usage, by_job, checked, decided_usage, found_again, here-UsageInRange,
  parts-UsageInRange, released_usage, running-UsageInRange, swapped-IsExact, tables_decided,
}

-- The row found by its key, and the exact tables it stands in.
module _ (t : Tables) (row : Row)
    (found : quota_reservation row.reservation.idempotency_key t.reservations ≡ some row)
    (v : IsExact t) where
  abbrev here : Usage
  here = usage_at (target_of row.project row.namespace) t

  readmitted_with :
      (base : Usage) (d : ReservationDecision) (r now : Reservation)
      → row.reservation.state ≡ intent
      → here ≡ base ⊞ row.reservation.demand
      → add base (concurrent_demand row.reservation.demand) ≡ ok d.usage
      → r.demand ≡ concurrent_demand row.reservation.demand
      → now ≡ record r { state = reserved }
      → IsExact (
          changed t
            (target_of row.project row.namespace)
            d.usage
            row.reservation.idempotency_key
            (record row.reservation {
              demand = now.demand;
              state = now.state;
              policy = now.policy;
            }))
  readmitted_with base d r now s h sum held e =
      let (base_in, demand_in) =
        parts-UsageInRange here base row.reservation.demand h (here-UsageInRange t row found v) in
      let (added, range) =
        added_usage base (concurrent_demand row.reservation.demand) d.usage base_in
          (running-UsageInRange row.reservation.demand demand_in) sum in
      swapped-IsExact t row found v base d.usage
        (record row.reservation { demand = now.demand; state = now.state; policy = now.policy })
        refl (rw s h) (rw (e, held) added) range

  readmitted_row :
      (base : Usage) (d : ReservationDecision) (r : Reservation)
      → row.reservation.state ≡ intent
      → here ≡ base ⊞ row.reservation.demand
      → add base (concurrent_demand row.reservation.demand) ≡ ok d.usage
      → r.state ≡ intent
      → r.demand ≡ concurrent_demand row.reservation.demand
      → Kept tables_decided
          (admitted_row (target_of row.project row.namespace) row.reservation t d (some r))
  unfolding mark_reserved
  readmitted_row base d r s h sum i held =
      rw i (readmitted_with base d r (record r { state = reserved }) s h sum held refl)

  abbrev request_again : ReservationRequest
  request_again = record {
    idempotency_key = row.reservation.idempotency_key;
    job_id = row.reservation.job_id;
    demand = concurrent_demand row.reservation.demand;
  }

  readmitted_decision :
      (policy : EffectivePolicy) (base : Usage) (d : ReservationDecision) (o : Option Reservation)
      → row.reservation.state ≡ intent
      → here ≡ base ⊞ row.reservation.demand
      → decide_reservation policy base request_again none ≡ ok d
      → d.reservation ≡ o
      → Kept tables_decided
          (admitted_row (target_of row.project row.namespace) row.reservation t d o)
  readmitted_decision policy base d none s h k o = v
  readmitted_decision policy base d (some r) s h k o =
      let (sum, i, _, held) = decided_usage policy base request_again d r k o in
      readmitted_row base d r s h sum i held

  readmitted :
      (policy : EffectivePolicy) (base : Usage) (r : Result ReservationError ReservationDecision)
      → row.reservation.state ≡ intent
      → here ≡ base ⊞ row.reservation.demand
      → decide_reservation policy base request_again none ≡ r
      → Kept tables_decided
          (admitted (target_of row.project row.namespace) row.reservation t (lift r))
  readmitted policy base (err e) s h k = tt
  readmitted policy base (ok d) s h k = elim (Bool-cases (not d.accepted)) [
    | inl e ↦ rw e v
    | inr e ↦ rw e (readmitted_decision policy base d d.reservation s h k refl)
  ]

  readmit-Kept :
      (policy : EffectivePolicy) (r : Result CounterError Usage)
      → row.reservation.state ≡ intent
      → release here row.reservation.demand ≡ r
      → Kept tables_decided (do
        base ← lift_counters r
        admitted
            (target_of row.project row.namespace)
            row.reservation
            t
            (lift (decide_reservation policy base request_again none)))
  readmit-Kept policy (err e) s k = tt
  readmit-Kept policy (ok base) s k =
      readmitted policy base (decide_reservation policy base request_again none) s
        (released_usage here row.reservation.demand base k) refl

  pub admit_from-Kept :
      (s : ReservationState) (policy : EffectivePolicy)
      → row.reservation.state ≡ s
      → Kept tables_decided
          (admit_from s (target_of row.project row.namespace) row.reservation policy t)
  admit_from-Kept intent policy e = readmit-Kept policy (release here row.reservation.demand) e refl
  admit_from-Kept reserved policy e = v
  admit_from-Kept released policy e = tt
  admit_from-Kept (unknown_state _) policy e = tt

abbrev pub admit_as : EffectivePolicy → Tables → Row → Row → Decided
admit_as policy t found row =
    admit_from row.reservation.state (target_of found.project found.namespace) row.reservation
      policy t

abbrev pub admit_found : EffectivePolicy → Tables → Row → Decided
admit_found policy t found =
    elim (quota_reservation found.reservation.idempotency_key t.reservations) [
      | none ↦ err conflict
      | some row ↦ admit_as policy t found row
    ]

abbrev pub admit_checked : EffectivePolicy → Tables → Row → Decided
admit_checked policy t found =
    validate_effective_policy policy (target_of found.project found.namespace)
    >> admit_found policy t found

pub admit_job_quota-Kept :
    (job : Text) (policy : EffectivePolicy) (t : Tables)
    → IsExact t
    → Kept tables_decided (admit_job_quota job policy t)
unfolding admit_job_quota
admit_job_quota-Kept job policy t v =
    by_job (Kept tables_decided) job t _ _ tt
      (λ row found.
        checked (Kept tables_decided) (λ e. tt)
          (validate_effective_policy policy (target_of row.project row.namespace))
          (admit_found policy t row)
          λ _.
            found_again (Kept tables_decided) t row (err conflict) (admit_as policy t row) found
              (admit_from-Kept t row found v row.reservation.state policy refl))
      v
