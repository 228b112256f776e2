-- ===== src/Persistence/Quotas/Admission.antt =====
-- What admitJobQuotaTx admits is within the limits of the policy.
use kube_queue.Common.{
  ◌≡◌, refl, sym, subst, ◌∙◌, true, false, not, Text, List, Option, none, some, Result, ok, err,
  ◌>>=◌, arith, Bool-cases, inl, inr,
}
use kube_queue.Quota.Counters.{Usage, CounterError, release}
use kube_queue.Quota.Counters.Laws.{UsageInRange}
use kube_queue.Quota.Rules.{Scope, EffectivePolicy}
use kube_queue.Quota.Reservation.{
  intent, reserved, released, unknown_state, ReservationState, Reservation, ReservationRequest,
  ReservationDecision, ReservationError, decide_reservation, mark_reserved,
}
use kube_queue.Quota.Reservation.Limits.{Within}
use kube_queue.Persistence.Quotas.{
  Row, Tables, not_found, conflict, target_of, usage_at, lift, lift_counters, reservation_by_job,
  concurrent_demand, validate_effective_policy, update_reservation,
}
use kube_queue.Persistence.Quotas.Calls.{
  Decided, admit_job_quota, admit_from, admitted, admitted_row,
}
use kube_queue.Persistence.Quotas.Balance.{IsExact, usage_at-update}
use kube_queue.Persistence.Quotas.Exact.{reservation_by_job_key}
use kube_queue.Persistence.Quotas.Steps.{
  released_usage, added_usage, decided_usage, parts-UsageInRange, usage_at-UsageInRange,
  running-UsageInRange, checked, found_again,
}
use kube_queue.Persistence.Quotas.Steps.Admit.{admit_checked, admit_as, admit_found}
use kube_queue.Persistence.Quotas.Limits.{Limited, decided-Within, no_reservation}

module _ (project namespace : Text) (policy : EffectivePolicy) (t : Tables) (v : IsExact t) where
  abbrev target : Scope
  target = target_of project namespace

  -- The reservations after an admission.
  abbrev written : Reservation → Reservation → Tables → List Row
  written current r before =
      update_reservation current.idempotency_key
        (record current { demand = r.demand; state = reserved; policy = r.policy })
        before.reservations

  admitted_row-Limited :
      (base : Usage) (current : Reservation) (request : ReservationRequest)
      (d : ReservationDecision) (o : Option Reservation)
      → UsageInRange base
      → UsageInRange request.demand
      → decide_reservation policy base request none ≡ ok d
      → d.reservation ≡ o
      → Limited target policy.rules.quotas (admitted_row target current t d o)
  unfolding mark_reserved
  admitted_row-Limited base current request d none low fits e f =
      λ accepted replay. cc (accepted, no_reservation policy base request d e f)
  admitted_row-Limited base current request d (some r) low fits e f =
      let (sum, i, _, _) = decided_usage policy base request d r e f in
      let (added, _) = added_usage base request.demand d.usage low fits sum in
      rw i λ accepted replay.
        subst (Within policy.rules.quotas)
          (sym (usage_at-update project namespace d.usage t.usage (written current r t) ∙ added))
          (decided-Within policy base request d r e f)

  admitted-Limited :
      (base : Usage) (current : Reservation) (request : ReservationRequest)
      (r : Result ReservationError ReservationDecision)
      → UsageInRange base
      → UsageInRange request.demand
      → decide_reservation policy base request none ≡ r
      → Limited target policy.rules.quotas (admitted target current t (lift r))
  admitted-Limited base current request (err e) low fits k = tt
  admitted-Limited base current request (ok d) low fits k = elim (Bool-cases (not d.accepted)) [
    | inl e ↦ rw e λ accepted replay. ground (arith, e, accepted)
    | inr e ↦ rw e (admitted_row-Limited base current request d d.reservation low fits k refl)
  ]

  abbrev request_for : Reservation → ReservationRequest
  request_for current = record {
    idempotency_key = current.idempotency_key;
    job_id = current.job_id;
    demand = concurrent_demand current.demand;
  }

  readmit-Limited :
      (current : Reservation) (r : Result CounterError Usage)
      → release (usage_at target t) current.demand ≡ r
      → Limited target policy.rules.quotas (do
        base ← lift_counters r
        admitted target current t
            (lift (decide_reservation policy base (request_for current) none)))
  readmit-Limited current (err e) k = tt
  readmit-Limited current (ok base) k =
      let sum = released_usage (usage_at target t) current.demand base k in
      let (low, demand) =
        parts-UsageInRange (usage_at target t) base current.demand sum
          (usage_at-UsageInRange target t v) in
      admitted-Limited base current (request_for current)
        (decide_reservation policy base (request_for current) none) low
        (running-UsageInRange current.demand demand) refl

  admit_from-Limited :
      (s : ReservationState) (current : Reservation)
      → Limited target policy.rules.quotas (admit_from s target current policy t)
  admit_from-Limited intent current =
      readmit-Limited current (release (usage_at target t) current.demand) refl
  admit_from-Limited reserved current = λ accepted replay. cc replay
  admit_from-Limited released current = tt
  admit_from-Limited (unknown_state _) current = tt

-- A step on the row that a job finds.
found_by_job :
    (P : Decided → Type 0) (job : Text) (rows : List Row) (row : Row) (missing : Decided)
    (step : Row → Decided)
    → reservation_by_job job rows ≡ some row
    → P (step row)
    → P (elim (reservation_by_job job rows) [ none ↦ missing | some found ↦ step found ])
found_by_job P job rows row missing step e h = rw e h

admit_job_quota-Limited :
    (job : Text) (policy : EffectivePolicy) (t : Tables) (row : Row)
    → IsExact t
    → reservation_by_job job t.reservations ≡ some row
    → Limited
        (target_of row.project row.namespace)
        policy.rules.quotas
        (admit_job_quota job policy t)
unfolding admit_job_quota
admit_job_quota-Limited job policy t row v e =
    let limited = Limited (target_of row.project row.namespace) policy.rules.quotas in
    found_by_job limited job t.reservations row (err not_found) (admit_checked policy t) e (
      checked limited (λ e. tt)
        (validate_effective_policy policy (target_of row.project row.namespace))
        (admit_found policy t row)
        λ _.
          found_again limited t row (err conflict) (admit_as policy t row)
            (reservation_by_job_key job row t.reservations v.keyed e)
            (admit_from-Limited row.project row.namespace policy t v row.reservation.state
              row.reservation))

-- A job that is newly admitted, in exact tables, leaves every counter above the target of its
-- reservation within the nine limits of the policy.
pub admit_job_quota-Within :
    (job : Text) (policy : EffectivePolicy) (t after : Tables) (row : Row) (d : ReservationDecision)
    → IsExact t
    → reservation_by_job job t.reservations ≡ some row
    → admit_job_quota job policy t ≡ ok (d, after)
    → d.accepted ≡ true
    → d.replay ≡ false
    → Within policy.rules.quotas (usage_at (target_of row.project row.namespace) after)
admit_job_quota-Within job policy t after row d v e f =
    subst (Limited (target_of row.project row.namespace) policy.rules.quotas) f
      (admit_job_quota-Limited job policy t row v e)
