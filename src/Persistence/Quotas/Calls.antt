-- ===== src/Persistence/Quotas/Calls.antt =====
-- internal/adapters/persistence/quotas.go: the transactions on the quota tables.
use kube_queue.Common.{
  Bool, true, false, not, ◌||◌, if◌then◌else◌, Text, ◌∷◌, Option, none, some, Result, ok, err,
  ◌>>=◌, ◌>>◌, is_none,
}
use kube_queue.Quota.Counters.{Usage, add, release}
use kube_queue.Quota.Counters.Laws.{no_usage}
use kube_queue.Quota.Rules.{Scope, EffectivePolicy}
use kube_queue.Quota.Reservation.{
  ReservationState, intent, reserved, released, unknown_state, ReleaseCause, Reservation,
  ReservationRequest, ReservationDecision, invalid_state, decide_reservation, mark_reserved,
  release_reservation, usage_eq,
}
use kube_queue.Persistence.Quotas.{
  Row, Tables, QuotaError, not_found, conflict, refused, target_of, usage_at, update_quota_usage,
  quota_reservation, reservation_by_job, update_reservation, changed, validate_quota_target,
  validate_effective_policy, validate_usage, concurrent_demand, queued_demand, retained_demand,
  lift_counters, lift,
}

abbrev pub Decided : Type 0
Decided = Result QuotaError (ReservationDecision × Tables)

-- insertQuotaReservationTx with the update before it: the index on the job refuses a second one.
abbrev pub insert_reservation : Scope → Tables → ReservationDecision → Option Reservation → Decided
insert_reservation target t d none = ok (d, t)
insert_reservation target t d (some r) =
    if not (is_none (reservation_by_job r.job_id t.reservations))
    then err conflict
    else ok (
      d,
      record {
        usage = update_quota_usage target d.usage t.usage;
        reservations =
            record { reservation = r; project = target.project; namespace = target.namespace }
            ∷ t.reservations;
      },
    )

abbrev pub reservation_of : Option Row → Option Reservation
reservation_of none = none
reservation_of (some row) = some row.reservation

abbrev pub recorded : Scope → Tables → Result QuotaError ReservationDecision → Decided
recorded target t (err e) = err e
recorded target t (ok d) =
    if not d.accepted || d.replay then ok (d, t) else insert_reservation target t d d.reservation

-- ReserveQuota
unfoldable pub reserve_quota :
    Text → Scope → EffectivePolicy → ReservationRequest → Tables → Decided
reserve_quota installation_id target policy request t =
    validate_quota_target installation_id target
    >> (validate_effective_policy policy target
        >> (validate_usage request.demand
            >> recorded target t (
                lift (
                  decide_reservation policy (usage_at target t) request
                    (reservation_of (quota_reservation request.idempotency_key t.reservations))))))

-- The reservation and its row are written with the decision's demand, state and policy.
abbrev pub admitted_row :
    Scope → Reservation → Tables → ReservationDecision → Option Reservation → Decided
admitted_row target current t d none = ok (d, t)
admitted_row target current t d (some r) = do
  now ← lift (mark_reserved r)
  ok (
    record d { reservation = some now },
    changed t target d.usage current.idempotency_key
        (record current { demand = now.demand; state = now.state; policy = now.policy }),
  )

abbrev pub admitted : Scope → Reservation → Tables → Result QuotaError ReservationDecision → Decided
admitted target current t (err e) = err e
admitted target current t (ok d) =
    if not d.accepted then ok (d, t) else admitted_row target current t d d.reservation

-- A demand that waited in the queue becomes one that runs.
abbrev pub readmit : Scope → Reservation → EffectivePolicy → Tables → Decided
readmit target current policy t = do
  base ← lift_counters (release (usage_at target t) current.demand)
  admitted target current t (
      lift (
        decide_reservation policy base
          (record {
            idempotency_key = current.idempotency_key;
            job_id = current.job_id;
            demand = concurrent_demand current.demand;
          })
          none))

abbrev pub admit_from : ReservationState → Scope → Reservation → EffectivePolicy → Tables → Decided
admit_from reserved target current policy t = ok (
  record {
    accepted = true;
    usage = usage_at target t;
    reservation = some current;
    rejection = none;
    replay = true;
  },
  t,
)
admit_from intent target current policy t = readmit target current policy t
admit_from released target current policy t = err (refused invalid_state)
admit_from (unknown_state _) target current policy t = err (refused invalid_state)

-- admitJobQuotaTx
unfoldable pub admit_job_quota : Text → EffectivePolicy → Tables → Decided
admit_job_quota job policy t = elim (reservation_by_job job t.reservations) [
  | none ↦ err not_found
  | some found ↦
      let target = target_of found.project found.namespace in
      validate_effective_policy policy target
      >> elim (quota_reservation found.reservation.idempotency_key t.reservations) [
        | none ↦ err conflict
        | some row ↦ admit_from row.reservation.state target row.reservation policy t
      ]
]

-- A demand that ran waits in the queue again.
abbrev pub requeue_from : ReservationState → Scope → Reservation → Tables → Result QuotaError Tables
requeue_from intent target current t = ok t
requeue_from reserved target current t = do
  base ← lift_counters (release (usage_at target t) current.demand)
  next ← lift_counters (add base (queued_demand current.demand))
  ok (
      changed t target next current.idempotency_key
        (record current { demand = queued_demand current.demand; state = intent }))
requeue_from released target current t = err (refused invalid_state)
requeue_from (unknown_state _) target current t = err (refused invalid_state)

-- requeueJobQuotaTx
unfoldable pub requeue_job_quota : Text → Tables → Result QuotaError Tables
requeue_job_quota job t = elim (reservation_by_job job t.reservations) [
  | none ↦ ok t
  | some found ↦ elim (quota_reservation found.reservation.idempotency_key t.reservations) [
    | none ↦ ok t
    | some row ↦
        requeue_from row.reservation.state (target_of found.project found.namespace) row.reservation
          t
  ]
]

abbrev pub Freed : Type 0
Freed = Result QuotaError (Option (Reservation × Usage) × Tables)

abbrev pub is_released : ReservationState → Bool
is_released released = true
is_released _ = false

-- What the usage keeps of a released demand.
abbrev pub kept : Bool → Usage → Usage → Result QuotaError Usage
kept preserve next demand =
    if preserve then lift_counters (add next (retained_demand demand)) else ok next

abbrev pub free_row : Bool → ReleaseCause → Scope → Reservation → Tables → Freed
free_row preserve cause target current t =
    if is_released current.state then ok (some (current, usage_at target t), t) else do
      freed ← lift (release_reservation current (usage_at target t) cause)
      next ← kept preserve freed.1 current.demand
      ok (
        some (freed.0, next),
        changed t target next current.idempotency_key
            (record current { state = freed.0.state; release_cause = freed.0.release_cause }),
      )

-- releaseJobQuotaTx; `none` where the job has no reservation.
unfoldable pub release_job_quota : Bool → Text → ReleaseCause → Tables → Freed
release_job_quota preserve job cause t = elim (reservation_by_job job t.reservations) [
  | none ↦ ok (none, t)
  | some found ↦ elim (quota_reservation found.reservation.idempotency_key t.reservations) [
    | none ↦ ok (none, t)
    | some row ↦ free_row preserve cause (target_of found.project found.namespace) row.reservation t
  ]
]

abbrev pub without_retained : Usage → Usage
without_retained u = record {
  global = record u.global { retained = 0 };
  project = record u.project { retained = 0 };
  namespace = record u.namespace { retained = 0 };
}

abbrev pub free_retained : Scope → Reservation → Tables → Result QuotaError Tables
free_retained target current t =
    if not (is_released current.state) || usage_eq (retained_demand current.demand) no_usage
    then ok t
    else do
      next ← lift_counters (release (usage_at target t) (retained_demand current.demand))
      ok (
          changed t target next current.idempotency_key
            (record current { demand = without_retained current.demand }))

-- releaseRetainedJobQuotaTx
unfoldable pub release_retained_job_quota : Text → Tables → Result QuotaError Tables
release_retained_job_quota job t = elim (reservation_by_job job t.reservations) [
  | none ↦ ok t
  | some found ↦ elim (quota_reservation found.reservation.idempotency_key t.reservations) [
    | none ↦ ok t
    | some row ↦ free_retained (target_of found.project found.namespace) row.reservation t
  ]
]

abbrev pub free_by_key : ReleaseCause → Scope → Reservation → Tables → Freed
free_by_key cause target current t = do
  freed ← lift (release_reservation current (usage_at target t) cause)
  ok (
    some freed,
    if is_released current.state
        then t
        else changed t target freed.1 current.idempotency_key
            (record current { state = freed.0.state; release_cause = freed.0.release_cause }),
  )

-- ReleaseQuota: nothing of the demand is kept.
unfoldable pub release_quota : Text → ReleaseCause → Tables → Freed
release_quota key cause t = elim (quota_reservation key t.reservations) [
  | none ↦ err not_found
  | some row ↦ free_by_key cause (target_of row.project row.namespace) row.reservation t
]

-- MarkQuotaReserved
unfoldable pub mark_quota_reserved : Text → Tables → Result QuotaError (Reservation × Tables)
mark_quota_reserved key t = elim (quota_reservation key t.reservations) [
  | none ↦ err not_found
  | some row ↦ do
    now ← lift (mark_reserved row.reservation)
    ok (
      now,
      record t {
        reservations =
            update_reservation key (record row.reservation { state = now.state }) t.reservations;
      },
    )
]
