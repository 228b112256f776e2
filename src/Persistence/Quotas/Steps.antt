-- ===== src/Persistence/Quotas/Steps.antt =====
-- What the transactions on the quota tables share: the sums behind the checked ones, how a
-- reservation is found, and the check before a step.
pub mod Requeue
pub mod Free
pub mod Admit
pub mod Mark
pub mod Reserve
use kube_queue.Common.{
  ℕ, ◌+◌, ◌-◌, ◌^◌, ◌≤◌, ◌<◌, ◌≡◌, refl, sym, ap, subst, ◌∙◌, Bool, true, false, not, ◌&&◌, ◌||◌,
  ltb, if◌then◌else◌, Text, text_eq, is_empty, codes, get_last?, List, [], ◌∷◌, Option, none, some,
  Option-cases, Result, ok, err, ◌>>=◌, ◌>>◌, arith, Bool-cases, inl, inr, is_none, fail_if,
}
use kube_queue.Quota.Counters.{Counters, Usage, CounterError, add, release}
use kube_queue.Quota.Counters.Laws.{
  ◌⊕◌, ◌⊞◌, no_usage, InRange, UsageInRange, UsageAddResult, UsageSubResult, add-UsageAddResult,
  release-UsageSubResult,
}
use kube_queue.Quota.Rules.{Scope, ScopeKind, namespace_scope, PolicyRef, EffectivePolicy}
use kube_queue.Quota.Reservation.{
  ReservationState, intent, reserved, released, unknown_state, ReleaseCause, Reservation,
  ReservationRequest, ReservationDecision, ReservationError, decide_reservation, mark_reserved,
  marked, release_reservation, release_from, usage_eq,
}
use kube_queue.Persistence.Quotas.{
  Row, Tables, QuotaError, target_of, usage_at, update_quota_usage, quota_reservation, conflict,
  validate_effective_policy, validate_usage, validate_quota_target, is_target, lift, lift_counters,
  reservation_by_job, update_reservation, changed, concurrent_demand, queued_demand,
  retained_demand,
}
use kube_queue.Persistence.Quotas.Calls.{
  reserve_quota, admit_job_quota, requeue_job_quota, release_job_quota, release_retained_job_quota,
  mark_quota_reserved, readmit, admit_from, requeue_from, free_row, free_retained, is_released,
  kept, without_retained, Freed, Decided, admitted, admitted_row, recorded, reservation_of,
  insert_reservation,
}
use kube_queue.Persistence.Quotas.Balance.{stored, IsExact}
use kube_queue.Persistence.Quotas.Exact.{
  changed-IsExact, unmoved-IsExact, inserted-IsExact, reservation_by_job_key, quota_reservation_key,
}

-- The tables of a transaction that succeeds are exact.
abbrev pub Kept {ℓ} : {A : Type ℓ} → (A → Tables) → Result QuotaError A → Type 0
Kept read (ok a) = IsExact (read a)
Kept read (err e) = Unit

abbrev pub tables_freed : Option (Reservation × Usage) × Tables → Tables
tables_freed freed = freed.1

abbrev pub tables_decided : ReservationDecision × Tables → Tables
tables_decided decided = decided.1

abbrev pub tables_marked : Reservation × Tables → Tables
tables_marked now = now.1

pub released_usage : (u d base : Usage) → release u d ≡ ok base → u ≡ base ⊞ d
released_usage u d base e = subst (UsageSubResult u d) e (release-UsageSubResult u d)

pub added_usage :
    (u d next : Usage)
    → UsageInRange u
    → UsageInRange d
    → add u d ≡ ok next
    → (next ≡ u ⊞ d) × UsageInRange next
added_usage u d next h k e =
    let (same, range) = subst (UsageAddResult u d) e (add-UsageAddResult u d h k) in
    (same, subst UsageInRange (sym same) range)

pub parts-UsageInRange :
    (u base d : Usage) → u ≡ base ⊞ d → UsageInRange u → UsageInRange base × UsageInRange d
parts-UsageInRange u base d e h = ground arith

pub usage_at-UsageInRange :
    (target : Scope) (t : Tables) → IsExact t → UsageInRange (usage_at target t)
usage_at-UsageInRange target t v = (v.in_range _, v.in_range _, v.in_range _)

pub waiting-UsageInRange : (d : Usage) → UsageInRange d → UsageInRange (queued_demand d)
waiting-UsageInRange d h = ground arith

pub running-UsageInRange : (d : Usage) → UsageInRange d → UsageInRange (concurrent_demand d)
running-UsageInRange d h = ground arith

pub moved_by :
    (u base next : Usage) (old new : Usage)
    → u ≡ base ⊞ old
    → next ≡ base ⊞ new
    → next ⊞ old ≡ u ⊞ new
moved_by u base next old new e f = ground arith

pub retained-UsageInRange : (d : Usage) → UsageInRange d → UsageInRange (retained_demand d)
retained-UsageInRange d h = ground arith

pub keeps_nothing : (u : Usage) (d : Usage) → u ≡ u ⊞ retained_demand (without_retained d)
keeps_nothing u d = ground arith

pub freed_usage :
    (r : Reservation) (u next : Usage) (cause : ReleaseCause) (after : Reservation)
    → is_released r.state ≡ false
    → release_reservation r u cause ≡ ok (after, next)
    → (u ≡ next ⊞ r.demand) × (stored r ≡ r.demand) × (after.state ≡ released)
unfolding release_reservation
freed_usage r u next cause after e k = ground (arith, released_usage u r.demand next)

-- A decision on a new key that returns a reservation has the sum as its usage.
pub decided_usage :
    (policy : EffectivePolicy) (u : Usage) (request : ReservationRequest) (d : ReservationDecision)
    (r : Reservation)
    → decide_reservation policy u request none ≡ ok d
    → d.reservation ≡ some r
    → (add u request.demand ≡ ok d.usage)
      × (r.state ≡ intent)
      × (r.idempotency_key ≡ request.idempotency_key)
      × (r.demand ≡ request.demand)
unfolding decide_reservation
decided_usage policy u request d r e k = ground arith

-- The row found by its key, and the exact tables it stands in.
module _ (t : Tables) (row : Row)
    (found : quota_reservation row.reservation.idempotency_key t.reservations ≡ some row)
    (v : IsExact t) where
  abbrev here : Usage
  here = usage_at (target_of row.project row.namespace) t

  -- What was held is released and another demand is added: the tables stay exact.
  pub swapped-IsExact :
      (base next : Usage) (new : Reservation)
      → new.idempotency_key ≡ row.reservation.idempotency_key
      → here ≡ base ⊞ stored row.reservation
      → next ≡ base ⊞ stored new
      → UsageInRange next
      → IsExact
          (changed t (target_of row.project row.namespace) next row.reservation.idempotency_key new)
  swapped-IsExact base next new same e f range =
      changed-IsExact t row next new found same
        (moved_by here base next (stored row.reservation) (stored new) e f) range v

  pub here-UsageInRange : UsageInRange here
  here-UsageInRange = usage_at-UsageInRange (target_of row.project row.namespace) t v

-- The reservation of a key, or nothing, and what a transaction does with it.
pub by_key :
    {A : Type 0} (P : Result QuotaError A → Type 0) (key : Text) (t : Tables)
    (missing : Result QuotaError A) (step : Row → Result QuotaError A)
    → P missing
    → ((row : Row) → quota_reservation key t.reservations ≡ some row → P (step row))
    → P (elim (quota_reservation key t.reservations) [ none ↦ missing | some row ↦ step row ])
by_key P key t missing step h k = elim (Option-cases (quota_reservation key t.reservations)) [
  | inl e ↦ rw e h
  | inr (row, e) ↦ rw e (k row e)
]

-- The reservation of a job, or nothing, and what a transaction does with it.
pub by_job :
    {A : Type 0} (P : Result QuotaError A → Type 0) (job : Text) (t : Tables)
    (missing : Result QuotaError A) (step : Row → Result QuotaError A)
    → P missing
    → ((row : Row)
        → quota_reservation row.reservation.idempotency_key t.reservations ≡ some row
        → P (step row))
    → IsExact t
    → P (elim (reservation_by_job job t.reservations) [ none ↦ missing | some found ↦ step found ])
by_job P job t missing step h k v = elim (Option-cases (reservation_by_job job t.reservations)) [
  | inl e ↦ rw e h
  | inr (row, e) ↦ rw e (k row (reservation_by_job_key job row t.reservations v.keyed e))
]

-- The row that its key finds.
pub found_again :
    {A : Type 0} (P : Result QuotaError A → Type 0) (t : Tables) (row : Row)
    (lost : Result QuotaError A) (step : Row → Result QuotaError A)
    → quota_reservation row.reservation.idempotency_key t.reservations ≡ some row
    → P (step row)
    → P (elim (quota_reservation row.reservation.idempotency_key t.reservations) [
      | none ↦ lost
      | some r ↦ step r
    ])
found_again P t row lost step found h = rw found h

-- A check before a step refuses it or lets it run.
pub checked :
    {A : Type 0} (P : Result QuotaError A → Type 0) (refused : (e : QuotaError) → P (err e))
    (test : Result QuotaError (Unit {0})) (step : Result QuotaError A)
    → (test ≡ ok tt → P step)
    → P (test >> step)
checked P f (err e) step h = f e
checked P f (ok tt) step h = h refl
