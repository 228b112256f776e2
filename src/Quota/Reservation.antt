-- ===== src/Quota/Reservation.antt =====
-- internal/domain/policyquota/quota.go: deciding, marking and releasing a reservation. A method on a
-- value returns the new value; Go's zero value beside an error is left out.
pub mod Limits
pub mod Decision
use kube_queue.Common.{
  ℕ, ◌+◌, ◌-◌, ◌≤◌, Bool, true, false, not, ◌&&◌, ◌||◌, ltb, ◌==◌, if◌then◌else◌, Text, text_eq,
  is_empty, codes, get_last?, Option, none, some, Result, ok, err, List, [], ◌∷◌,
}
use kube_queue.Quota.Counters.{Counters, Usage, CounterError, add, release}
use kube_queue.Quota.Counters.Laws.{no_usage}
use kube_queue.Quota.Rules.{
  ScopeKind, installation, project_scope, namespace_scope, Scope, PolicyRef, QuotaLimits,
  ScopedLimits, EffectivePolicy,
}

pub data RejectionReason : Type 0 where
  global_concurrency global_queued global_retained : RejectionReason
  project_concurrency project_queued project_retained : RejectionReason
  namespace_concurrency namespace_queued namespace_retained : RejectionReason
  idempotency_conflict : RejectionReason

pub data Remediation : Type 0 where
  wait_for_capacity delete_retained use_new_key : Remediation

pub record Rejection : Type 0 where
  pub policy : PolicyRef
  pub scope : Scope
  pub metric : Text
  pub current : ℕ
  pub limit : ℕ
  pub reason : RejectionReason
  pub remediation : Remediation

pub data ReservationState : Type 0 where
  intent reserved released : ReservationState
  unknown_state : Text → ReservationState

pub data ReleaseCause : Type 0 where
  completed cancelled failed : ReleaseCause
  unknown_cause : Text → ReleaseCause

pub record Reservation : Type 0 where
  pub idempotency_key : Text
  pub job_id : Text
  pub policy : PolicyRef
  pub demand : Usage
  pub state : ReservationState
  pub release_cause : ReleaseCause

pub record ReservationRequest : Type 0 where
  pub idempotency_key : Text
  pub job_id : Text
  pub demand : Usage

-- The reservation of an accepted decision; the zero value of the others is `none`.
pub record ReservationDecision : Type 0 where
  pub accepted : Bool
  pub usage : Usage
  pub reservation : Option Reservation
  pub rejection : Option Rejection
  pub replay : Bool

pub data ReservationError : Type 0 where
  key_required no_applied_version : ReservationError
  counter : CounterError → ReservationError
  invalid_state : ReservationError

pub record QuotaCheck : Type 0 where
  pub scope : Scope
  pub metric : Text
  pub current : ℕ
  pub demand : ℕ
  pub limit : ℕ
  pub reason : RejectionReason
  pub remediation : Remediation

-- `if limit != nil { value = *limit }`, from 0.
abbrev pub limit_value : Option ℕ → ℕ
limit_value none = 0
limit_value (some n) = n

abbrev new_check : Scope → Text → ℕ → ℕ → Option ℕ → RejectionReason → Remediation → QuotaCheck
new_check scope metric current demand limit reason remediation = record {
  scope = scope;
  metric = metric;
  current = current;
  demand = demand;
  limit = limit_value limit;
  reason = reason;
  remediation = remediation;
}

-- The three checks of one level.
abbrev level_checks :
    Scope
    → Counters
    → Counters
    → ScopedLimits
    → RejectionReason
    → RejectionReason
    → RejectionReason
    → List QuotaCheck
    → List QuotaCheck
level_checks scope usage demand limits concurrent queued retained rest =
    new_check scope (codes "concurrent_jobs") usage.concurrent demand.concurrent
      limits.max_concurrent concurrent wait_for_capacity
    ∷ new_check scope (codes "queued_jobs") usage.queued demand.queued limits.max_queued queued
        wait_for_capacity
    ∷ new_check scope (codes "retained_jobs") usage.retained demand.retained limits.max_retained
        retained delete_retained
    ∷ rest

-- quotaChecks
unfoldable pub quota_checks : Scope → QuotaLimits → Usage → Usage → List QuotaCheck
quota_checks target limits usage demand =
    level_checks (record { kind = installation; project = codes ""; namespace = codes "" })
      usage.global demand.global limits.global global_concurrency global_queued global_retained
      (level_checks
        (record { kind = project_scope; project = target.project; namespace = codes "" })
        usage.project demand.project limits.project project_concurrency project_queued
        project_retained
        (level_checks
          (record {
            kind = namespace_scope;
            project = target.project;
            namespace = target.namespace;
          })
          usage.namespace demand.namespace limits.namespace namespace_concurrency namespace_queued
          namespace_retained []))

abbrev rejection_of : PolicyRef → QuotaCheck → Rejection
rejection_of ref check = record {
  policy = ref;
  scope = check.scope;
  metric = check.metric;
  current = check.current;
  limit = check.limit;
  reason = check.reason;
  remediation = check.remediation;
}

-- The loop of firstRejection. The limit is subtracted only where it is not below the counter.
unfoldable pub first_failing : PolicyRef → List QuotaCheck → Option Rejection
first_failing ref [] = none
first_failing ref (check ∷ checks) =
    if ltb check.limit check.current || ltb (check.limit - check.current) check.demand
    then some (rejection_of ref check)
    else first_failing ref checks

unfoldable pub first_rejection : PolicyRef → EffectivePolicy → Usage → Usage → Option Rejection
unfolding quota_checks
first_rejection ref policy usage demand =
    first_failing ref (quota_checks ref.scope policy.rules.quotas usage demand)

-- `==` on the structs.
abbrev pub counters_eq : Counters → Counters → Bool
counters_eq c d = c.concurrent == d.concurrent && c.queued == d.queued && c.retained == d.retained

abbrev pub usage_eq : Usage → Usage → Bool
usage_eq u v =
    counters_eq u.global v.global
    && counters_eq u.project v.project
    && counters_eq u.namespace v.namespace

abbrev conflict : PolicyRef → Rejection
conflict ref = record {
  policy = ref;
  scope = ref.scope;
  metric = codes "idempotency_key";
  current = 0;
  limit = 0;
  reason = idempotency_conflict;
  remediation = use_new_key;
}

abbrev refusal : Usage → Rejection → ReservationDecision
refusal usage rejection = record {
  accepted = false;
  usage = usage;
  reservation = none;
  rejection = some rejection;
  replay = false;
}

-- Where a reservation with the key exists.
abbrev replayed : PolicyRef → Usage → ReservationRequest → Reservation → ReservationDecision
replayed ref usage request existing =
    if text_eq existing.idempotency_key request.idempotency_key
      && text_eq existing.job_id request.job_id
      && usage_eq existing.demand request.demand
    then record {
      accepted = true;
      usage = usage;
      reservation = some existing;
      rejection = none;
      replay = true;
    }
    else refusal usage (conflict ref)

abbrev pub new_intent : PolicyRef → ReservationRequest → Reservation
new_intent ref request = record {
  idempotency_key = request.idempotency_key;
  job_id = request.job_id;
  policy = ref;
  demand = request.demand;
  state = intent;
  release_cause = unknown_cause (codes "");
}

-- Where the limits allow the demand.
abbrev admitted :
    PolicyRef
    → ReservationRequest
    → Result CounterError Usage
    → Result ReservationError ReservationDecision
admitted ref request (err e) = err (counter e)
admitted ref request (ok next) = ok (record {
  accepted = true;
  usage = next;
  reservation = some (new_intent ref request);
  rejection = none;
  replay = false;
})

abbrev decide_under :
    Option PolicyRef
    → EffectivePolicy
    → Usage
    → ReservationRequest
    → Option Reservation
    → Result ReservationError ReservationDecision
decide_under none policy usage request existing = err no_applied_version
decide_under (some ref) policy usage request (some old) = ok (replayed ref usage request old)
decide_under (some ref) policy usage request none =
    elim (first_rejection ref policy usage request.demand) [
      | some rejection ↦ ok (refusal usage rejection)
      | none ↦ admitted ref request (add usage request.demand)
    ]

-- DecideReservation
unfoldable pub decide_reservation :
    EffectivePolicy
    → Usage
    → ReservationRequest
    → Option Reservation
    → Result ReservationError ReservationDecision
decide_reservation policy usage request existing =
    if is_empty request.idempotency_key || is_empty request.job_id
    then err key_required
    else decide_under (get_last? policy.applied) policy usage request existing

abbrev pub marked : ReservationState → Reservation → Result ReservationError Reservation
marked intent r = ok (record r { state = reserved })
marked reserved r = ok r
marked released r = err invalid_state
marked (unknown_state _) r = err invalid_state

-- Reservation.MarkReserved
unfoldable pub mark_reserved : Reservation → Result ReservationError Reservation
mark_reserved r = marked r.state r

abbrev is_known_cause : ReleaseCause → Bool
is_known_cause (unknown_cause _) = false
is_known_cause _ = true

abbrev pub freed :
    Reservation
    → ReleaseCause
    → Result CounterError Usage
    → Result ReservationError (Reservation × Usage)
freed r cause (err e) = err (counter e)
freed r cause (ok next) = ok (record r { state = released; release_cause = cause }, next)

abbrev pub release_from :
    ReservationState
    → Reservation
    → Usage
    → ReleaseCause
    → Result ReservationError (Reservation × Usage)
release_from released r usage cause = ok (r, usage)
release_from intent r usage cause = freed r cause (release usage r.demand)
release_from reserved r usage cause = freed r cause (release usage r.demand)
release_from (unknown_state _) r usage cause = err invalid_state

-- Reservation.Release
unfoldable pub release_reservation :
    Reservation → Usage → ReleaseCause → Result ReservationError (Reservation × Usage)
release_reservation r usage cause =
    if not (is_known_cause cause) then err invalid_state else release_from r.state r usage cause
