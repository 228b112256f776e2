-- ===== src/Persistence/Quotas.antt =====
-- internal/adapters/persistence/quotas.go: the tables quota_usage and quota_reservations of one
-- installation. A transaction gives the tables after it or an error, which rolls it back; its rows are
-- locked, so their versions do not change under it. The counters fit the database's integers.
pub mod Calls
pub mod Balance
pub mod Exact
pub mod Steps
pub mod History
pub mod Limits
pub mod Admission
mod Examples
use kube_queue.Common.{
  ℕ, ◌-◌, ◌^◌, Bool, true, false, not, ◌&&◌, ◌||◌, ltb, ◌==◌, if◌then◌else◌, Text, text_eq,
  is_empty, codes, get_last?, List, [], ◌∷◌, Option, none, some, Result, ok, err, ◌>>=◌, ◌>>◌,
  fail_if,
}
use kube_queue.Quota.Counters.{Counters, Usage, CounterError, add, release}
use kube_queue.Quota.Counters.Laws.{no_usage}
use kube_queue.Quota.Rules.{
  ScopeKind, installation, project_scope, namespace_scope, unknown_scope, Scope, PolicyRef,
  EffectivePolicy,
}
use kube_queue.Quota.Reservation.{
  ReservationState, intent, reserved, released, unknown_state, ReleaseCause, Reservation,
  ReservationRequest, ReservationDecision, ReservationError, decide_reservation, mark_reserved,
  release_reservation, usage_eq,
}
use kube_queue.Persistence.Scopes.{policy_scope_key, is_invalid_scope}

-- A row of quota_reservations, with its target.
pub record Row : Type 0 where
  pub reservation : Reservation
  pub project : Text
  pub namespace : Text

pub record Tables : Type 0 where
  pub usage : List (Text × Counters)
  pub reservations : List Row

pub data QuotaError : Type 0 where
  installation_required not_namespace invalid_target : QuotaError
  not_applicable version_range demand_range : QuotaError
  not_found conflict : QuotaError
  refused : ReservationError → QuotaError
  counters : CounterError → QuotaError

abbrev pub no_counters : Counters
no_counters = record { concurrent = 0; queued = 0; retained = 0 }

-- A missing row reads as the zero counters that lockQuotaUsage inserts.
unfoldable pub counters_of : Text → List (Text × Counters) → Counters
counters_of key [] = no_counters
counters_of key (row ∷ rows) = if text_eq row.0 key then row.1 else counters_of key rows

unfoldable pub set_counters : Text → Counters → List (Text × Counters) → List (Text × Counters)
set_counters key c [] = (key, c) ∷ []
set_counters key c (row ∷ rows) =
    if text_eq row.0 key then (key, c) ∷ rows else row ∷ set_counters key c rows

-- The target of a project and namespace, and the scopes of quotaScopes that lie above it.
abbrev pub target_of : Text → Text → Scope
target_of project namespace = record {
  kind = namespace_scope;
  project = project;
  namespace = namespace;
}

abbrev pub installation_scope : Scope
installation_scope = record { kind = installation; project = codes ""; namespace = codes "" }

abbrev pub project_of : Scope → Scope
project_of target = record { kind = project_scope; project = target.project; namespace = codes "" }

-- lockQuotaUsage and quotaUsageFromRows.
abbrev pub usage_at : Scope → Tables → Usage
usage_at target t = record {
  global = counters_of (policy_scope_key installation_scope) t.usage;
  project = counters_of (policy_scope_key (project_of target)) t.usage;
  namespace = counters_of (policy_scope_key target) t.usage;
}

-- updateQuotaUsage
abbrev pub update_quota_usage : Scope → Usage → List (Text × Counters) → List (Text × Counters)
update_quota_usage target next usage = set_counters (policy_scope_key target) next.namespace (
    set_counters (policy_scope_key (project_of target)) next.project
      (set_counters (policy_scope_key installation_scope) next.global usage))

-- quotaReservation
unfoldable pub quota_reservation : Text → List Row → Option Row
quota_reservation key [] = none
quota_reservation key (row ∷ rows) =
    if text_eq row.reservation.idempotency_key key then some row else quota_reservation key rows

-- quotaReservationKeyByJob: the row of the job; its key and target are read off it.
unfoldable pub reservation_by_job : Text → List Row → Option Row
reservation_by_job job [] = none
reservation_by_job job (row ∷ rows) =
    if text_eq row.reservation.job_id job then some row else reservation_by_job job rows

-- An UPDATE of quota_reservations by key.
unfoldable pub update_reservation : Text → Reservation → List Row → List Row
update_reservation key new [] = []
update_reservation key new (row ∷ rows) =
    if text_eq row.reservation.idempotency_key key
    then record row { reservation = new } ∷ rows
    else row ∷ update_reservation key new rows

-- Both tables, after a change of one reservation and the usage above its target.
abbrev pub changed : Tables → Scope → Usage → Text → Reservation → Tables
changed t target next key new = record {
  usage = update_quota_usage target next t.usage;
  reservations = update_reservation key new t.reservations;
}

abbrev pub is_target : ScopeKind → Bool
is_target namespace_scope = true
is_target _ = false

-- validateQuotaTarget
abbrev pub validate_quota_target : Text → Scope → Result QuotaError (Unit {0})
validate_quota_target installation_id target =
    fail_if (is_empty installation_id) installation_required
    >> (fail_if (not (is_target target.kind)) not_namespace
        >> fail_if (is_invalid_scope target) invalid_target)

-- policyScopeAppliesTo
abbrev pub policy_scope_applies : ScopeKind → Scope → Scope → Bool
policy_scope_applies installation scope target = true
policy_scope_applies project_scope scope target = text_eq scope.project target.project
policy_scope_applies namespace_scope scope target =
    is_target target.kind
    && text_eq scope.project target.project
    && text_eq scope.namespace target.namespace
policy_scope_applies unknown_scope scope target = false

-- validateEffectiveQuotaPolicy
abbrev pub validate_effective_policy : EffectivePolicy → Scope → Result QuotaError (Unit {0})
validate_effective_policy policy target = elim (get_last? policy.applied) [
  | none ↦ err not_applicable
  | some ref ↦
      fail_if (not (policy_scope_applies ref.scope.kind ref.scope target)) not_applicable
      >> fail_if (ltb (2 ^ 63 - 1) ref.version) version_range
]

abbrev out_of_range : Counters → Bool
out_of_range c =
    ltb (2 ^ 63 - 1) c.concurrent || ltb (2 ^ 63 - 1) c.queued || ltb (2 ^ 63 - 1) c.retained

-- validateUsageForDatabase
abbrev pub validate_usage : Usage → Result QuotaError (Unit {0})
validate_usage u =
    fail_if (out_of_range u.global || out_of_range u.project || out_of_range u.namespace)
      demand_range

-- concurrentDemand, queuedDemand and retainedDemand.
abbrev pub concurrent_demand : Usage → Usage
concurrent_demand u = record {
  global = record { concurrent = 1; queued = 0; retained = u.global.retained };
  project = record { concurrent = 1; queued = 0; retained = u.project.retained };
  namespace = record { concurrent = 1; queued = 0; retained = u.namespace.retained };
}

abbrev pub queued_demand : Usage → Usage
queued_demand u = record {
  global = record { concurrent = 0; queued = 1; retained = u.global.retained };
  project = record { concurrent = 0; queued = 1; retained = u.project.retained };
  namespace = record { concurrent = 0; queued = 1; retained = u.namespace.retained };
}

abbrev pub retained_demand : Usage → Usage
retained_demand u = record {
  global = record { concurrent = 0; queued = 0; retained = u.global.retained };
  project = record { concurrent = 0; queued = 0; retained = u.project.retained };
  namespace = record { concurrent = 0; queued = 0; retained = u.namespace.retained };
}

-- The checked sums, with their error.
abbrev pub lift_counters : Result CounterError Usage → Result QuotaError Usage
lift_counters (ok u) = ok u
lift_counters (err e) = err (counters e)

abbrev pub lift {ℓ} : {A : Type ℓ} → Result ReservationError A → Result QuotaError A
lift (ok a) = ok a
lift (err e) = err (refused e)
