-- ===== src/Persistence/Quotas/Examples.antt =====
-- A job in the quota tables, from its reservation to its archive.
use kube_queue.Common.{
  ℕ, ◌≡◌, refl, subst, true, false, codes, text_eq, trim_space, itoa, byte_length, none, some, ok,
  List, [], ◌∷◌,
}
use kube_queue.Quota.Counters.{Counters, Usage, add, release, add_counters, release_counters}
use kube_queue.Quota.Rules.{Scope, ScopedLimits, EffectivePolicy}
use kube_queue.Quota.Reservation.{
  completed, reserved, new_intent, Reservation, ReservationRequest, ReservationDecision,
  decide_reservation, first_rejection, first_failing, quota_checks, mark_reserved,
  release_reservation,
}
use kube_queue.Quota.Reservation.Limits.{Within}
use kube_queue.Persistence.Scopes.{policy_scope_key, length_prefixed}
use kube_queue.Persistence.Quotas.{
  Row, Tables, installation_scope, project_of, no_counters, counters_of, set_counters, target_of,
  usage_at, quota_reservation, reservation_by_job, update_reservation,
}
use kube_queue.Persistence.Quotas.Calls.{
  reserve_quota, admit_job_quota, requeue_job_quota, release_job_quota, release_retained_job_quota,
}
use kube_queue.Persistence.Quotas.Balance.{IsExact}
use kube_queue.Persistence.Quotas.History.{
  Call, reserve, admit, requeue, finish, archive, perform_all, perform_all-IsExact, no_tables,
  no_tables-IsExact, perform_all-drained,
}
use kube_queue.Persistence.Quotas.Steps.{Kept, tables_decided}
use kube_queue.Persistence.Quotas.Steps.Reserve.{reserve_quota-Kept}
use kube_queue.Persistence.Quotas.Limits.{reserve_quota-Within}
use kube_queue.Persistence.Quotas.Admission.{admit_job_quota-Within}

abbrev target : Scope
target = target_of (codes "x") (codes "n")

abbrev at_most : ℕ → ScopedLimits
at_most n = record { max_concurrent = some n; max_queued = some n; max_retained = some n }

abbrev policy : EffectivePolicy
policy = record {
  applied = record { id = codes "p"; version = 1; scope = target } ∷ [];
  rules = record {
    quotas = record { global = at_most 2; project = at_most 2; namespace = at_most 1 };
    priority = none;
    max_delayed_start = none;
    role_lifecycle_actions = [];
    max_execution_duration = none;
    allowed_image_registries = [];
    has_image_registry_allowlist = false;
  };
}

abbrev one_waits : Counters
one_waits = record { concurrent = 0; queued = 1; retained = 1 }

abbrev request : ReservationRequest
request = record {
  idempotency_key = codes "k";
  job_id = codes "j";
  demand = record { global = one_waits; project = one_waits; namespace = one_waits };
}

abbrev after_reserve : Tables
after_reserve = perform_all (codes "i") (reserve target policy request ∷ []) no_tables

abbrev life : List Call
life =
    reserve target policy request
    ∷ admit (codes "j") policy
    ∷ requeue (codes "j")
    ∷ admit (codes "j") policy
    ∷ finish (codes "j") completed
    ∷ archive (codes "j")
    ∷ []

perform_all-IsExact_example : IsExact (perform_all (codes "i") life no_tables)
perform_all-IsExact_example =
    perform_all-IsExact (codes "i") life no_tables (tt, (tt, (tt, (tt, (tt, (tt, tt))))))
      no_tables-IsExact

perform_all-drained_example :
    counters_of (policy_scope_key target) (perform_all (codes "i") life no_tables).usage
    ≡ no_counters
unfolding perform_all reserve_quota admit_job_quota requeue_job_quota release_job_quota
    release_retained_job_quota decide_reservation first_rejection first_failing quota_checks
    mark_reserved release_reservation add release counters_of set_counters quota_reservation
    reservation_by_job update_reservation text_eq trim_space length_prefixed itoa byte_length
    add_counters release_counters
perform_all-drained_example =
    perform_all-drained (codes "i") life (policy_scope_key target)
      (tt, (tt, (tt, (tt, (tt, (tt, tt)))))) (refl, tt)

abbrev first_intent : Reservation
first_intent = new_intent (record { id = codes "p"; version = 1; scope = target }) request

abbrev decided : ReservationDecision
decided = record {
  accepted = true;
  usage = request.demand;
  reservation = some first_intent;
  rejection = none;
  replay = false;
}

abbrev one_row : Row
one_row = record { reservation = first_intent; project = codes "x"; namespace = codes "n" }

abbrev reserved_once : Tables
reserved_once = record {
  usage =
      (policy_scope_key installation_scope, one_waits)
      ∷ (policy_scope_key (project_of target), one_waits)
      ∷ (policy_scope_key target, one_waits)
      ∷ [];
  reservations = one_row ∷ [];
}

reserve_runs :
    reserve_quota (codes "i") target policy request no_tables ≡ ok (decided, reserved_once)
unfolding reserve_quota decide_reservation first_rejection first_failing quota_checks add
    counters_of set_counters quota_reservation reservation_by_job text_eq trim_space length_prefixed
    itoa byte_length add_counters
reserve_runs = refl

reserve_quota-Within_example : Within policy.rules.quotas (usage_at target reserved_once)
reserve_quota-Within_example =
    reserve_quota-Within (codes "i") target policy request no_tables reserved_once decided
      no_tables-IsExact reserve_runs refl refl

reserved_once-IsExact : IsExact reserved_once
reserved_once-IsExact =
    subst (Kept tables_decided) reserve_runs
      (reserve_quota-Kept (codes "i") target policy request no_tables no_tables-IsExact)

abbrev one_runs : Counters
one_runs = record { concurrent = 1; queued = 0; retained = 1 }

abbrev running : Usage
running = record { global = one_runs; project = one_runs; namespace = one_runs }

abbrev admitted_now : ReservationDecision
admitted_now = record decided {
  usage = running;
  reservation = some (record first_intent { demand = running; state = reserved });
}

abbrev admitted_once : Tables
admitted_once = record {
  usage =
      (policy_scope_key installation_scope, one_runs)
      ∷ (policy_scope_key (project_of target), one_runs)
      ∷ (policy_scope_key target, one_runs)
      ∷ [];
  reservations =
      record one_row { reservation = record first_intent { demand = running; state = reserved } }
      ∷ [];
}

admit_runs : admit_job_quota (codes "j") policy reserved_once ≡ ok (admitted_now, admitted_once)
unfolding admit_job_quota decide_reservation first_rejection first_failing quota_checks add release
    counters_of set_counters quota_reservation reservation_by_job update_reservation text_eq
    length_prefixed itoa byte_length add_counters release_counters mark_reserved
admit_runs = refl

admit_job_quota-Within_example : Within policy.rules.quotas (usage_at target admitted_once)
unfolding reservation_by_job text_eq
admit_job_quota-Within_example =
    admit_job_quota-Within (codes "j") policy reserved_once admitted_once one_row admitted_now
      reserved_once-IsExact refl admit_runs refl refl
