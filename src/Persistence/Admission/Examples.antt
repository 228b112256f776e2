-- ===== src/Persistence/Admission/Examples.antt =====
-- One job that is admitted, over concrete tables.
use kube_queue.Common.{
  ◌≡◌, inr, refl, false, codes, List, [], ◌∷◌, none, some, pos, Result, ok, err, text_eq,
  trim_space, itoa, byte_length, digits, is_listed,
}
use kube_queue.Domain.Lifecycle.{queued, created, cancelled, managed, synced}
use kube_queue.Leadership.Lease.{Authority, authorize}
use kube_queue.Scheduler.Input.{standard, State}
use kube_queue.Scheduler.Select.{set_deficit}
use kube_queue.Quota.Counters.{Counters, add, release, add_counters, release_counters}
use kube_queue.Quota.Rules.{EffectivePolicy}
use kube_queue.Quota.Counters.Laws.{no_usage}
use kube_queue.Quota.Reservation.{
  ReservationRequest, ReservationDecision, decide_reservation, first_rejection, first_failing,
  quota_checks, mark_reserved,
}
use kube_queue.Persistence.Leases.{leadership_lease}
use kube_queue.Persistence.Scopes.{length_prefixed}
use kube_queue.Persistence.Quotas.{
  Tables, target_of, counters_of, set_counters, quota_reservation, reservation_by_job,
  update_reservation,
}
use kube_queue.Persistence.Quotas.Calls.{reserve_quota, admit_job_quota}
use kube_queue.Persistence.Quotas.Balance.{IsExact}
use kube_queue.Persistence.Quotas.History.{
  reserve, perform_all, perform_all-IsExact, no_tables, no_tables-IsExact,
}
use kube_queue.Persistence.Policies.{current_policy, find_policy}
use kube_queue.Persistence.Policies.Examples.{everywhere, rules_of, first_rows}
use kube_queue.Persistence.Jobs.{JobRow, get_job}
use kube_queue.Persistence.Jobs.Claims.{claim_of}
use kube_queue.Persistence.Jobs.Rows.{IsCancelled}
use kube_queue.Persistence.Jobs.History.{desire, report_error}
use kube_queue.Persistence.Admission.Checks.{
  AdmissionError, has_deficit, exceeds_range, validate_scheduling_commit,
}
use kube_queue.Persistence.Admission.{
  Database, RuntimeAdmissionRequest, RuntimeAdmission, is_outdated, knows_projects, write_deficits,
  commit_fairness_state, has_decision, commit_runtime_admission,
}
use kube_queue.Persistence.Admission.Outcome.{
  IsCommitted, commit_runtime_admission-IsCommitted, commit_runtime_admission_once,
}
use kube_queue.Persistence.Admission.History.{
  DatabaseCall, on_job, admission, abandon, claim_next, applied_all, applied_all-IsExact,
  applied_all-IsCancelled,
}

abbrev pub effective : EffectivePolicy
effective = record { applied = everywhere.ref ∷ []; rules = rules_of 10 }

abbrev one_waits : Counters
one_waits = record { concurrent = 0; queued = 1; retained = 1 }

abbrev wanted : ReservationRequest
wanted = record {
  idempotency_key = codes "k";
  job_id = codes "j";
  demand = record { global = one_waits; project = one_waits; namespace = one_waits };
}

abbrev pub held : Tables
held =
    perform_all (codes "i") (reserve (target_of (codes "x") (codes "n")) effective wanted ∷ [])
      no_tables

pub held-IsExact : IsExact held
held-IsExact =
    perform_all-IsExact (codes "i")
      (reserve (target_of (codes "x") (codes "n")) effective wanted ∷ []) no_tables (tt, tt)
      no_tables-IsExact

abbrev pub waiting : JobRow
waiting = record {
  id = codes "j";
  desired = queued;
  seen = created;
  management = managed;
  sync_status = synced;
  priority = pos 0;
  position = pos 1;
  scheduled_for = none;
  kubernetes_uid = codes "";
  resource_version = codes "7";
  pending_action = none;
  reconcile_retries = 0;
  next_reconcile_at = none;
  archived_at = none;
  version = 1;
  created_at = 10;
}

abbrev pub stopped : JobRow
stopped = record waiting { id = codes "s"; desired = cancelled }

abbrev pub leader : Authority
leader = record { holder = codes "w"; generation = 4; valid_until = 1000 }

abbrev pub tables : Database
tables = record {
  lease = some (record { holder = codes "w"; generation = 4; expires_at = 1000 });
  policies = first_rows;
  store = record {
    jobs = waiting ∷ stopped ∷ [];
    queue_version = 4;
    claims = [];
    events = [];
    quota = held;
  };
  cursor = none;
  deficits = [];
  projects = codes "x" ∷ [];
  decisions = [];
}

abbrev next : State
next = record { next_project_id = codes "x"; deficits = (codes "x", 0) ∷ [] }

abbrev request : RuntimeAdmissionRequest
request = record {
  authority = leader;
  expected_version = 0;
  next = next;
  decision = record {
    id = codes "d";
    installation_id = codes "i";
    policy = everywhere.ref;
    scheduling = record {
      project_id = codes "x";
      job_id = codes "j";
      applied_policy_version = codes "i:1";
      basis = record {
        lane = standard;
        project_weight = 1;
        deficit_before = 1;
        deficit_after = 0;
        base_priority = pos 0;
        age = 0;
        aging_step = pos 1;
        effective_priority = pos 0;
        emergency_requested = false;
        emergency_authorized = false;
        emergency_authorization = codes "";
      };
    };
    quota_reservation_key = codes "";
    decided_by = codes "w:generation:4";
  };
  policy = effective;
  claim_ttl = pos 15;
  rejection_retry = pos 2;
}

abbrev ok_or {ℓ κ} : {E : Type ℓ} {A : Type κ} → A → Result E A → A
ok_or other (ok a) = a
ok_or other (err e) = other

abbrev none_decided : ReservationDecision
none_decided = record {
  accepted = false;
  usage = no_usage;
  reservation = none;
  rejection = none;
  replay = false;
}

abbrev admitted : RuntimeAdmission × Database
admitted =
    ok_or (record { version = 0; state = next; quota = none_decided }, tables)
      (commit_runtime_admission (codes "i") request 20 tables)

admitted_runs : commit_runtime_admission (codes "i") request 20 tables ≡ ok (admitted.0, admitted.1)
unfolding commit_runtime_admission validate_scheduling_commit has_deficit exceeds_range text_eq
    trim_space is_outdated current_policy find_policy authorize get_job claim_of
    commit_fairness_state knows_projects is_listed write_deficits set_deficit admit_job_quota
    perform_all reserve_quota decide_reservation first_rejection first_failing quota_checks
    mark_reserved add release counters_of set_counters quota_reservation reservation_by_job
    update_reservation length_prefixed itoa digits byte_length add_counters release_counters
    has_decision leadership_lease
admitted_runs = refl

commit_runtime_admission-IsCommitted_example : IsCommitted request 20 tables admitted.0 admitted.1
commit_runtime_admission-IsCommitted_example =
    commit_runtime_admission-IsCommitted (codes "i") request 20 tables admitted.0 admitted.1
      admitted_runs

commit_runtime_admission_once_example :
    (reason : AdmissionError) × (commit_runtime_admission (codes "i") request 25 admitted.1
      ≡ err reason)
commit_runtime_admission_once_example =
    commit_runtime_admission_once (codes "i") request request 20 25 tables admitted.1 admitted.0
      refl admitted_runs

abbrev calls : List DatabaseCall
calls =
    claim_next (codes "old") 1 5 (pos 4)
    ∷ admission (codes "i") request 20
    ∷ abandon leader (codes "j") 30
    ∷ on_job (desire (some stopped) (codes "s") cancelled)
    ∷ on_job (report_error (codes "j") (codes "7") 90)
    ∷ []

applied_all-IsExact_example : IsExact (applied_all calls tables).store.quota
applied_all-IsExact_example = applied_all-IsExact calls tables held-IsExact

pub stopped-IsCancelled : IsCancelled (codes "s") tables.store.jobs
unfolding get_job text_eq
stopped-IsCancelled = refl

applied_all-IsCancelled_example : IsCancelled (codes "s") (applied_all calls tables).store.jobs
applied_all-IsCancelled_example =
    applied_all-IsCancelled calls tables (codes "s") (tt, (tt, (tt, (inr refl, (tt, tt)))))
      stopped-IsCancelled
