-- ===== src/Reconciler/Examples.antt =====
-- One pass over concrete tables, and commands at concrete answers.
use kube_queue.Common.{
  pos, ◌-◌, ◌≡◌, refl, arith, inl, true, false, codes, Text, text_eq, [], ◌∷◌, none, some, ok,
  trim_space, is_space, trim_left,
}
use kube_queue.Leadership.Lease.{authorize}
use kube_queue.Leadership.Mutation.{in_flight, begin, complete}
use kube_queue.Scheduler.Input.{standard}
use kube_queue.Persistence.Quotas.Balance.{IsExact}
use kube_queue.Persistence.Leases.{leadership_lease}
use kube_queue.Persistence.Mutations.{is_invalid_request, begin_mutation, complete_mutation}
use kube_queue.Persistence.Mutations.Table.{
  MutationRequest, MutationRecord, Row, read_mutation, read_row, write_mutation, keyed,
  parse_mutation_state, mutation_state_text, bounded_mutation_value,
}
use kube_queue.Persistence.Jobs.Rows.{IsCancelled}
use kube_queue.Persistence.Admission.Examples.{
  tables, waiting, leader, held-IsExact, stopped-IsCancelled,
}
use kube_queue.Reconciler.{RuntimeJob, SchedulingProject, running_in, running_jobs}
use kube_queue.Reconciler.Commands.{Readings, mutate_kubernetes}
use kube_queue.Reconciler.Commands.Once.{Unsent, mutate_kubernetes_once, mutate_kubernetes-blind}
use kube_queue.Reconciler.Legacy.{schedule_legacy}
use kube_queue.Reconciler.Legacy.Bounded.{logged, IsBounded, schedule_legacy-IsBounded}
use kube_queue.Reconciler.Admit.{Site, SiteError}
use kube_queue.Reconciler.Schedule.{Capacity, Report, schedule}
use kube_queue.Reconciler.Schedule.Returns.{Returns, schedule-Returns}
use kube_queue.Reconciler.Site.{Outside, site_services}
use kube_queue.Reconciler.Site.Exact.{schedule-IsExact}

abbrev readings : Readings
readings = record {
  lease = some (record { holder = codes "w"; generation = 4; expires_at = 1000 });
  started_at = 20;
  attempt = codes "a1";
  observed_lease = none;
  observed_at = 21;
  again_lease = none;
  again_at = 22;
  again_attempt = codes "a2";
  revalidated = none;
  reply = none;
  completed_at = 23;
}

abbrev job : RuntimeJob
job = record { row = waiting; project_id = codes "x"; namespace = codes "n"; attempt = 1 }

abbrev resume : MutationRequest
resume = record {
  operation = codes "resume";
  job_id = codes "j";
  attempt_identity = codes "attempt:1";
  request_identity = codes "version:1";
}

abbrev row_in : Text → Row
row_in state = record {
  request = resume;
  attempt_id = codes "a1";
  generation = pos 4;
  state = state;
  error_class = codes "";
  started_at = 20;
  updated_at = 23;
  observed_at = none;
}

resume_runs :
    mutate_kubernetes readings none resume leader false []
    ≡ record { table = row_in (codes "SUCCEEDED") ∷ []; sent = true; error = none }
unfolding mutate_kubernetes begin_mutation complete_mutation read_mutation read_row write_mutation
    parse_mutation_state mutation_state_text bounded_mutation_value leadership_lease authorize begin
    complete text_eq trim_space is_space trim_left keyed is_invalid_request
resume_runs = refl

mutate_kubernetes_once_example :
    Unsent
      (row_in (codes "SUCCEEDED") ∷ [])
      (mutate_kubernetes readings (some 30) resume leader false (row_in (codes "SUCCEEDED") ∷ []))
mutate_kubernetes_once_example =
    mutate_kubernetes_once readings readings none (some 30) resume leader leader false false []
      (row_in (codes "SUCCEEDED") ∷ []) resume_runs

abbrev uncertain_record : MutationRecord
uncertain_record = record {
  mutation = record { state = in_flight; generation = 4 };
  request = resume;
  attempt_id = codes "a1";
  error_class = codes "";
  started_at = 20;
  updated_at = 23;
  observed_at = none;
}

in_flight_read : read_mutation (row_in (codes "IN_FLIGHT") ∷ []) resume ≡ ok uncertain_record
unfolding read_mutation read_row parse_mutation_state text_eq
in_flight_read = refl

mutate_kubernetes-blind_example :
    (mutate_kubernetes readings
      (some 20)
      resume
      leader
      false
      (row_in (codes "IN_FLIGHT") ∷ [])).sent
    ≡ false
mutate_kubernetes-blind_example =
    mutate_kubernetes-blind readings (some 20) resume leader false (row_in (codes "IN_FLIGHT") ∷ [])
      uncertain_record in_flight_read (inl refl) refl

abbrev project : SchedulingProject
project = record {
  installation_id = codes "i";
  project_id = codes "x";
  weight = 1;
  candidates =
      record {
        job = job;
        age = 0;
        lane = standard;
        emergency_requested = false;
        emergency_authorized = false;
        emergency_authorization = codes "";
      }
      ∷ [];
}

abbrev outside : Outside
outside = record {
  now = λ tick. 20;
  candidates = λ tick. ok (project ∷ []);
  revalidated = λ tick. none;
  decision_id = λ tick. codes "d";
  admit_readings = λ tick. record {
    create = readings;
    resume = readings;
    created_uid = codes "u";
    created_version = codes "8";
  };
  seen = some 30;
  runtime_job =
      λ row. record { row = row; project_id = codes "x"; namespace = codes "n"; attempt = 1 };
}

abbrev site : Site
site = record { db = tables; mutations = []; tick = 0 }

abbrev capacity : Capacity
capacity = record { global_limit = 2; namespace_limit = 1 }

schedule-Returns_example : Returns (2 - running_jobs (job ∷ [])) (
    schedule (site_services outside leader (codes "i") (codes "w")) capacity leader (job ∷ []) site)
schedule-Returns_example =
    schedule-Returns (site_services outside leader (codes "i") (codes "w")) capacity leader
      (job ∷ []) site

abbrev report : Report Site SiteError
report =
    (schedule-Returns (site_services outside leader (codes "i") (codes "w")) capacity leader
      (job ∷ []) site).0

schedule-IsExact_example :
    IsExact report.world.db.store.quota × IsCancelled (codes "s") report.world.db.store.jobs
schedule-IsExact_example =
    schedule-IsExact outside leader (codes "i") (codes "w") capacity (job ∷ []) site report
      (codes "s")
      (schedule-Returns (site_services outside leader (codes "i") (codes "w")) capacity leader
        (job ∷ []) site).1
      held-IsExact stopped-IsCancelled

schedule_legacy-IsBounded_example :
    IsBounded
      (record { available = 1; namespace_limit = 1 })
      (codes "n")
      0
      1
      (schedule_legacy
        (logged (site_services outside leader (codes "i") (codes "w")))
        (record { available = 1; namespace_limit = 1 })
        []
        (site, []))
unfolding running_in
schedule_legacy-IsBounded_example =
    schedule_legacy-IsBounded (site_services outside leader (codes "i") (codes "w"))
      (record { available = 1; namespace_limit = 1 }) (codes "n") 1 [] site (omega arith)
      (omega arith)
