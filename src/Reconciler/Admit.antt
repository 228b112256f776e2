-- ===== src/Reconciler/Admit.antt =====
-- internal/reconciler/reconciler.go: admit, with nothing between its calls, over the tables of one installation and that of the
-- mutations.
use kube_queue.Common.{
  ℕ, Bool, true, false, not, if◌then◌else◌, Text, is_empty, codes, List, Option, none, some, ok,
  err,
}
use kube_queue.Domain.Lifecycle.{paused, pending, state_eq, managed}
use kube_queue.Leadership.Lease
use kube_queue.Leadership.Lease.{Authority}
use kube_queue.Leadership.Manager.{Failure}
use kube_queue.Leadership.Mutation
use kube_queue.Persistence.Mutations.{StoreError}
use kube_queue.Persistence.Mutations.Table.{Row}
use kube_queue.Persistence.Policies.{PolicyTableError}
use kube_queue.Persistence.Quotas.{QuotaError}
use kube_queue.Persistence.Jobs.{get_job, JobError}
use kube_queue.Persistence.Jobs.Calls.{Observation, Saved, set_observed}
use kube_queue.Persistence.Admission.{Database}
use kube_queue.Persistence.Admission.Checks.{AdmissionError, admission_conflict, quota_error}
use kube_queue.Reconciler.{RuntimeJob, mutation_request}
use kube_queue.Reconciler.Commands.{
  Readings, CommandError, observation_missing, store_error, fence_rejected, not_completed,
  uncertain, Effect, mutate_kubernetes,
}

-- The tables, and how many calls were made.
pub record Site : Type 0 where
  pub db : Database
  pub mutations : List Row
  pub tick : ℕ

pub data SiteError : Type 0 where
  admission_failed : AdmissionError → SiteError
  policy_failed : PolicyTableError → SiteError
  fence_failed : Failure → SiteError
  job_failed : JobError → SiteError
  command_error : CommandError → SiteError
  project_missing listing_failed : SiteError

-- errors.Is with one of the errors of isLeadershipError.
abbrev is_lease_error : Lease.Error → Bool
is_lease_error Lease.leadership_lost = true
is_lease_error Lease.leadership_paused = true
is_lease_error Lease.stale_generation = true
is_lease_error Lease.not_lease_holder = true
is_lease_error Lease.lease_expired = true
is_lease_error _ = false

abbrev is_fence_failure : Failure → Bool
is_fence_failure (Failure.refused e) = is_lease_error e
is_fence_failure _ = false

abbrev is_store_failure : StoreError → Bool
is_store_failure (StoreError.lease_unreadable f) = is_fence_failure f
is_store_failure (StoreError.unauthorized e) = is_lease_error e
is_store_failure (StoreError.rejected Mutation.stale_generation) = true
is_store_failure (StoreError.rejected Mutation.observation_needed) = true
is_store_failure _ = false

abbrev is_join_failure : Option StoreError → Bool
is_join_failure none = false
is_join_failure (some e) = is_store_failure e

-- isLeadershipError, or errors.Is(err, leadership.ErrObservationRequired), of an error of admit.
unfoldable pub is_fatal_error : SiteError → Bool
is_fatal_error (command_error observation_missing) = true
is_fatal_error (command_error (uncertain e)) = true
is_fatal_error (command_error (store_error e)) = is_store_failure e
is_fatal_error (command_error (not_completed r e)) = is_store_failure e
is_fatal_error (command_error (fence_rejected f e)) =
    if is_fence_failure f then true else is_join_failure e
is_fatal_error (fence_failed f) = is_fence_failure f
is_fatal_error _ = false

-- errors.Is(err, ports.ErrConflict), of an error of CommitRuntimeAdmission.
unfoldable pub is_conflict_error : SiteError → Bool
is_conflict_error (admission_failed admission_conflict) = true
is_conflict_error (admission_failed (quota_error QuotaError.conflict)) = true
is_conflict_error _ = false

-- What one admit reads: for its two commands, and the job that Kubernetes gives back as created.
pub record AdmitReadings : Type 0 where
  pub create : Readings
  pub resume : Readings
  pub created_uid : Text
  pub created_version : Text

abbrev pub Admitted : Type 0
Admitted = Option SiteError × Site

abbrev as_command : Option CommandError → Option SiteError
as_command none = none
as_command (some e) = some (command_error e)

abbrev pub commanded : Site → Effect → Admitted
commanded site effect = (as_command effect.error, record site { mutations = effect.table })

-- The fields of `created`, the zero Job where the command was not sent.
abbrev pub created_field : Bool → Text → Text
created_field true value = value
created_field false value = codes ""

module _ (seen : Option ℕ) (a : Authority) (rs : AdmitReadings) where
  -- The resume, and the flag effectPresent.
  abbrev pub resumed : RuntimeJob → Bool → Site → Admitted
  resumed job present site = commanded site (
      mutate_kubernetes rs.resume seen (mutation_request job (codes "resume")) a present
        site.mutations)

  abbrev pub created_observation : RuntimeJob → Bool → Observation
  created_observation job sent = record {
    state = paused;
    uid = created_field sent rs.created_uid;
    resource_version = created_field sent rs.created_version;
    expected_resource_version = job.row.resource_version;
    management = some managed;
    sync_status = some pending;
  }

  abbrev pub after_created : RuntimeJob → Site → Saved → Admitted
  after_created job site (err e) = (some (job_failed e), site)
  after_created job site (ok store) =
      resumed job false (record site { db = record site.db { store = store } })

  abbrev pub after_create : RuntimeJob → Site → Effect → Option CommandError → Admitted
  after_create job site effect (some e) =
      (some (command_error e), record site { mutations = effect.table })
  after_create job site effect none =
      let next = record site { mutations = effect.table } in
      after_created job next (
        set_observed (get_job job.row.id site.db.store.jobs) job.row.id
          (created_observation job effect.sent) site.db.store)

  abbrev pub admitted_by : RuntimeJob → Site → Bool → Admitted
  admitted_by job site true =
      let effect =
        mutate_kubernetes rs.create seen (mutation_request job (codes "create")) a false
          site.mutations in
      after_create job site effect effect.error
  admitted_by job site false = resumed job (not (state_eq job.row.seen paused)) site

  -- admit
  unfoldable pub admit_job : RuntimeJob → Site → Admitted
  admit_job job site = admitted_by job site (is_empty job.row.kubernetes_uid)
