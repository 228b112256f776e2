-- ===== src/Reconciler/Site.antt =====
-- internal/reconciler/reconciler.go: the calls of schedule on the tables of one installation. What the
-- clock, new identifiers, the leadership and Kubernetes answer at each call, and what
-- SchedulingCandidates lists, are functions of the count of the calls.
pub mod Exact
use kube_queue.Common.{
  ℕ, suc, ◌+◌, ◌*◌, ◌^◌, pos, Bool, true, false, Text, List, [], ◌∷◌, map, Option, none, some,
  Result, ok, err,
}
use kube_queue.Leadership.Lease.{Authority}
use kube_queue.Leadership.Manager.{Failure}
use kube_queue.Quota.Rules
use kube_queue.Quota.Rules.{Scope}
use kube_queue.Persistence.Policies.{PolicyTableError, policy_hierarchy}
use kube_queue.Persistence.Jobs.{JobRow, Store}
use kube_queue.Persistence.Jobs.Calls.{Saved}
use kube_queue.Persistence.Jobs.Marks.{record_reconcile_error}
use kube_queue.Persistence.Jobs.Claims.{claim_eligible, release_claims}
use kube_queue.Persistence.Admission.{
  Database, RuntimeAdmissionRequest, RuntimeAdmission, commit_runtime_admission,
  abandon_runtime_admission,
}
use kube_queue.Persistence.Admission.Checks.{AdmissionError}
use kube_queue.Persistence.Admission.Fairness.{FairnessError, fairness_state}
use kube_queue.Reconciler.{RuntimeJob, SchedulingProject, retry_delay}
use kube_queue.Reconciler.Fair.{Services}
use kube_queue.Reconciler.Admit.{
  Site, SiteError, admission_failed, policy_failed, fence_failed, job_failed, project_missing,
  AdmitReadings, admit_job, is_fatal_error, is_conflict_error,
}

pub record Outside : Type 0 where
  pub now : ℕ → ℕ
  pub candidates : ℕ → Result SiteError (List SchedulingProject)
  pub revalidated : ℕ → Option Failure
  pub decision_id : ℕ → Text
  pub admit_readings : ℕ → AdmitReadings
  -- r.observedAt
  pub seen : Option ℕ
  -- The columns of a job that its row leaves out.
  pub runtime_job : JobRow → RuntimeJob

abbrev pub ticked : Site → Site
ticked site = record site { tick = suc site.tick }

abbrev pub with_db : Site → Database → Site
with_db site db = record site { db = db }

abbrev pub with_store : Site → Store → Site
with_store site store = record site { db = record site.db { store = store } }

abbrev pub committed_on :
    Site
    → Result AdmissionError (RuntimeAdmission × Database)
    → Result SiteError RuntimeAdmission × Site
committed_on site (ok (a, db)) = (ok a, with_db site db)
committed_on site (err e) = (err (admission_failed e), site)

abbrev pub abandoned_on : Site → Result AdmissionError Database → Option SiteError × Site
abandoned_on site (ok db) = (none, with_db site db)
abandoned_on site (err e) = (some (admission_failed e), site)

abbrev pub recorded_on : Site → Saved → Option SiteError × Site
recorded_on site (ok store) = (none, with_store site store)
recorded_on site (err e) = (some (job_failed e), site)

abbrev of_fairness {ℓ} : {A : Type ℓ} → Result FairnessError A → Result SiteError A
of_fairness (ok a) = ok a
of_fairness (err e) = err project_missing

abbrev of_policy {ℓ} : {A : Type ℓ} → Result PolicyTableError A → Result SiteError A
of_policy (ok a) = ok a
of_policy (err e) = err (policy_failed e)

abbrev of_fence : Option Failure → Option SiteError
of_fence none = none
of_fence (some f) = some (fence_failed f)

abbrev pub site_services : Outside → Authority → Text → Text → Services Site SiteError
site_services outside a installation_id lease_holder = record {
  scheduling_candidates = λ w. (outside.candidates w.tick, ticked w);
  fairness_state = λ ids w. (of_fairness (fairness_state installation_id ids w.db), ticked w);
  policy_hierarchy = λ scope w. (of_policy (policy_hierarchy scope w.db.policies), ticked w);
  revalidate = λ w. (of_fence (outside.revalidated w.tick), ticked w);
  decision_id = λ w. (outside.decision_id w.tick, ticked w);
  commit = λ id request w.
      committed_on (ticked w) (commit_runtime_admission id request (outside.now w.tick) w.db);
  admit = λ job w. admit_job outside.seen a (outside.admit_readings w.tick) job (ticked w);
  abandon =
      λ id w. abandoned_on (ticked w) (abandon_runtime_admission a id (outside.now w.tick) w.db);
  claim_eligible = λ limit w.
      let claimed =
        claim_eligible lease_holder limit (outside.now w.tick) (pos (60 * 10 ^ 9)) w.db.store in
      (ok (map outside.runtime_job claimed.0), with_store (ticked w) claimed.1);
  release_claim = λ id w. (
    none,
    with_store (ticked w)
        (record w.db.store { claims = release_claims id lease_holder w.db.store.claims }),
  );
  record_error = λ job e w. recorded_on (ticked w) (
      record_reconcile_error job.row.id job.row.resource_version
        (outside.now w.tick + retry_delay job.row.reconcile_retries) w.db.store);
  is_conflict = λ e. is_conflict_error e;
  is_fatal = λ e. is_fatal_error e;
}
