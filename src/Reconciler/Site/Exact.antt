-- ===== src/Reconciler/Site/Exact.antt =====
-- internal/reconciler/reconciler.go: what a whole pass of schedule keeps of the tables.
use kube_queue.Common.{
  ℕ, ◌+◌, ◌≡◌, refl, subst, Bool, true, false, Text, List, Option, none, some, Result, ok, err,
  is_empty, codes,
}
use kube_queue.Leadership.Lease.{Authority}
use kube_queue.Persistence.Quotas.Balance.{IsExact}
use kube_queue.Persistence.Jobs.{get_job, Store}
use kube_queue.Persistence.Jobs.Calls.{Saved, set_observed}
use kube_queue.Persistence.Jobs.Rows.{IsCancelled}
use kube_queue.Persistence.Jobs.Steps.{Advances, Done, unchanged}
use kube_queue.Persistence.Jobs.Advances.{set_observed-Advances, record_reconcile_error-Advances}
use kube_queue.Persistence.Jobs.Claims.{claim_eligible}
use kube_queue.Persistence.Admission.{
  Database, RuntimeAdmission, commit_runtime_admission, abandon_runtime_admission,
}
use kube_queue.Persistence.Admission.Checks.{AdmissionError}
use kube_queue.Persistence.Admission.History.{
  commit_runtime_admission-Advances, abandon_runtime_admission-Advances,
}
use kube_queue.Reconciler.{RuntimeJob, retry_delay, mutation_request}
use kube_queue.Persistence.Jobs.Marks.{record_reconcile_error}
use kube_queue.Reconciler.Fair.Kept.{Stable}
use kube_queue.Reconciler.Commands.{CommandError, Effect, mutate_kubernetes}
use kube_queue.Reconciler.Admit.{
  Site, SiteError, AdmitReadings, admit_job, admitted_by, after_create, after_created,
  created_observation,
}
use kube_queue.Reconciler.Schedule.{Capacity, Report, schedule}
use kube_queue.Reconciler.Schedule.Kept.{Reported, schedule-Reported}
use kube_queue.Reconciler.Site.{
  Outside, site_services, committed_on, abandoned_on, recorded_on, ticked,
}

Advances-trans : (s t u : Store) → Advances s t → Advances t u → Advances s u
Advances-trans s t u first rest = record {
  quota = λ v. rest.quota (first.quota v);
  ended = λ id c. rest.ended id (first.ended id c);
}

committed_on-Advances :
    (site : Site) (r : Result AdmissionError (RuntimeAdmission × Database))
    → ((a : RuntimeAdmission) (db : Database) → r ≡ ok (a, db) → Advances site.db.store db.store)
    → Advances site.db.store (committed_on site r).1.db.store
committed_on-Advances site (ok (a, db)) h = h a db refl
committed_on-Advances site (err e) h = unchanged site.db.store

abandoned_on-Advances :
    (site : Site) (r : Result AdmissionError Database)
    → ((db : Database) → r ≡ ok db → Advances site.db.store db.store)
    → Advances site.db.store (abandoned_on site r).1.db.store
abandoned_on-Advances site (ok db) h = h db refl
abandoned_on-Advances site (err e) h = unchanged site.db.store

recorded_on-Advances :
    (site : Site) (r : Saved)
    → Done (Advances site.db.store) r
    → Advances site.db.store (recorded_on site r).1.db.store
recorded_on-Advances site (ok t) d = d
recorded_on-Advances site (err e) d = unchanged site.db.store

module _ (seen : Option ℕ) (a : Authority) (rs : AdmitReadings) (job : RuntimeJob) where
  after_created-Advances :
      (site : Site) (r : Saved)
      → Done (Advances site.db.store) r
      → Advances site.db.store (after_created seen a rs job site r).1.db.store
  after_created-Advances site (ok t) d = d
  after_created-Advances site (err e) d = unchanged site.db.store

  after_create-Advances :
      (site : Site) (effect : Effect) (e : Option CommandError)
      → Advances site.db.store (after_create seen a rs job site effect e).1.db.store
  after_create-Advances site effect (some e) = unchanged site.db.store
  after_create-Advances site effect none =
      let seen_as = created_observation seen a rs job effect.sent in
      after_created-Advances (record site { mutations = effect.table })
        (set_observed (get_job job.row.id site.db.store.jobs) job.row.id seen_as site.db.store)
        (set_observed-Advances (get_job job.row.id site.db.store.jobs) job.row.id seen_as
          site.db.store)

  admitted_by-Advances :
      (site : Site) (fresh : Bool)
      → Advances site.db.store (admitted_by seen a rs job site fresh).1.db.store
  admitted_by-Advances site true =
      let effect =
        mutate_kubernetes rs.create seen (mutation_request job (codes "create")) a false
          site.mutations in
      after_create-Advances site effect effect.error
  admitted_by-Advances site false = unchanged site.db.store

  admit_job-Advances :
      (site : Site) → Advances site.db.store (admit_job seen a rs job site).1.db.store
  unfolding admit_job
  admit_job-Advances site = admitted_by-Advances site (is_empty job.row.kubernetes_uid)

module _ (outside : Outside) (a : Authority) (installation_id lease_holder : Text)
    (start : Store) where
  -- What the pass has made of the tables that it started from.
  abbrev pub Since : Site → Type 0
  Since w = Advances start w.db.store

  since : (w : Site) (next : Store) → Advances w.db.store next → Since w → Advances start next
  since w next step i = Advances-trans start w.db.store next i step

  stable : Stable (site_services outside a installation_id lease_holder) Since
  unfolding claim_eligible
  stable = record {
    scheduling_candidates = λ w i. i;
    fairness_state = λ ids w i. i;
    policy_hierarchy = λ s w i. i;
    revalidate = λ w i. i;
    decision_id = λ w i. i;
    commit = λ id r w i.
        let answer = commit_runtime_admission id r (outside.now w.tick) w.db in
        since w _
          (committed_on-Advances (ticked w) answer
            (commit_runtime_admission-Advances id r (outside.now w.tick) w.db))
          i;
    admit = λ j w i.
        since w _ (admit_job-Advances outside.seen a (outside.admit_readings w.tick) j (ticked w))
          i;
    abandon = λ id w i.
        let answer = abandon_runtime_admission a id (outside.now w.tick) w.db in
        since w _
          (abandoned_on-Advances (ticked w) answer
            (abandon_runtime_admission-Advances a id (outside.now w.tick) w.db))
          i;
    claim_eligible = λ n w i. record { quota = λ v. i.quota v; ended = λ id c. i.ended id c };
    release_claim = λ id w i. record { quota = λ v. i.quota v; ended = λ k c. i.ended k c };
    record_error = λ j e w i.
        let retry = outside.now w.tick + retry_delay j.row.reconcile_retries in
        since w _
          (recorded_on-Advances (ticked w)
            (record_reconcile_error j.row.id j.row.resource_version retry w.db.store)
            (record_reconcile_error-Advances j.row.id j.row.resource_version retry w.db.store))
          i;
  }

-- A whole pass of schedule keeps the quota counters exact and every cancelled job cancelled, whatever
-- the clock, the leadership, Kubernetes and the listing of candidates answer at each of its calls.
pub schedule-IsExact :
    (outside : Outside) (a : Authority) (installation_id lease_holder : Text) (capacity : Capacity)
    (jobs : List RuntimeJob) (site : Site) (r : Report Site SiteError) (id : Text)
    → schedule (site_services outside a installation_id lease_holder) capacity a jobs site ≡ some r
    → IsExact site.db.store.quota
    → IsCancelled id site.db.store.jobs
    → IsExact r.world.db.store.quota × IsCancelled id r.world.db.store.jobs
schedule-IsExact outside a installation_id lease_holder capacity jobs site r id e v c =
    let services = site_services outside a installation_id lease_holder in
    let I = Since outside a installation_id lease_holder site.db.store in
    let keeps = stable outside a installation_id lease_holder site.db.store in
    let done : Advances site.db.store r.world.db.store =
      subst (Reported services I keeps capacity a) e
        (schedule-Reported services I keeps capacity a jobs site (unchanged site.db.store)) in
    (done.quota v, done.ended id c)
