-- ===== src/Persistence/Admission/History.antt =====
-- Any sequence of transactions on jobs, of admissions and of claims.
use kube_queue.Common.{
  All, ℕ, ◌≡◌, ◌⊎◌, refl, sym, ap, subst, ◌∙◌, ℤ, Text, List, [], ◌∷◌, Result, ok, err, >>=-eq-ok,
  >>-eq-ok, ok-injective, add_duration, inl, inr, arith,
}
use kube_queue.Leadership.Lease.{Authority}
use kube_queue.Persistence.Mutations.{authorize_mutation}
use kube_queue.Persistence.Quotas.{Tables, QuotaError}
use kube_queue.Persistence.Quotas.Calls.{requeue_job_quota}
use kube_queue.Persistence.Quotas.Balance.{IsExact}
use kube_queue.Persistence.Quotas.Steps.{Kept, tables_decided}
use kube_queue.Persistence.Quotas.Steps.Admit.{admit_job_quota-Kept}
use kube_queue.Persistence.Quotas.Steps.Requeue.{requeue_job_quota-Kept}
use kube_queue.Persistence.Jobs.Claims.{claim_eligible}
use kube_queue.Persistence.Jobs.Rows.{IsCancelled, update_job-IsCancelled}
use kube_queue.Persistence.Jobs.Steps.{Advances, KeepsDesired, changed_row, unchanged}
use kube_queue.Persistence.Jobs.History.{
  JobCall, saved_or, called, call-KeepsQuota, IsInformed, call-KeepsCancelled,
}
use kube_queue.Persistence.Jobs.Advances.{KeepsQuota, KeepsCancelled}
use kube_queue.Persistence.Admission.Checks.{AdmissionError}
use kube_queue.Persistence.Admission.{
  Database, RuntimeAdmissionRequest, RuntimeAdmission, postponed, authorized, of_quota, job_of,
  commit_runtime_admission, abandon_runtime_admission, retry_after,
}
use kube_queue.Persistence.Admission.Commit.{
  commit_runtime_admission-Steps, commit_fairness_state-parts,
}
use kube_queue.Persistence.Admission.Outcome.{Rejected, Claimed, concluded-Ended}

pub data DatabaseCall : Type 0 where
  on_job : JobCall → DatabaseCall
  admission : Text → RuntimeAdmissionRequest → ℕ → DatabaseCall
  abandon : Authority → Text → ℕ → DatabaseCall
  claim_next : Text → ℕ → ℕ → ℤ → DatabaseCall

abbrev IsDatabase : DatabaseCall → Type 0
IsDatabase (on_job _) = ⊥
IsDatabase _ = Unit {0}

abbrev admitted_or : Database → Result AdmissionError (RuntimeAdmission × Database) → Database
admitted_or db (ok r) = r.1
admitted_or db (err e) = db

abbrev abandoned_or : Database → Result AdmissionError Database → Database
abandoned_or db (ok t) = t
abandoned_or db (err e) = db

-- A transaction that fails is rolled back.
abbrev pub applied : DatabaseCall → Database → Database
applied (on_job call) db = record db { store = saved_or db.store (called call db.store) }
applied (admission installation_id request now) db =
    admitted_or db (commit_runtime_admission installation_id request now db)
applied (abandon authority job now) db =
    abandoned_or db (abandon_runtime_admission authority job now db)
applied (claim_next holder limit now ttl) db = record db {
  store = (claim_eligible holder limit now ttl db.store).1;
}

unfoldable pub applied_all : List DatabaseCall → Database → Database
applied_all [] db = db
applied_all (call ∷ calls) db = applied_all calls (applied call db)

postponed-KeepsDesired : (retry : ℕ) → KeepsDesired (postponed retry)
postponed-KeepsDesired retry j = ground arith

outcome-IsCancelled :
    (request : RuntimeAdmissionRequest) (now : ℕ) (before : Database) (a : RuntimeAdmission)
    (after : Database) (id : Text)
    → Rejected request now before a after ⊎ Claimed request now before a after
    → IsCancelled id before.store.jobs
    → IsCancelled id after.store.jobs
outcome-IsCancelled request now before a after id (inl (_, _, _, same)) c =
    let change = postponed (add_duration now request.rejection_retry) in
    let keeps = postponed-KeepsDesired (add_duration now request.rejection_retry) in
    subst (λ s. IsCancelled id s.jobs) (sym same)
      (update_job-IsCancelled id (job_of request) change before.store.jobs (λ j. (keeps j).0)
        (λ m j d. (keeps j).1 ∙ d) c)
outcome-IsCancelled request now before a after id (inr (_, _, _, same)) c =
    subst (IsCancelled id) (sym same) c

pub commit_runtime_admission-Advances :
    (installation_id : Text) (request : RuntimeAdmissionRequest) (now : ℕ) (db : Database)
    (a : RuntimeAdmission) (after : Database)
    → commit_runtime_admission installation_id request now db ≡ ok (a, after)
    → Advances db.store after.store
commit_runtime_admission-Advances installation_id request now db a after e =
    let steps = commit_runtime_admission-Steps installation_id request now db a after e in
    let (_, _, same) =
      commit_fairness_state-parts request.expected_version request.next db steps.fair
        steps.advanced in
    let before : Database = record steps.fair {
      store = record steps.fair.store { quota = steps.tables };
    } in
    let (_, _, quota, outcome) =
      concluded-Ended request now before steps.decision steps.decision.rejection (a, after) refl
        steps.ended in
    let store : steps.fair.store ≡ db.store = ap (λ x. x.store) same in
    let kept : IsExact db.store.quota → IsExact after.store.quota = λ v. subst IsExact (sym quota) (
      subst (Kept tables_decided) steps.admitted (
        admit_job_quota-Kept (job_of request) request.policy steps.fair.store.quota
          (subst IsExact (sym (ap (λ s. s.quota) store)) v))) in
    record {
      quota = kept;
      ended = λ id c.
          outcome-IsCancelled request now before a after id outcome
            (subst (λ s. IsCancelled id s.jobs) (sym store) c);
    }

requeued-Kept :
    (job : Text) (t after : Tables) → requeue_job_quota job t ≡ ok after → IsExact t → IsExact after
requeued-Kept job t after e v = subst (Kept (λ u. u)) e (requeue_job_quota-Kept job t v)

of_quota-eq-ok : {A : Type 0} (r : Result QuotaError A) (a : A) → of_quota r ≡ ok a → r ≡ ok a
of_quota-eq-ok (ok x) a e = cc e
of_quota-eq-ok (err x) a e = cc e

pub abandon_runtime_admission-Advances :
    (authority : Authority) (job : Text) (now : ℕ) (db after : Database)
    → abandon_runtime_admission authority job now db ≡ ok after
    → Advances db.store after.store
unfolding abandon_runtime_admission
abandon_runtime_admission-Advances authority job now db after e =
    let (_, e1) = >>-eq-ok (authorized (authorize_mutation db.lease authority now)) _ e in
    let (tables, e2, e3) = >>=-eq-ok (of_quota (requeue_job_quota job db.store.quota)) _ e1 in
    let retry = add_duration now retry_after in
    subst (λ x. Advances db.store x.store) (ok-injective e3)
      (changed_row db.store _ job (postponed retry) refl (postponed-KeepsDesired retry)
        (requeued-Kept job db.store.quota tables (of_quota-eq-ok _ tables e2)))

admitted_or-Advances :
    (db : Database) (r : Result AdmissionError (RuntimeAdmission × Database))
    → ((a : RuntimeAdmission) (after : Database)
        → r ≡ ok (a, after)
        → Advances db.store after.store)
    → Advances db.store (admitted_or db r).store
admitted_or-Advances db (ok (a, after)) h = h a after refl
admitted_or-Advances db (err e) h = unchanged db.store

abandoned_or-Advances :
    (db : Database) (r : Result AdmissionError Database)
    → ((after : Database) → r ≡ ok after → Advances db.store after.store)
    → Advances db.store (abandoned_or db r).store
abandoned_or-Advances db (ok after) h = h after refl
abandoned_or-Advances db (err e) h = unchanged db.store

-- What the calls that are not on a job keep.
database-Advances :
    (call : DatabaseCall) (db : Database)
    → IsDatabase call
    → Advances db.store (applied call db).store
unfolding claim_eligible
database-Advances (on_job call) db h = absurd h
database-Advances (admission installation_id request now) db h =
    admitted_or-Advances db _ (commit_runtime_admission-Advances installation_id request now db)
database-Advances (abandon authority job now) db h =
    abandoned_or-Advances db _ (abandon_runtime_admission-Advances authority job now db)
database-Advances (claim_next holder limit now ttl) db h = record {
  quota = λ v. v;
  ended = λ id c. c;
}

applied-KeepsQuota :
    (call : DatabaseCall) (db : Database) → KeepsQuota db.store (applied call db).store
applied-KeepsQuota (on_job call) db = call-KeepsQuota call db.store
applied-KeepsQuota (admission installation_id request now) db =
    (database-Advances (admission installation_id request now) db tt).quota
applied-KeepsQuota (abandon authority job now) db =
    (database-Advances (abandon authority job now) db tt).quota
applied-KeepsQuota (claim_next holder limit now ttl) db =
    (database-Advances (claim_next holder limit now ttl) db tt).quota

-- Where the call is a SetDesiredState of the job, it has read the job as cancelled.
abbrev pub KnowsCancelled : Text → DatabaseCall → Type 0
KnowsCancelled id (on_job call) = IsInformed id call
KnowsCancelled id _ = Unit {0}

applied-KeepsCancelled :
    (id : Text) (call : DatabaseCall) (db : Database)
    → KnowsCancelled id call
    → KeepsCancelled id db.store (applied call db).store
applied-KeepsCancelled id (on_job call) db h = call-KeepsCancelled id call db.store h
applied-KeepsCancelled id (admission installation_id request now) db h =
    (database-Advances (admission installation_id request now) db tt).ended id
applied-KeepsCancelled id (abandon authority job now) db h =
    (database-Advances (abandon authority job now) db tt).ended id
applied-KeepsCancelled id (claim_next holder limit now ttl) db h =
    (database-Advances (claim_next holder limit now ttl) db tt).ended id

-- The quota counters stay exact over any sequence of transactions on one job, admissions, abandoned
-- admissions and claims, whatever SetDesiredState and SetObserved have read before their
-- transactions: each gives back what the reservations hold, and no more.
pub applied_all-IsExact :
    (calls : List DatabaseCall) (db : Database)
    → IsExact db.store.quota
    → IsExact (applied_all calls db).store.quota
unfolding applied_all
applied_all-IsExact [] db v = v
applied_all-IsExact (call ∷ calls) db v =
    applied_all-IsExact calls (applied call db) (applied-KeepsQuota call db v)

-- A job whose desired state is CANCELLED stays in the table and stays cancelled over any sequence of
-- transactions on one job, admissions, abandoned admissions and claims, in which each
-- SetDesiredState of that job read it as cancelled before its transaction. What SetObserved read
-- does not matter.
pub applied_all-IsCancelled :
    (calls : List DatabaseCall) (db : Database) (id : Text)
    → All (KnowsCancelled id) calls
    → IsCancelled id db.store.jobs
    → IsCancelled id (applied_all calls db).store.jobs
unfolding applied_all
applied_all-IsCancelled [] db id h c = c
applied_all-IsCancelled (call ∷ calls) db id (h, hs) c =
    applied_all-IsCancelled calls (applied call db) id hs (applied-KeepsCancelled id call db h c)
