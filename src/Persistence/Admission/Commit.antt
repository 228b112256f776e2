-- ===== src/Persistence/Admission/Commit.antt =====
-- What a committed admission was given, and what it leaves.
use kube_queue.Common.{
  ℕ, ◌+◌, ◌≡◌, refl, pos, leb_ℤ, Bool, true, false, not, ◌||◌, Text, Option, none, some, get_last?,
  ok, err, >>=-eq-ok, >>-eq-ok, fail_if-eq-ok,
}
use kube_queue.Leadership.Lease.{u64}
use kube_queue.Scheduler.Input.{State}
use kube_queue.Quota.Reservation.{ReservationDecision}
use kube_queue.Persistence.Mutations.{StoreError, authorize_mutation}
use kube_queue.Persistence.Quotas.{Tables}
use kube_queue.Persistence.Quotas.Calls.{Decided, admit_job_quota}
use kube_queue.Persistence.Admission.Checks.{
  ttl_not_positive, other_policy, admission_conflict, projects_not_found,
  validate_scheduling_commit,
}
use kube_queue.Persistence.Admission.{
  Database, RuntimeAdmissionRequest, RuntimeAdmission, is_outdated, is_eligible, knows_projects,
  write_deficits, matches_version, commit_fairness_state, authorized, of_quota, job_of, concluded,
  is_other_policy, commit_runtime_admission,
}

-- The steps of a transaction that commits.
pub record Steps (installation_id : Text) (request : RuntimeAdmissionRequest) (now : ℕ)
    (db : Database) (a : RuntimeAdmission) (after : Database) : Type 0 where
  pub fair : Database
  pub decision : ReservationDecision
  pub tables : Tables
  pub valid : validate_scheduling_commit installation_id request.next request.decision ≡ ok tt
  pub leading : authorize_mutation db.lease request.authority now ≡ none
  pub current : is_outdated request.policy.applied db.policies ≡ false
  pub eligible : is_eligible (job_of request) now db.store ≡ true
  pub advanced : commit_fairness_state request.expected_version request.next db ≡ ok fair
  pub admitted :
      admit_job_quota (job_of request) request.policy fair.store.quota ≡ ok (decision, tables)
  pub ended :
      concluded request now
        (record fair { store = record fair.store { quota = tables } })
        decision
        decision.rejection
      ≡ ok (a, after)

authorized-ok : (o : Option StoreError) → authorized o ≡ ok tt → o ≡ none
authorized-ok none e = refl
authorized-ok (some x) e = cc e

of_quota-ok : (r : Decided) (d : ReservationDecision × Tables) → of_quota r ≡ ok d → r ≡ ok d
of_quota-ok (ok x) d e = cc e
of_quota-ok (err x) d e = cc e

untrue : (b : Bool) → not b ≡ false → b ≡ true
untrue true e = refl
untrue false e = cc e

pub commit_runtime_admission-Steps :
    (installation_id : Text) (request : RuntimeAdmissionRequest) (now : ℕ) (db : Database)
    (a : RuntimeAdmission) (after : Database)
    → commit_runtime_admission installation_id request now db ≡ ok (a, after)
    → Steps installation_id request now db a after
unfolding commit_runtime_admission
commit_runtime_admission-Steps installation_id request now db a after e =
    let (_, e1) =
      fail_if-eq-ok (leb_ℤ request.claim_ttl (pos 0) || leb_ℤ request.rejection_retry (pos 0))
        ttl_not_positive _ e in
    let (valid, e2) =
      >>-eq-ok (validate_scheduling_commit installation_id request.next request.decision) _ e1 in
    let (_, e3) =
      fail_if-eq-ok (is_other_policy request.decision.policy (get_last? request.policy.applied))
        other_policy _ e2 in
    let (leading, e4) =
      >>-eq-ok (authorized (authorize_mutation db.lease request.authority now)) _ e3 in
    let (current, e5) =
      fail_if-eq-ok (is_outdated request.policy.applied db.policies) admission_conflict _ e4 in
    let (eligible, e6) =
      fail_if-eq-ok (not (is_eligible (job_of request) now db.store)) admission_conflict _ e5 in
    let (fair, advanced, e7) =
      >>=-eq-ok (commit_fairness_state request.expected_version request.next db) _ e6 in
    let ((d, tables), admitted, e8) =
      >>=-eq-ok (of_quota (admit_job_quota (job_of request) request.policy fair.store.quota)) _
        e7 in
    record {
      fair = fair;
      decision = d;
      tables = tables;
      valid = valid;
      leading = authorized-ok (authorize_mutation db.lease request.authority now) leading;
      current = current;
      eligible = untrue (is_eligible (job_of request) now db.store) eligible;
      advanced = advanced;
      admitted =
          of_quota-ok (admit_job_quota (job_of request) request.policy fair.store.quota) (d, tables)
            admitted;
      ended = e8;
    }

-- The cursor of a state that is committed.
pub commit_fairness_state-parts :
    (expected : ℕ) (next : State) (db after : Database)
    → commit_fairness_state expected next db ≡ ok after
    → (knows_projects db.projects next.deficits ≡ true)
      × (matches_version expected db.cursor ≡ true)
      × (after ≡ record db {
        cursor = some (u64 (expected + 1), next.next_project_id);
        deficits = write_deficits next.deficits db.deficits;
      })
unfolding commit_fairness_state
commit_fairness_state-parts expected next db after e =
    let (known, e1) =
      fail_if-eq-ok (not (knows_projects db.projects next.deficits)) projects_not_found _ e in
    let (matched, e2) =
      fail_if-eq-ok (not (matches_version expected db.cursor)) admission_conflict _ e1 in
    (
      untrue (knows_projects db.projects next.deficits) known,
      untrue (matches_version expected db.cursor) matched,
      cc e2,
    )
