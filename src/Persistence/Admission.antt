-- ===== src/Persistence/Admission.antt =====
-- internal/adapters/persistence/scheduling.go: the transaction that admits a job, over the lease, the
-- policies, the jobs, the claims, the quota tables and the state of the scheduler of one installation. The
-- projects of the jobs belong to it. A transaction gives the tables after it or an error, which rolls
-- it back; the instant at which it runs is its argument.
pub mod Checks
pub mod Commit
pub mod Conditions
pub mod Outcome
pub mod History
pub mod Fairness
pub mod Examples
use kube_queue.Common.{
  stamp_lt, stamp_le, ℕ, zero, suc, ◌+◌, ◌-◌, ◌*◌, ◌^◌, ◌%◌, ◌≤◌, ◌<◌, ℤ, pos, leb_ℤ, add_duration,
  Bool, true, false, not, ◌&&◌, ◌||◌, ltb, leb, ◌==◌, if◌then◌else◌, Text, text_eq, is_empty,
  is_listed, codes, List, [], ◌∷◌, Option, none, some, is_none, get_last?, Result, ok, err, ◌>>=◌,
  ◌>>◌, fail_if,
}
use kube_queue.Domain.Lifecycle.{queued, state_eq}
use kube_queue.Leadership.Lease.{Lease, Authority, u64}
use kube_queue.Scheduler.Input.{State, Decision}
use kube_queue.Scheduler.Select.{set_deficit}
use kube_queue.Quota.Rules.{PolicyRef, EffectivePolicy}
use kube_queue.Quota.Reservation.{Reservation, ReservationDecision, Rejection}
use kube_queue.Persistence.Mutations.{StoreError, authorize_mutation}
use kube_queue.Persistence.Quotas.{Tables, QuotaError}
use kube_queue.Persistence.Quotas.Calls.{Decided, admit_job_quota, requeue_job_quota}
use kube_queue.Persistence.Policies.{PolicyRow, current_policy}
use kube_queue.Persistence.Jobs.{JobRow, Store, Claim, get_job, update_job, drop_claims}
use kube_queue.Persistence.Jobs.Claims.{is_startable, claim_of, release_claims}
use Checks.{
  AdmissionDecision, AdmissionError, ttl_not_positive, other_policy, fairness_range,
  admission_conflict, projects_not_found, fenced, quota_error, policy_ref_eq,
  validate_scheduling_commit,
}

-- The cursor of scheduler_fairness_state is its version and the next project.
pub record Database : Type 0 where
  pub lease : Option Lease
  pub policies : List PolicyRow
  pub store : Store
  pub cursor : Option (ℕ × Text)
  pub deficits : List (Text × ℕ)
  pub projects : List Text
  pub decisions : List AdmissionDecision

pub record RuntimeAdmissionRequest : Type 0 where
  pub authority : Authority
  pub expected_version : ℕ
  pub next : State
  pub decision : AdmissionDecision
  pub policy : EffectivePolicy
  pub claim_ttl : ℤ
  pub rejection_retry : ℤ

pub record RuntimeAdmission : Type 0 where
  pub version : ℕ
  pub state : State
  pub quota : ReservationDecision

-- validateAppliedPolicyTx: whether some applied version is not the current one.
unfoldable pub is_outdated : List PolicyRef → List PolicyRow → Bool
is_outdated [] rows = false
is_outdated (expected ∷ refs) rows = elim (current_policy expected.scope rows) [
  | none ↦ true
  | some policy ↦ if policy_ref_eq policy.ref expected then is_outdated refs rows else true
]

-- The LEFT JOIN on the claims that are live.
abbrev pub is_free : ℕ → Option Claim → Bool
is_free now none = true
is_free now (some c) = stamp_le c.expires now

abbrev pub startable_row : ℕ → Option JobRow → Bool
startable_row now none = false
startable_row now (some j) = is_startable now j

-- runtimeCandidateEligibleTx
abbrev pub is_eligible : Text → ℕ → Store → Bool
is_eligible job now s =
    startable_row now (get_job job s.jobs) && is_free now (claim_of job s.claims)

-- ensureFairnessProjects: whether every project with a deficit exists.
unfoldable pub knows_projects : List Text → List (Text × ℕ) → Bool
knows_projects projects [] = true
knows_projects projects (entry ∷ entries) =
    is_listed entry.0 projects && knows_projects projects entries

-- The loop that writes the deficits.
unfoldable pub write_deficits : List (Text × ℕ) → List (Text × ℕ) → List (Text × ℕ)
write_deficits [] rows = rows
write_deficits (entry ∷ entries) rows = write_deficits entries (set_deficit entry.0 entry.1 rows)

-- Whether the INSERT, where the expected version is 0, or else the UPDATE writes the cursor.
abbrev pub matches_version : ℕ → Option (ℕ × Text) → Bool
matches_version expected none = expected == 0
matches_version expected (some row) = not (expected == 0) && row.0 == expected

-- commitFairnessStateTx
unfoldable pub commit_fairness_state : ℕ → State → Database → Result AdmissionError Database
commit_fairness_state expected next db =
    fail_if (not (knows_projects db.projects next.deficits)) projects_not_found
    >> (fail_if (not (matches_version expected db.cursor)) admission_conflict
        >> ok (record db {
          cursor = some (u64 (expected + 1), next.next_project_id);
          deficits = write_deficits next.deficits db.deficits;
        }))

unfoldable pub has_decision : Text → List AdmissionDecision → Bool
has_decision id [] = false
has_decision id (d ∷ ds) = text_eq d.id id || has_decision id ds

-- insertAdmissionDecision, under its primary key.
abbrev pub insert_decision : AdmissionDecision → Database → Result AdmissionError Database
insert_decision d db =
    if has_decision d.id db.decisions
    then err admission_conflict
    else ok (record db { decisions = d ∷ db.decisions })

-- CommitSchedulingDecision
unfoldable pub commit_scheduling_decision :
    Text → ℕ → State → AdmissionDecision → Database → Result AdmissionError ((ℕ × State) × Database)
commit_scheduling_decision installation_id expected next decision db = do
  validate_scheduling_commit installation_id next decision
  fail_if (leb (2 ^ 63 - 1) expected) fairness_range
  after ← commit_fairness_state expected next db
  final ← insert_decision decision after
  ok ((u64 (expected + 1), next), final)

-- recordQuotaRejectionTx, and the UPDATE of AbandonRuntimeAdmission.
abbrev pub postponed : ℕ → JobRow → JobRow
postponed retry j =
    if state_eq j.desired queued then record j { next_reconcile_at = some retry } else j

abbrev is_held : Text → Option Claim → Bool
is_held holder none = false
is_held holder (some c) = text_eq c.holder holder

-- The claim of an admitted job: what ON CONFLICT(job_id) leaves.
abbrev pub claim_admitted : Text → Text → ℕ → ℕ → List Claim → Result AdmissionError (List Claim)
claim_admitted job holder expires now claims =
    if is_free now (claim_of job claims) || is_held holder (claim_of job claims)
    then ok (record { job = job; holder = holder; expires = expires } ∷ drop_claims job claims)
    else err admission_conflict

abbrev pub authorized : Option StoreError → Result AdmissionError (Unit {0})
authorized none = ok tt
authorized (some e) = err (fenced e)

abbrev pub reservation_key : Option Reservation → Text
reservation_key none = codes ""
reservation_key (some r) = r.idempotency_key

abbrev pub of_quota {ℓ} : {A : Type ℓ} → Result QuotaError A → Result AdmissionError A
of_quota (ok a) = ok a
of_quota (err e) = err (quota_error e)

abbrev pub admission_of : RuntimeAdmissionRequest → ReservationDecision → RuntimeAdmission
admission_of request d = record {
  version = u64 (request.expected_version + 1);
  state = request.next;
  quota = d;
}

abbrev pub job_of : RuntimeAdmissionRequest → Text
job_of request = request.decision.scheduling.job_id

-- After the decision on the quota: a rejected job waits, an admitted one is claimed and recorded.
abbrev pub concluded :
    RuntimeAdmissionRequest
    → ℕ
    → Database
    → ReservationDecision
    → Option Rejection
    → Result AdmissionError (RuntimeAdmission × Database)
concluded request now db d (some rejection) = ok (
  admission_of request d,
  record db {
    store = record db.store {
      jobs =
          update_job (job_of request) (postponed (add_duration now request.rejection_retry))
            db.store.jobs;
    };
  },
)
concluded request now db d none = do
  claims ←
      claim_admitted (job_of request) request.authority.holder (add_duration now request.claim_ttl)
        now db.store.claims
  final ←
      insert_decision
        (record request.decision { quota_reservation_key = reservation_key d.reservation })
        (record db { store = record db.store { claims = claims } })
  ok (admission_of request d, final)

-- The test on the last applied policy.
abbrev pub is_other_policy : PolicyRef → Option PolicyRef → Bool
is_other_policy ref none = true
is_other_policy ref (some last) = not (policy_ref_eq ref last)

-- CommitRuntimeAdmission
unfoldable pub commit_runtime_admission :
    Text
    → RuntimeAdmissionRequest
    → ℕ
    → Database
    → Result AdmissionError (RuntimeAdmission × Database)
commit_runtime_admission installation_id request now db = do
  fail_if (leb_ℤ request.claim_ttl (pos 0) || leb_ℤ request.rejection_retry (pos 0))
      ttl_not_positive
  validate_scheduling_commit installation_id request.next request.decision
  fail_if (is_other_policy request.decision.policy (get_last? request.policy.applied)) other_policy
  authorized (authorize_mutation db.lease request.authority now)
  fail_if (is_outdated request.policy.applied db.policies) admission_conflict
  fail_if (not (is_eligible (job_of request) now db.store)) admission_conflict
  after ← commit_fairness_state request.expected_version request.next db
  (d, tables) ← of_quota (admit_job_quota (job_of request) request.policy after.store.quota)
  concluded request now (record after { store = record after.store { quota = tables } }) d
      d.rejection

-- The wait of two seconds before the next attempt.
abbrev pub retry_after : ℤ
retry_after = pos (2 * 10 ^ 9)

-- AbandonRuntimeAdmission
unfoldable pub abandon_runtime_admission :
    Authority → Text → ℕ → Database → Result AdmissionError Database
abandon_runtime_admission authority job now db = do
  authorized (authorize_mutation db.lease authority now)
  tables ← of_quota (requeue_job_quota job db.store.quota)
  ok (record db {
    store = record db.store {
      jobs = update_job job (postponed (add_duration now retry_after)) db.store.jobs;
      claims = release_claims job authority.holder db.store.claims;
      quota = tables;
    };
  })
