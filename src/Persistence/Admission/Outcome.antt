-- ===== src/Persistence/Admission/Outcome.antt =====
-- What an admission answers, and how often one state of the scheduler can be committed.
use kube_queue.Common.{
  ℕ, ◌+◌, ◌<◌, ◌≡◌, ◌⊎◌, refl, sym, ap, subst, ◌∙◌, add_duration, if◌then◌else◌, Text, text_eq,
  text_eq_iff, text_eq_refl, List, [], ◌∷◌, Option, none, some, inl, inr, ok, err, >>=-eq-ok,
  Result-cases, ok-injective, arith,
}
use kube_queue.Leadership.Lease.{Lease, Authority, u64, authorize}
use kube_queue.Quota.Reservation.{ReservationDecision, Rejection}
use kube_queue.Persistence.Mutations.{authorize_mutation}
use kube_queue.Persistence.Jobs.{Claim, update_job, drop_claims}
use kube_queue.Persistence.Jobs.Claims.{claim_of}
use kube_queue.Persistence.Admission.Checks.{AdmissionDecision, AdmissionError}
use kube_queue.Persistence.Admission.{
  Database, RuntimeAdmissionRequest, RuntimeAdmission, insert_decision, postponed, claim_admitted,
  reservation_key, admission_of, job_of, concluded, commit_runtime_admission,
}
use kube_queue.Persistence.Leases.{leadership_lease}
use kube_queue.Persistence.Quotas.Calls.{admit_job_quota}
use kube_queue.Persistence.Admission.Conditions.{
  IsCurrent, MayStart, IsAt, is_outdated-IsCurrent, is_eligible-MayStart, matches_version-IsAt,
}
use kube_queue.Persistence.Admission.Commit.{
  commit_runtime_admission-Steps, commit_fairness_state-parts,
}

claim_of-drop_claims :
    (job name : Text) (claims : List Claim)
    → claim_of job (drop_claims name claims)
      ≡ (if text_eq name job then none else claim_of job claims)
unfolding claim_of drop_claims
claim_of-drop_claims job name [] = ground arith
claim_of-drop_claims job name (c ∷ claims) = ground (
  arith,
  claim_of-drop_claims job name claims,
  text_eq_iff c.job name,
  text_eq_iff c.job job,
  text_eq_iff name job,
)

-- A rejected job waits, and nothing but the state of the scheduler is changed beside it.
abbrev pub Rejected : RuntimeAdmissionRequest → ℕ → Database → RuntimeAdmission → Database → Type 0
Rejected request now db a after =
    (rejection : Rejection) × (a.quota.rejection ≡ some rejection)
    × (after.decisions ≡ db.decisions)
    × (after.store ≡ record db.store {
      jobs =
          update_job (job_of request) (postponed (add_duration now request.rejection_retry))
            db.store.jobs;
      quota = after.store.quota;
    })

-- An admitted job is claimed by the leader for the time to live, and the decision is recorded once.
abbrev pub Claimed : RuntimeAdmissionRequest → ℕ → Database → RuntimeAdmission → Database → Type 0
Claimed request now db a after =
    (a.quota.rejection ≡ none)
    × (claim_of (job_of request) after.store.claims
        ≡ some (record {
          job = job_of request;
          holder = request.authority.holder;
          expires = add_duration now request.claim_ttl;
        }))
    × (after.decisions
        ≡ record request.decision { quota_reservation_key = reservation_key a.quota.reservation }
          ∷ db.decisions)
    × (after.store.jobs ≡ db.store.jobs)

-- What follows the decision on the quota leaves.
abbrev Ended :
    RuntimeAdmissionRequest
    → ℕ
    → Database
    → ReservationDecision
    → RuntimeAdmission × Database
    → Type 0
Ended request now db d result =
    (result.1.cursor ≡ db.cursor)
    × (result.0 ≡ admission_of request d)
    × (result.1.store.quota ≡ db.store.quota)
    × (Rejected request now db result.0 result.1 ⊎ Claimed request now db result.0 result.1)

claim_admitted-ok :
    (job holder : Text) (expires now : ℕ) (claims after : List Claim)
    → claim_admitted job holder expires now claims ≡ ok after
    → after ≡ record { job = job; holder = holder; expires = expires } ∷ drop_claims job claims
claim_admitted-ok job holder expires now claims after e = ground (arith, e)

insert_decision-ok :
    (d : AdmissionDecision) (db after : Database)
    → insert_decision d db ≡ ok after
    → after ≡ record db { decisions = d ∷ db.decisions }
insert_decision-ok d db after e = ground (arith, e)

pub concluded-Ended :
    (request : RuntimeAdmissionRequest) (now : ℕ) (db : Database) (d : ReservationDecision)
    (o : Option Rejection) (result : RuntimeAdmission × Database)
    → d.rejection ≡ o
    → concluded request now db d o ≡ ok result
    → Ended request now db d result
unfolding claim_of
concluded-Ended request now db d (some rejection) result r e =
    subst (Ended request now db d) (ok-injective e)
      (refl, refl, refl, inl (rejection, r, refl, refl))
concluded-Ended request now db d none result r e =
    let expires = add_duration now request.claim_ttl in
    let (claims, e1, e2) =
      >>=-eq-ok
        (claim_admitted (job_of request) request.authority.holder expires now db.store.claims) _
        e in
    let kept = record request.decision { quota_reservation_key = reservation_key d.reservation } in
    let claimed = record db { store = record db.store { claims = claims } } in
    let (final, e3, e4) = >>=-eq-ok (insert_decision kept claimed) _ e2 in
    let found : claim_of (job_of request) claims
        ≡ some (record {
          job = job_of request;
          holder = request.authority.holder;
          expires = expires;
        }) =
      rw
        (
          claim_admitted-ok (job_of request) request.authority.holder expires now db.store.claims
              claims e1,
          text_eq_refl (job_of request),
        )
        refl in
    subst (Ended request now db d) (ok-injective e4) (
      subst (λ last. Ended request now db d (admission_of request d, last))
        (sym (insert_decision-ok kept claimed final e3))
        (refl, refl, refl, inr (r, found, refl, refl)))

-- The authority is of the lease, which holds.
abbrev pub IsLeading : Authority → ℕ → Option Lease → Type 0
IsLeading a now none = ⊥
IsLeading a now (some l) =
    (a.generation ≡ l.generation)
    × (a.holder ≡ l.holder)
    × (now < l.expires_at)
    × (now < a.valid_until)

leading_of :
    (a : Authority) (now : ℕ) (lease : Option Lease)
    → authorize_mutation lease a now ≡ none
    → IsLeading a now lease
unfolding authorize leadership_lease
leading_of a now none e = cc e
leading_of a now (some l) e = ground (arith, e, text_eq_iff a.holder l.holder)

-- What an admission that is committed was given, and what it leaves.
pub record IsCommitted (request : RuntimeAdmissionRequest) (now : ℕ) (db : Database)
    (a : RuntimeAdmission) (after : Database) : Type 0 where
  pub leading : IsLeading request.authority now db.lease
  pub current : IsCurrent db.policies request.policy.applied
  pub eligible : MayStart (job_of request) now db.store
  pub matched : IsAt request.expected_version db.cursor
  pub quota :
      (d : ReservationDecision) × (a ≡ admission_of request d)
      × (admit_job_quota (job_of request) request.policy db.store.quota ≡ ok (d, after.store.quota))
  pub cursor :
      after.cursor ≡ some (u64 (request.expected_version + 1), request.next.next_project_id)
  pub outcome : Rejected request now db a after ⊎ Claimed request now db a after

-- An admission is committed only by a leader whose lease holds, under policies of which each is the
-- current one of its scope, for a managed job that is not archived, waits in the queue and is due, with
-- no claim but an expired one, and from the version of the scheduler's state that is stored. It raises
-- that version by one and leaves the quota tables that the decision on the quota gives. Then either
-- the quota rejects the job, which waits without a claim or a recorded decision, or the job is
-- claimed by the leader and the decision is recorded with the key of the reservation.
pub commit_runtime_admission-IsCommitted :
    (installation_id : Text) (request : RuntimeAdmissionRequest) (now : ℕ) (db : Database)
    (a : RuntimeAdmission) (after : Database)
    → commit_runtime_admission installation_id request now db ≡ ok (a, after)
    → IsCommitted request now db a after
commit_runtime_admission-IsCommitted installation_id request now db a after e =
    let steps = commit_runtime_admission-Steps installation_id request now db a after e in
    let (_, matched, same) =
      commit_fairness_state-parts request.expected_version request.next db steps.fair
        steps.advanced in
    let before : Database = record steps.fair {
      store = record steps.fair.store { quota = steps.tables };
    } in
    let (cursor, answered, held, outcome) =
      concluded-Ended request now before steps.decision steps.decision.rejection (a, after) refl
        steps.ended in
    record {
      leading = leading_of request.authority now db.lease steps.leading;
      current = is_outdated-IsCurrent request.policy.applied db.policies steps.current;
      eligible = is_eligible-MayStart (job_of request) now db.store steps.eligible;
      matched = matches_version-IsAt request.expected_version db.cursor matched;
      quota = (
        steps.decision,
        answered,
        subst
            (λ f.
              admit_job_quota (job_of request) request.policy f.store.quota
              ≡ ok (steps.decision, after.store.quota))
            same (steps.admitted ∙ ap (λ q. ok (steps.decision, q)) (sym held)),
      );
      cursor = cursor ∙ ap (λ x. x.cursor) same;
      outcome =
          subst
            (λ f.
              let here : Database = record f { store = record f.store { quota = steps.tables } } in
              Rejected request now here a after ⊎ Claimed request now here a after)
            same outcome;
    }

not_again : (expected : ℕ) (project : Text) → ¬ IsAt expected (some (u64 (expected + 1), project))
not_again expected project h = omega arith

-- One state of the scheduler is committed once: after an admission from some version, no admission from
-- the same version is committed, whoever asks for it and whatever it asks for.
pub commit_runtime_admission_once :
    (installation_id : Text) (request other : RuntimeAdmissionRequest) (now later : ℕ)
    (db after : Database) (a : RuntimeAdmission)
    → other.expected_version ≡ request.expected_version
    → commit_runtime_admission installation_id request now db ≡ ok (a, after)
    → (reason : AdmissionError) × (commit_runtime_admission installation_id other later after
        ≡ err reason)
commit_runtime_admission_once installation_id request other now later db after a same e =
    elim (Result-cases (commit_runtime_admission installation_id other later after)) [
      | inl refused ↦ refused
      | inr ((b, final), f) ↦
          let first =
            commit_runtime_admission-IsCommitted installation_id request now db a after e in
          let second =
            commit_runtime_admission-IsCommitted installation_id other later after b final f in
          let again : IsAt request.expected_version
              (some (u64 (request.expected_version + 1), request.next.next_project_id)) =
            subst
              (λ v.
                IsAt v (some (u64 (request.expected_version + 1), request.next.next_project_id)))
              same (subst (IsAt other.expected_version) first.cursor second.matched) in
          absurd (not_again request.expected_version request.next.next_project_id again)
    ]
