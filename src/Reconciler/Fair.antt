-- ===== src/Reconciler/Fair.antt =====
-- internal/reconciler/reconciler.go: the loop of schedule over the candidates of the projects. The calls
-- of the repository, of the leadership and of Kubernetes are the fields of Services, on a world that
-- each may change.
pub mod Candidates
pub mod Bounded
pub mod Kept
use kube_queue.Common.{
  ℕ, zero, suc, ◌+◌, ◌-◌, ◌*◌, ◌^◌, pos, Bool, true, false, not, ◌==◌, ltb, leb, if◌then◌else◌,
  Text, text_eq, codes, itoa, List, [], ◌∷◌, ◌++◌, map, Option, none, some, get_last?, Result, ok,
  err, ◌>>=◌, ◌>>◌,
}
use kube_queue.Leadership.Lease.{Authority}
use kube_queue.Scheduler.Input.{Policy, Job, Project, State, Decision, Outcome, SchedulingError}
use kube_queue.Scheduler.Select.{select}
use kube_queue.Quota.Rules
use kube_queue.Quota.Rules.{Scope, namespace_scope, PolicyRef, EffectivePolicy}
use kube_queue.Quota.Policy.{PolicyError, compose}
use kube_queue.Quota.Reservation.{Rejection}
use kube_queue.Persistence.Admission.{RuntimeAdmissionRequest, RuntimeAdmission}
use kube_queue.Reconciler.{RuntimeJob, Candidate, SchedulingProject, running_jobs}
use Candidates.{
  runtime_scheduler_input, find_candidate, disable_runtime_candidate, count_candidates,
}

pub record Services (World Error : Type 0) : Type 0 where
  pub scheduling_candidates : World → Result Error (List SchedulingProject) × World
  pub fairness_state : List Text → World → Result Error (ℕ × State) × World
  pub policy_hierarchy : Scope → World → Result Error (List Rules.Policy) × World
  pub revalidate : World → Option Error × World
  pub decision_id : World → Text × World
  pub commit : Text → RuntimeAdmissionRequest → World → Result Error RuntimeAdmission × World
  pub admit : RuntimeJob → World → Option Error × World
  pub abandon : Text → World → Option Error × World
  pub claim_eligible : ℕ → World → Result Error (List RuntimeJob) × World
  pub release_claim : Text → World → Option Error × World
  -- The part of recordJobError that writes, and its own error.
  pub record_error : RuntimeJob → Error → World → Option Error × World
  -- errors.Is(err, ports.ErrConflict)
  pub is_conflict : Error → Bool
  -- isLeadershipError, or errors.Is(err, leadership.ErrObservationRequired).
  pub is_fatal : Error → Bool

-- `no_policy` is the panic on an effective policy that applies none.
pub data ScheduleError (Error : Type 0) : Type 0 where
  service : Error → ScheduleError Error
  unfenced : Error → ScheduleError Error
  selection : SchedulingError → ScheduleError Error
  composition : PolicyError → ScheduleError Error
  not_admitted : Text → Error → ScheduleError Error
  unknown_candidate several_installations retries_exhausted no_policy : ScheduleError Error

-- The variables of the loop, with the world.
pub record Pass (World Error : Type 0) : Type 0 where
  pub world : World
  pub projects : List SchedulingProject
  pub version : ℕ
  pub fairness : State
  pub conflicts : ℕ
  pub admitted : ℕ
  pub errors : List (ScheduleError Error)

pub record Turn : Type 0 where
  pub installation_id : Text
  pub project_ids : List Text
  pub authority : Authority
  pub available : ℕ

abbrev pub weighted_fair : Policy
weighted_fair = record { version = codes "weighted-fair-v1"; aging_step = pos 1 }

abbrev policy_version : PolicyRef → Text
policy_version ref = ref.id ++ (codes ":" ++ itoa ref.version)

abbrev decided_by : Authority → Text
decided_by a = a.holder ++ (codes ":generation:" ++ itoa a.generation)

abbrev pub request_of :
    Turn → ℕ → State → Text → PolicyRef → EffectivePolicy → Decision → RuntimeAdmissionRequest
request_of turn version next id ref effective d = record {
  authority = turn.authority;
  expected_version = version;
  next = next;
  decision = record {
    id = id;
    installation_id = turn.installation_id;
    policy = ref;
    scheduling = record d { applied_policy_version = policy_version ref };
    quota_reservation_key = codes "";
    decided_by = decided_by turn.authority;
  };
  policy = effective;
  claim_ttl = pos (15 * 10 ^ 9);
  rejection_retry = pos (2 * 10 ^ 9);
}

abbrev pub target_of : RuntimeJob → Scope
target_of job = record {
  kind = namespace_scope;
  project = job.project_id;
  namespace = job.namespace;
}

module _ {World Error : Type 0} where
  abbrev pub add_error : ScheduleError Error → Pass World Error → Pass World Error
  add_error e p = record p { errors = p.errors ++ (e ∷ []) }

  abbrev pub at : Pass World Error → World → Pass World Error
  at p w = record p { world = w }

  -- After a result, or the return with its error.
  abbrev pub tried :
      {A : Type 0}
      → (Error → ScheduleError Error)
      → Pass World Error
      → Result Error A × World
      → Result (Pass World Error) (A × Pass World Error)
  tried wrap p (ok a, w) = ok (a, at p w)
  tried wrap p (err e, w) = err (add_error (wrap e) (at p w))

  abbrev pub checked :
      (Error → ScheduleError Error)
      → Pass World Error
      → Option Error × World
      → Result (Pass World Error) (Pass World Error)
  checked wrap p (none, w) = ok (at p w)
  checked wrap p (some e, w) = err (add_error (wrap e) (at p w))

  -- `effective.Applied[len(effective.Applied)-1]`
  abbrev pub applied_last :
      Pass World Error
      → EffectivePolicy
      → Option PolicyRef
      → Result (Pass World Error) (EffectivePolicy × PolicyRef)
  applied_last p effective none = err (add_error no_policy p)
  applied_last p effective (some ref) = ok (effective, ref)

  abbrev pub composed :
      Pass World Error
      → Result PolicyError EffectivePolicy
      → Result (Pass World Error) (EffectivePolicy × PolicyRef)
  composed p (err e) = err (add_error (composition e) p)
  composed p (ok effective) = applied_last p effective (get_last? effective.applied)

  module _ (services : Services World Error) where
    -- A conflict: the state is read again, three times in a row at most.
    abbrev pub conflicted :
        List Text → Pass World Error → Result (Pass World Error) (Pass World Error)
    conflicted ids p = if leb 3 (suc p.conflicts) then err (add_error retries_exhausted p) else do
      (read, q) ← tried service p (services.fairness_state ids p.world)
      ok (record q { version = read.0; fairness = read.1; conflicts = suc p.conflicts })

    abbrev pub abandoned :
        Text
        → Error
        → Pass World Error
        → Option Error × World
        → Result (Pass World Error) (Pass World Error)
    abandoned job e p (none, w) = ok (add_error (not_admitted job e) (at p w))
    abandoned job e p (some f, w) = err (add_error (service f) (add_error (service e) (at p w)))

    -- An error of admit ends the pass where it is about the leadership or a missing observation.
    abbrev pub refused :
        Text → Error → Pass World Error → Bool → Result (Pass World Error) (Pass World Error)
    refused job e p true = err (add_error (service e) p)
    refused job e p false = abandoned job e p (services.abandon job p.world)

    -- After admit.
    abbrev pub started :
        Text
        → Pass World Error
        → Option Error × World
        → Result (Pass World Error) (Pass World Error)
    started job p (none, w) = ok (record (at p w) { admitted = suc p.admitted })
    started job p (some e, w) = refused job e (at p w) (services.is_fatal e)

    abbrev pub granted :
        RuntimeJob
        → Pass World Error
        → Option Rejection
        → Result (Pass World Error) (Pass World Error)
    granted job p (some rejection) = ok p
    granted job p none = started job.row.id p (services.admit job p.world)

    abbrev pub uncommitted :
        List Text → Error → Pass World Error → Bool → Result (Pass World Error) (Pass World Error)
    uncommitted ids e p true = conflicted ids p
    uncommitted ids e p false = err (add_error (service e) p)

    -- After CommitRuntimeAdmission.
    abbrev pub committed :
        List Text
        → RuntimeJob
        → Text
        → Pass World Error
        → Result Error RuntimeAdmission × World
        → Result (Pass World Error) (Pass World Error)
    committed ids job id p (err e, w) = uncommitted ids e (at p w) (services.is_conflict e)
    committed ids job id p (ok result, w) =
        granted job
          (record p {
            world = w;
            version = result.version;
            fairness = result.state;
            conflicts = 0;
            projects = disable_runtime_candidate id p.projects;
          })
          result.quota.rejection

    -- From the selected candidate to the commit.
    abbrev pub decided :
        Turn
        → State
        → Decision
        → Pass World Error
        → Candidate
        → Result (Pass World Error) (Pass World Error)
    decided turn next d p c = do
      (policies, q) ← tried service p (services.policy_hierarchy (target_of c.job) p.world)
      (effective, ref) ← composed q (compose policies)
      r ← checked unfenced q (services.revalidate q.world)
      let named = services.decision_id r.world
      committed turn.project_ids c.job d.job_id r (
          services.commit turn.installation_id
            (request_of turn r.version next named.0 ref effective d) named.1)

    abbrev pub found :
        Turn
        → State
        → Decision
        → Pass World Error
        → Option Candidate
        → Result (Pass World Error) (Pass World Error)
    found turn next d p none = err (record p { errors = unknown_candidate ∷ [] })
    found turn next d p (some c) = decided turn next d p c

    abbrev pub chosen :
        Turn
        → State
        → Pass World Error
        → Option Decision
        → Result (Pass World Error) (Pass World Error)
    chosen turn next p none = err p
    chosen turn next p (some d) = found turn next d p (find_candidate d.job_id p.projects)

    abbrev pub selected :
        Turn
        → Pass World Error
        → Result SchedulingError Outcome
        → Result (Pass World Error) (Pass World Error)
    selected turn p (err e) = err (add_error (selection e) p)
    selected turn p (ok outcome) = chosen turn outcome.state p outcome.decision

    -- The body of the loop.
    unfoldable pub round : Turn → Pass World Error → Result (Pass World Error) (Pass World Error)
    round turn p =
        selected turn p (select weighted_fair p.fairness (runtime_scheduler_input p.projects))

    -- The loop of schedule, on fuel: none where it runs out.
    unfoldable pub fair_rounds : ℕ → Turn → Pass World Error → Option (Pass World Error)
    fair_rounds zero turn p = none
    fair_rounds (suc fuel) turn p = elim (ltb p.admitted turn.available) [
      | false ↦ some p
      | true ↦ elim (round turn p) [ err q ↦ some q | ok q ↦ fair_rounds fuel turn q ]
    ]
