-- ===== src/Scheduler/Input.antt =====
-- internal/scheduler/policy.go and the function validate of internal/scheduler/scheduler.go: what one
-- scheduling decision is given, and what it answers. An int64 is an integer, a uint64 a natural number.
use kube_queue.Common.{
  ℕ, Bool, true, false, not, ◌&&◌, ◌||◌, leb, ◌==◌, ℤ, pos, leb_ℤ, Text, text_eq, is_empty,
  trim_space, is_listed, List, [], ◌∷◌, Option, Result, ok, ◌>>◌, fail_if,
}

-- `unknown_lane` is any other string.
pub data Lane : Type 0 where
  standard emergency : Lane
  unknown_lane : Text → Lane

pub record Policy : Type 0 where
  pub version : Text
  pub aging_step : ℤ

pub record Job : Type 0 where
  pub id : Text
  pub priority : ℤ
  pub age : ℕ
  pub eligible : Bool
  pub lane : Lane
  pub emergency_requested : Bool
  pub emergency_authorized : Bool
  pub emergency_authorization : Text

pub record Project : Type 0 where
  pub id : Text
  pub weight : ℕ
  pub jobs : List Job

pub record State : Type 0 where
  pub next_project_id : Text
  pub deficits : List (Text × ℕ)

pub record Basis : Type 0 where
  pub lane : Lane
  pub project_weight : ℕ
  pub deficit_before : ℕ
  pub deficit_after : ℕ
  pub base_priority : ℤ
  pub age : ℕ
  pub aging_step : ℤ
  pub effective_priority : ℤ
  pub emergency_requested : Bool
  pub emergency_authorized : Bool
  pub emergency_authorization : Text

pub record Decision : Type 0 where
  pub project_id : Text
  pub job_id : Text
  pub applied_policy_version : Text
  pub basis : Basis

pub record Outcome : Type 0 where
  pub decision : Option Decision
  pub state : State

-- The errors that wrap ErrInvalidPolicy, ErrInvalidInput and ErrInvalidState.
pub data SchedulingError : Type 0 where
  version_required step_not_positive : SchedulingError
  project_id_required weight_not_positive duplicate_project : SchedulingError
  job_id_required duplicate_job lane_unknown lacks_authorization : SchedulingError
  deficit_too_large : SchedulingError

abbrev pub lane_eq : Lane → Lane → Bool
lane_eq standard standard = true
lane_eq emergency emergency = true
lane_eq (unknown_lane s) (unknown_lane t) = text_eq s t
lane_eq _ _ = false

-- The body of the loop over the jobs of a project, after those with the identifiers `seen`.
unfoldable pub validate_jobs : List Text → List Job → Result SchedulingError (Unit {0})
validate_jobs seen [] = ok tt
validate_jobs seen (job ∷ jobs) =
    fail_if (is_empty job.id) job_id_required
    >> (fail_if (is_listed job.id seen) duplicate_job
        >> (fail_if (not (lane_eq job.lane standard) && not (lane_eq job.lane emergency))
              lane_unknown
            >> (fail_if
                  (lane_eq job.lane emergency
                    && (not job.emergency_requested
                        || not job.emergency_authorized
                        || is_empty (trim_space job.emergency_authorization)))
                  lacks_authorization
                >> validate_jobs (job.id ∷ seen) jobs)))

-- The loop over the projects, after those with the identifiers `seen`.
unfoldable pub validate_projects : List Text → List Project → Result SchedulingError (Unit {0})
unfolding validate_jobs
validate_projects seen [] = ok tt
validate_projects seen (project ∷ projects) =
    fail_if (is_empty project.id) project_id_required
    >> (fail_if (project.weight == 0) weight_not_positive
        >> (fail_if (is_listed project.id seen) duplicate_project
            >> (validate_jobs [] project.jobs >> validate_projects (project.id ∷ seen) projects)))

-- Whether some project of that identifier has no larger weight.
unfoldable pub exceeds_weight : Text × ℕ → List Project → Bool
exceeds_weight entry [] = false
exceeds_weight entry (project ∷ projects) =
    text_eq project.id entry.0 && leb project.weight entry.1 || exceeds_weight entry projects

-- The loop over the deficits.
unfoldable pub validate_deficits :
    List (Text × ℕ) → List Project → Result SchedulingError (Unit {0})
unfolding exceeds_weight
validate_deficits [] projects = ok tt
validate_deficits (entry ∷ entries) projects =
    fail_if (exceeds_weight entry projects) deficit_too_large >> validate_deficits entries projects

unfoldable pub validate : Policy → State → List Project → Result SchedulingError (Unit {0})
unfolding validate_projects validate_deficits
validate policy state projects =
    fail_if (is_empty (trim_space policy.version)) version_required
    >> (fail_if (leb_ℤ policy.aging_step (pos 0)) step_not_positive
        >> (validate_projects [] projects >> validate_deficits state.deficits projects))
