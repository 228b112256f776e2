-- ===== src/Reconciler/Schedule.antt =====
-- internal/reconciler/reconciler.go: schedule, for a repository that implements
-- RuntimeSchedulingRepository.
pub mod Returns
pub mod Kept
use kube_queue.Common.{
  ℕ, ◌+◌, ◌-◌, ◌*◌, ◌≤◌, ◌<◌, ◌≡◌, refl, Bool, true, false, not, ◌&&◌, ◌==◌, Text, text_eq, List,
  [], ◌∷◌, map, Option, none, some, Result, ok, err, arith, by_if, if◌then◌else◌,
}
use kube_queue.Leadership.Lease.{Authority}
use kube_queue.Scheduler.Input.{State}
use kube_queue.Reconciler.{RuntimeJob, SchedulingProject, running_jobs}
use kube_queue.Reconciler.Fair.{
  Services, ScheduleError, service, several_installations, Pass, Turn, fair_rounds,
}
use kube_queue.Reconciler.Fair.Candidates.{count_candidates}
use kube_queue.Reconciler.Fair.Bounded.{Ends, fair_rounds-Ends}
use kube_queue.Reconciler.Legacy.{Sweep, Limits, schedule_legacy}

-- What the reconciler was configured with.
pub record Capacity : Type 0 where
  pub global_limit : ℕ
  pub namespace_limit : ℕ

-- What schedule gives, with the count of the jobs that it has admitted.
pub record Report (World Error : Type 0) : Type 0 where
  pub world : World
  pub admitted : ℕ
  pub errors : List (ScheduleError Error)

-- Whether each project belongs to the installation.
unfoldable pub share_installation : Text → List SchedulingProject → Bool
share_installation id [] = true
share_installation id (p ∷ ps) = text_eq p.installation_id id && share_installation id ps

-- Above three tries of each candidate and three more.
unfoldable pub loop_fuel : List SchedulingProject → ℕ
loop_fuel projects = 3 * count_candidates projects + 4

abbrev pub project_ids : List SchedulingProject → List Text
project_ids projects = map (λ (p : SchedulingProject). p.project_id) projects

abbrev pub turn_of : Authority → Text → List SchedulingProject → ℕ → Turn
turn_of authority installation projects available = record {
  installation_id = installation;
  project_ids = project_ids projects;
  authority = authority;
  available = available;
}

module _ {World Error : Type 0} where
  abbrev pub quiet : World → Report World Error
  quiet w = record { world = w; admitted = 0; errors = [] }

  abbrev pub failing : ScheduleError Error → World → Report World Error
  failing e w = record { world = w; admitted = 0; errors = e ∷ [] }

  abbrev pub of_sweep : Sweep World Error → Report World Error
  of_sweep s = record {
    world = s.world;
    admitted = s.admitted;
    errors = map (λ e. service e) s.errors;
  }

  abbrev pub of_pass : Option (Pass World Error) → Option (Report World Error)
  of_pass none = none
  of_pass (some p) = some (record { world = p.world; admitted = p.admitted; errors = p.errors })

  -- The variables before the loop.
  abbrev pub first_pass : World → List SchedulingProject → ℕ × State → Pass World Error
  first_pass w projects read = record {
    world = w;
    projects = projects;
    version = read.0;
    fairness = read.1;
    conflicts = 0;
    admitted = 0;
    errors = [];
  }

  module _ (services : Services World Error) (capacity : Capacity) (authority : Authority) where
    -- Once the state of the scheduler was read.
    abbrev pub looped :
        Text
        → ℕ
        → List SchedulingProject
        → Result Error (ℕ × State) × World
        → Option (Report World Error)
    looped installation available projects (err e, w) = some (failing (service e) w)
    looped installation available projects (ok read, w) = of_pass (
        fair_rounds services (loop_fuel projects)
          (turn_of authority installation projects available) (first_pass w projects read))

    abbrev pub shared :
        Text → ℕ → List SchedulingProject → World → Bool → Option (Report World Error)
    shared installation available projects w false = some (failing several_installations w)
    shared installation available projects w true =
        looped installation available projects (services.fairness_state (project_ids projects) w)

    -- After SchedulingCandidates.
    abbrev pub listed :
        List RuntimeJob
        → ℕ
        → Result Error (List SchedulingProject) × World
        → Option (Report World Error)
    listed jobs available (err e, w) = some (failing (service e) w)
    listed jobs available (ok [], w) = some (
        of_sweep (
          schedule_legacy services
            (record { available = available; namespace_limit = capacity.namespace_limit }) jobs w))
    listed jobs available (ok (p ∷ ps), w) =
        shared p.installation_id available (p ∷ ps) w
          (share_installation p.installation_id (p ∷ ps))

    abbrev pub with_room : List RuntimeJob → ℕ → World → Bool → Option (Report World Error)
    with_room jobs available w true = some (quiet w)
    with_room jobs available w false = listed jobs available (services.scheduling_candidates w)

    -- schedule: `none` would be a loop that is out of fuel.
    unfoldable pub schedule : List RuntimeJob → World → Option (Report World Error)
    schedule jobs w =
        let available = capacity.global_limit - running_jobs jobs in
        with_room jobs available w (available == 0)
