-- ===== src/Reconciler/Fair/Candidates.antt =====
-- internal/reconciler/reconciler.go: runtimeSchedulerInput and disableRuntimeCandidate.
use kube_queue.Common.{
  ℕ, suc, ◌+◌, Bool, true, false, ◌≡◌, refl, Text, text_eq, List, [], ◌∷◌, map, Option, none, some,
  length, arith, if◌then◌else◌,
}
use kube_queue.Scheduler.Input.{Job, Project}
use kube_queue.Reconciler.{Candidate, SchedulingProject}

abbrev scheduler_job : Candidate → Job
scheduler_job c = record {
  id = c.job.row.id;
  priority = c.job.row.priority;
  age = c.age;
  eligible = true;
  lane = c.lane;
  emergency_requested = c.emergency_requested;
  emergency_authorized = c.emergency_authorized;
  emergency_authorization = c.emergency_authorization;
}

-- runtimeSchedulerInput: the input of the scheduler.
unfoldable pub runtime_scheduler_input : List SchedulingProject → List Project
runtime_scheduler_input projects =
    map
      (λ p. record { id = p.project_id; weight = p.weight; jobs = map scheduler_job p.candidates })
      projects

-- A candidate that no later one replaces.
abbrev latest : Candidate → Text → Option Candidate → Option Candidate
latest c id (some later) = some later
latest c id none = if text_eq c.job.row.id id then some c else none

unfoldable pub last_candidate : Text → List Candidate → Option Candidate
last_candidate id [] = none
last_candidate id (c ∷ cs) = latest c id (last_candidate id cs)

abbrev pub or_else {ℓ} : {A : Type ℓ} → Option A → Option A → Option A
or_else (some a) other = some a
or_else none other = other

-- runtimeSchedulerInput: the map `candidates` at an identifier, where the last one written stays.
unfoldable pub find_candidate : Text → List SchedulingProject → Option Candidate
find_candidate id [] = none
find_candidate id (p ∷ ps) = or_else (find_candidate id ps) (last_candidate id p.candidates)

abbrev kept : Candidate → Option (List Candidate) → Option (List Candidate)
kept c none = none
kept c (some cs) = some (c ∷ cs)

abbrev without :
    Candidate → List Candidate → Option (List Candidate) → Bool → Option (List Candidate)
without c cs found true = some cs
without c cs found false = kept c found

-- The candidates without the first one of an identifier, if there is one.
unfoldable pub remove_candidate : Text → List Candidate → Option (List Candidate)
remove_candidate id [] = none
remove_candidate id (c ∷ cs) = without c cs (remove_candidate id cs) (text_eq c.job.row.id id)

-- After the removal from one project, or else from those after it.
abbrev disabled_in :
    SchedulingProject
    → List SchedulingProject
    → List SchedulingProject
    → Option (List Candidate)
    → List SchedulingProject
disabled_in p ps rest none = p ∷ rest
disabled_in p ps rest (some cs) = record p { candidates = cs } ∷ ps

-- disableRuntimeCandidate
unfoldable pub disable_runtime_candidate : Text → List SchedulingProject → List SchedulingProject
disable_runtime_candidate id [] = []
disable_runtime_candidate id (p ∷ ps) =
    disabled_in p ps (disable_runtime_candidate id ps) (remove_candidate id p.candidates)

unfoldable pub count_candidates : List SchedulingProject → ℕ
count_candidates [] = 0
count_candidates (p ∷ ps) = length p.candidates + count_candidates ps

-- What the removal answers: one candidate fewer, and nothing only where no candidate has the
-- identifier.
abbrev Removed : Text → List Candidate → Option (List Candidate) → Type 0
Removed id cs none = last_candidate id cs ≡ none
Removed id cs (some rest) = suc (length rest) ≡ length cs

without-Removed :
    (id : Text) (c : Candidate) (cs : List Candidate) (found : Option (List Candidate)) (b : Bool)
    → text_eq c.job.row.id id ≡ b
    → Removed id cs found
    → Removed id (c ∷ cs) (without c cs found b)
unfolding last_candidate
without-Removed id c cs found true e r = refl
without-Removed id c cs none false e r = rw (r, e) refl
without-Removed id c cs (some rest) false e r = omega arith

remove_candidate-Removed :
    (id : Text) (cs : List Candidate) → Removed id cs (remove_candidate id cs)
unfolding remove_candidate last_candidate
remove_candidate-Removed id [] = refl
remove_candidate-Removed id (c ∷ cs) =
    without-Removed id c cs (remove_candidate id cs) (text_eq c.job.row.id id) refl
      (remove_candidate-Removed id cs)

count_disabled :
    (id : Text) (p : SchedulingProject) (ps rest : List SchedulingProject) (c : Candidate)
    (found : Option (List Candidate))
    → Removed id p.candidates found
    → (later : Option Candidate)
    → ((d : Candidate) → later ≡ some d → suc (count_candidates rest) ≡ count_candidates ps)
    → or_else later (last_candidate id p.candidates) ≡ some c
    → suc (count_candidates (disabled_in p ps rest found)) ≡ count_candidates (p ∷ ps)
unfolding count_candidates
count_disabled id p ps rest c (some cs) r later next e = omega arith
count_disabled id p ps rest c none r none next e = cc
count_disabled id p ps rest c none r (some d) next e = let n = next d refl in omega arith

-- The removal of a candidate that is found leaves one candidate fewer.
pub count-disable_runtime_candidate :
    (id : Text) (ps : List SchedulingProject) (c : Candidate)
    → find_candidate id ps ≡ some c
    → suc (count_candidates (disable_runtime_candidate id ps)) ≡ count_candidates ps
unfolding find_candidate disable_runtime_candidate
count-disable_runtime_candidate id [] c e = cc
count-disable_runtime_candidate id (p ∷ ps) c e =
    count_disabled id p ps (disable_runtime_candidate id ps) c (remove_candidate id p.candidates)
      (remove_candidate-Removed id p.candidates) (find_candidate id ps)
      (λ d f. count-disable_runtime_candidate id ps d f) e
