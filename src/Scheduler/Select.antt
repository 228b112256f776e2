-- ===== src/Scheduler/Select.antt =====
-- internal/scheduler/scheduler.go: one decision, by emergency or by deficit round robin.
pub mod Carried
pub mod Selected
pub mod Validated
pub mod Bounded
use kube_queue.Common.{
  ℕ, zero, suc, ◌+◌, ◌-◌, ◌==◌, Bool, true, false, if◌then◌else◌, Text, text_eq, text_lt, length,
  take, List, [], ◌∷◌, ◌++◌, map, Option, none, some, Result, ok, err, ◌>>=◌, ◌>>◌, codes,
}
use kube_queue.Scheduler.Input.{
  Policy, Job, Project, State, Basis, Decision, Outcome, SchedulingError, standard, validate,
}
use kube_queue.Scheduler.Order.{effective_priority, best_job, best_emergency}

-- `deficits[id]`, 0 where there is none.
unfoldable pub deficit_of : Text → List (Text × ℕ) → ℕ
deficit_of id [] = 0
deficit_of id (entry ∷ entries) = if text_eq entry.0 id then entry.1 else deficit_of id entries

-- `deficits[id] = n`
unfoldable pub set_deficit : Text → ℕ → List (Text × ℕ) → List (Text × ℕ)
set_deficit id n [] = (id, n) ∷ []
set_deficit id n (entry ∷ entries) =
    if text_eq entry.0 id then (id, n) ∷ entries else entry ∷ set_deficit id n entries

-- slices.SortFunc by identifier.
unfoldable pub insert_project : Project → List Project → List Project
insert_project p [] = p ∷ []
insert_project p (q ∷ qs) = if text_lt q.id p.id then q ∷ insert_project p qs else p ∷ q ∷ qs

unfoldable pub sort_projects : List Project → List Project
unfolding insert_project
sort_projects [] = []
sort_projects (p ∷ ps) = insert_project p (sort_projects ps)

-- normalizedState
unfoldable pub normalized_state : State → List Project → State
unfolding deficit_of
normalized_state state projects = record {
  next_project_id = state.next_project_id;
  deficits = map (λ p. (p.id, deficit_of p.id state.deficits)) projects;
}

-- slices.BinarySearchFunc on the sorted projects: how many precede the identifier.
unfoldable pub position : List Project → Text → ℕ
position [] id = 0
position (p ∷ ps) id = if text_lt p.id id then suc (position ps id) else 0

-- startIndex
unfoldable pub start_index : List Project → Text → ℕ
unfolding position
start_index projects id =
    let index = position projects id in if index == length projects then 0 else index

abbrev pub drop {ℓ} : {A : Type ℓ} → ℕ → List A → List A
drop zero xs = xs
drop (suc n) [] = []
drop (suc n) (x ∷ xs) = drop n xs

-- The elements at (start + offset) % len, for each offset below len.
abbrev pub rotated {ℓ} : {A : Type ℓ} → ℕ → List A → List A
rotated start xs = drop start xs ++ take start xs

unfoldable pub decision : Policy → State → Project → Job → ℕ → ℕ → ℕ → Outcome
decision policy state project job weight before after = record {
  decision = some (record {
    project_id = project.id;
    job_id = job.id;
    applied_policy_version = policy.version;
    basis = record {
      lane = job.lane;
      project_weight = weight;
      deficit_before = before;
      deficit_after = after;
      base_priority = job.priority;
      age = job.age;
      aging_step = policy.aging_step;
      effective_priority = effective_priority job policy;
      emergency_requested = job.emergency_requested;
      emergency_authorized = job.emergency_authorized;
      emergency_authorization = job.emergency_authorization;
    };
  });
  state = state;
}

-- The identifier of the first project of a list, or another one.
abbrev pub head_id : List Project → Text → Text
head_id [] other = other
head_id (p ∷ ps) other = p.id

-- `before` in Select.
abbrev pub deficit_before : State → Project → ℕ
deficit_before state project =
    let left = deficit_of project.id state.deficits in if left == 0 then project.weight else left

-- The end of the body of Select's loop. The deficit is not 0, since a validated weight is not.
unfoldable pub serve : Policy → State → Project → Job → Text → Outcome
unfolding deficit_of set_deficit decision
serve policy state project job following =
    let before = deficit_before state project in
    let after = before - 1 in
    decision policy
      (record {
        next_project_id = if after == 0 then following else project.id;
        deficits = set_deficit project.id after state.deficits;
      })
      project job project.weight before after

-- The loop of Select over the projects from the start, where `first` is the one at the start.
unfoldable pub scan : Policy → Text → List Project → State → Outcome
unfolding set_deficit serve
scan policy first [] state = record {
  decision = none;
  state = record state { next_project_id = first };
}
scan policy first (project ∷ projects) state = elim (best_job project.jobs standard policy) [
  | none ↦
      scan policy first projects
        (record state { deficits = set_deficit project.id 0 state.deficits })
  | some job ↦ serve policy state project job (head_id projects first)
]

-- Select without emergency work.
unfoldable pub round_robin : Policy → State → List Project → Outcome
unfolding start_index scan
round_robin policy state [] = record { decision = none; state = state }
round_robin policy state (p ∷ ps) =
    let turn = rotated (start_index (p ∷ ps) state.next_project_id) (p ∷ ps) in
    scan policy (head_id turn (codes "")) turn state

-- Select on the sorted projects and the normalized state.
unfoldable pub select_ordered : Policy → State → List Project → Outcome
unfolding decision round_robin
select_ordered policy next ordered = elim (best_emergency ordered policy) [
  | some found ↦
      let deficit = deficit_of found.0.id next.deficits in
      decision policy next found.0 found.1 found.0.weight deficit deficit
  | none ↦ round_robin policy next ordered
]

unfoldable pub select : Policy → State → List Project → Result SchedulingError Outcome
unfolding sort_projects normalized_state select_ordered
select policy state projects =
    validate policy state projects
    >> (let ordered = sort_projects projects in
        ok (select_ordered policy (normalized_state state ordered) ordered))
