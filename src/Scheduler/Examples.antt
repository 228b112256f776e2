-- ===== src/Scheduler/Examples.antt =====
-- Two projects that share the standard lane, and an emergency job.
use mathlib.Core.List.Memᴰ.{head}
use kube_queue.Common.{
  ◌≡◌, refl, Text, true, false, pos, negsuc, codes, List, [], ◌∷◌, ok, arith, trim_space, text_eq,
  text_lt, is_listed, add_int64, sub_int64, mul_int64,
}
use kube_queue.Scheduler.Input.{standard, Policy, Job, Project, State, Outcome, validate}
use kube_queue.Scheduler.Order.{
  effective_priority, effective_priority-saturated, saturated, best_emergency,
}
use kube_queue.Scheduler.Select.{select, select_ordered, normalized_state, sort_projects, decision}
use kube_queue.Scheduler.Select.Selected.{Answer, select-Answer}
use kube_queue.Scheduler.Select.Bounded.{select-validate}
use kube_queue.Scheduler.Fairness.Rounds.{IsRound, serves, serves_fair}

abbrev policy : Policy
policy = record { version = codes "v1"; aging_step = pos 2 }

abbrev young : Job
young = record {
  id = codes "young";
  priority = pos 5;
  age = 0;
  eligible = true;
  lane = standard;
  emergency_requested = false;
  emergency_authorized = false;
  emergency_authorization = codes "";
}

abbrev old : Job
old = record young { id = codes "old"; priority = negsuc 0; age = 4 }

abbrev team_a : Project
team_a = record { id = codes "a"; weight = 2; jobs = young ∷ old ∷ [] }

abbrev team_b : Project
team_b = record { id = codes "b"; weight = 1; jobs = young ∷ [] }

abbrev fresh : State
fresh = record { next_project_id = codes ""; deficits = [] }

abbrev teams : List Project
teams = team_b ∷ team_a ∷ []

abbrev selected : Outcome
selected =
    select_ordered policy (normalized_state fresh (sort_projects teams)) (sort_projects teams)

select-selected : select policy fresh teams ≡ ok selected
unfolding select trim_space validate is_listed text_eq
select-selected = refl

-- The older job has aged past the other one, and its project keeps the turn for its second job.
selected_first :
    selected
    ≡ decision policy
        (record { next_project_id = codes "a"; deficits = (codes "a", 1) ∷ (codes "b", 0) ∷ [] })
        team_a
        old
        2
        2
        1
unfolding select_ordered best_emergency sort_projects text_lt normalized_state effective_priority
    sub_int64 mul_int64 add_int64 text_eq
selected_first = refl

effective_priority-saturated_example : effective_priority old policy ≡ saturated (negsuc 0) 8
effective_priority-saturated_example =
    effective_priority-saturated old (codes "v1") 2 (omega arith) (omega arith) (omega arith)

select-Answer_example : Answer policy teams selected.decision
select-Answer_example = select-Answer policy fresh teams selected select-selected

select-validate_example : validate policy selected.state teams ≡ ok tt
select-validate_example = select-validate policy fresh teams selected select-selected

-- Both projects have the young job in each of three rounds.
abbrev stock : Text → List Job
stock id = young ∷ []

young-IsRound : IsRound policy teams (codes "b") fresh stock
unfolding validate trim_space is_listed text_eq
young-IsRound = record {
  valid = refl;
  no_emergency = ((λ e. cc e, tt), ((λ e. cc e, tt), tt));
  job = young;
  queued = head refl;
  candidate = refl;
}

serves_fair_example : serves policy teams (codes "b") fresh (stock ∷ stock ∷ stock ∷ []) ≡ true
unfolding text_eq
serves_fair_example =
    serves_fair policy teams (codes "b") fresh stock (stock ∷ stock ∷ []) refl
      (young-IsRound, (young-IsRound, (young-IsRound, tt))) (omega arith)
