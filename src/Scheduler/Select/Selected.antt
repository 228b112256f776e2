-- ===== src/Scheduler/Select/Selected.antt =====
-- What Select answers: which job it selects, and when it selects none.
use mathlib.Core.List.{Memᴰ}
use mathlib.Core.List.Memᴰ.{head, tail}
use kube_queue.Common.{
  ◌≡◌, refl, true, false, List, [], ◌∷◌, Option, none, some, All, All-map, ◌⊎◌, inl, inr, Text, ok,
  >>=-eq-ok, ok-injective, subst, codes,
}
use kube_queue.Scheduler.Input.{
  Lane, standard, emergency, Policy, Job, Project, State, Decision, Outcome, validate,
}
use kube_queue.Scheduler.Order.{
  job_before, best_job, best_emergency, is_candidate, effective_priority,
}
use kube_queue.Scheduler.Order.Best.{Best, best_job-Best}
use kube_queue.Scheduler.Order.Urgent.{MostUrgent, best_emergency-MostUrgent}
use kube_queue.Scheduler.Select.Carried.{
  All-sort_projects, All-rotated, rotated-All, All-self, All-of_member, from_sorted,
}
use kube_queue.Scheduler.Select.{
  sort_projects, normalized_state, start_index, rotated, decision, head_id, serve, scan,
  set_deficit, deficit_of, round_robin, select_ordered, select,
}

-- A decision for a job of the lane that no other one goes before, among the projects that rival its
-- own.
pub record Chosen (lane : Lane) (policy : Policy) (rivals : Project → List Project)
    (projects : List Project) (d : Decision) : Type 0 where
  pub project : Project
  pub job : Job
  pub member : Memᴰ project projects
  pub of_project : Memᴰ job project.jobs
  pub candidate : is_candidate lane job ≡ true
  pub names_project : d.project_id ≡ project.id
  pub names_job : d.job_id ≡ job.id
  pub records_priority : d.basis.effective_priority ≡ effective_priority job policy
  pub unbeaten :
      All
        (λ q. All (λ k. is_candidate lane k ≡ true → job_before k job policy ≡ false) q.jobs)
        (rivals project)

-- No project has an eligible job in the lane.
abbrev pub HasNone : Lane → List Project → Type 0
HasNone lane projects = All (λ p. All (λ k. is_candidate lane k ≡ true → ⊥) p.jobs) projects

abbrev itself : Project → List Project
itself p = p ∷ []

-- What the standard lane answers.
abbrev pub Fair : Policy → List Project → Option Decision → Type 0
Fair policy projects none = HasNone standard projects
Fair policy projects (some d) = Chosen standard policy itself projects d

-- What a decision is: an emergency job first, and none only where nothing is eligible.
abbrev pub Answer : Policy → List Project → Option Decision → Type 0
Answer policy projects none = HasNone emergency projects × HasNone standard projects
Answer policy projects (some d) =
    Chosen emergency policy (λ _. projects) projects d
    ⊎ (HasNone emergency projects × Chosen standard policy itself projects d)

module _ (policy : Policy) where
  serve-Fair :
      (state : State) (p : Project) (ps : List Project) (j : Job) (following : Text)
      → Best standard policy (some j) p.jobs
      → Fair policy (p ∷ ps) (serve policy state p j following).decision
  unfolding serve decision
  serve-Fair state p ps j following (m, c, u) = record {
    project = p;
    job = j;
    member = head refl;
    of_project = m;
    candidate = c;
    names_project = refl;
    names_job = refl;
    records_priority = refl;
    unbeaten = (u, tt);
  }

  Chosen-within :
      {lane : Lane} {rivals others : Project → List Project} {xs ys : List Project} {d : Decision}
      (f : Chosen lane policy rivals xs d)
      → Memᴰ f.project ys
      → All
          (λ q. All (λ k. is_candidate lane k ≡ true → job_before k f.job policy ≡ false) q.jobs)
          (others f.project)
      → Chosen lane policy others ys d
  Chosen-within f m u = record {
    project = f.project;
    job = f.job;
    member = m;
    of_project = f.of_project;
    candidate = f.candidate;
    names_project = f.names_project;
    names_job = f.names_job;
    records_priority = f.records_priority;
    unbeaten = u;
  }

  Fair-skip :
      (p : Project) (ps : List Project) (d : Option Decision)
      → Best standard policy none p.jobs
      → Fair policy ps d
      → Fair policy (p ∷ ps) d
  Fair-skip p ps none b f = (All-map p.jobs (λ k no c. cc) b, f)
  Fair-skip p ps (some d) b f = Chosen-within f (tail f.member) f.unbeaten

  -- One project of the loop, given its best job.
  abbrev pub visited : Text → Project → List Project → State → Option Job → Outcome
  visited first p ps state found = elim found [
    | none ↦ scan policy first ps (record state { deficits = set_deficit p.id 0 state.deficits })
    | some job ↦ serve policy state p job (head_id ps first)
  ]

  visited-Fair :
      (first : Text) (p : Project) (ps : List Project) (state : State) (found : Option Job)
      → Best standard policy found p.jobs
      → ((next : State) → Fair policy ps (scan policy first ps next).decision)
      → Fair policy (p ∷ ps) (visited first p ps state found).decision
  visited-Fair first p ps state none b rest =
      let next : State = record state { deficits = set_deficit p.id 0 state.deficits } in
      Fair-skip p ps (scan policy first ps next).decision b (rest next)
  visited-Fair first p ps state (some j) b rest = serve-Fair state p ps j (head_id ps first) b

  scan-Fair :
      (first : Text) (ps : List Project) (state : State)
      → Fair policy ps (scan policy first ps state).decision
  unfolding scan
  scan-Fair first [] state = tt
  scan-Fair first (p ∷ ps) state =
      visited-Fair first p ps state (best_job p.jobs standard policy)
        (best_job-Best standard policy p.jobs) (scan-Fair first ps)

  Fair-carried :
      (xs ys : List Project) (d : Option Decision)
      → All (λ p. Memᴰ p ys) xs
      → ((P : Project → Type 0) → All P xs → All P ys)
      → Fair policy xs d
      → Fair policy ys d
  Fair-carried xs ys none sub carry f =
      carry (λ p. All (λ k. is_candidate standard k ≡ true → ⊥) p.jobs) f
  Fair-carried xs ys (some d) sub carry f =
      Chosen-within f (All-of_member (λ p. Memᴰ p ys) f.project xs f.member sub) f.unbeaten

  round_robin-Fair :
      (state : State) (ps : List Project) → Fair policy ps (round_robin policy state ps).decision
  unfolding round_robin
  round_robin-Fair state [] = tt
  round_robin-Fair state (p ∷ ps) =
      let start = start_index (p ∷ ps) state.next_project_id in
      let turn = rotated start (p ∷ ps) in
      Fair-carried turn (p ∷ ps) (scan policy (head_id turn (codes "")) turn state).decision
        (All-rotated (λ q. Memᴰ q (p ∷ ps)) start (p ∷ ps) (All-self (p ∷ ps)))
        (λ P h. rotated-All P start (p ∷ ps) h) (scan-Fair (head_id turn (codes "")) turn state)

  with_none :
      (ps : List Project) (d : Option Decision)
      → HasNone emergency ps
      → Fair policy ps d
      → Answer policy ps d
  with_none ps none h f = (h, f)
  with_none ps (some d) h f = inr (h, f)

  -- Select on the sorted projects, given the emergency job.
  abbrev pub dispatched : State → List Project → Option (Project × Job) → Outcome
  dispatched next ps found = elim found [
    | some f ↦
        let deficit = deficit_of f.0.id next.deficits in
        decision policy next f.0 f.1 f.0.weight deficit deficit
    | none ↦ round_robin policy next ps
  ]

  dispatched-Answer :
      (next : State) (ps : List Project) (found : Option (Project × Job))
      → MostUrgent policy found ps
      → Answer policy ps (dispatched next ps found).decision
  unfolding decision
  dispatched-Answer next ps none h =
      with_none ps (round_robin policy next ps).decision h (round_robin-Fair next ps)
  dispatched-Answer next ps (some (p, j)) ((m, k, c), u) = inl (record {
    project = p;
    job = j;
    member = m;
    of_project = k;
    candidate = c;
    names_project = refl;
    names_job = refl;
    records_priority = refl;
    unbeaten = u;
  })

  select_ordered-Answer :
      (next : State) (ps : List Project) → Answer policy ps (select_ordered policy next ps).decision
  unfolding select_ordered
  select_ordered-Answer next ps =
      dispatched-Answer next ps (best_emergency ps policy) (best_emergency-MostUrgent policy ps)

  Answer-sorted :
      (ps : List Project) (d : Option Decision)
      → Answer policy (sort_projects ps) d
      → Answer policy ps d
  Answer-sorted ps none (h, k) = (All-sort_projects _ ps h, All-sort_projects _ ps k)
  Answer-sorted ps (some d) (inr (h, f)) =
      inr (All-sort_projects _ ps h, Chosen-within f (from_sorted ps f.project f.member) f.unbeaten)
  Answer-sorted ps (some d) (inl f) =
      inl (Chosen-within f (from_sorted ps f.project f.member) (All-sort_projects _ ps f.unbeaten))

  -- Select answers a decision for an eligible job of one of its projects. An emergency job goes first,
  -- and no other emergency job of any project goes before it. Without emergency work it is a standard
  -- job, and no other one of its project goes before it. No decision means that no project has an
  -- eligible job.
  pub select-Answer :
      (state : State) (projects : List Project) (outcome : Outcome)
      → select policy state projects ≡ ok outcome
      → Answer policy projects outcome.decision
  unfolding select
  select-Answer state projects outcome h =
      let ordered = sort_projects projects in
      let next = normalized_state state ordered in
      let (_, _, e) =
        >>=-eq-ok (validate policy state projects) (λ _. ok (select_ordered policy next ordered))
          h in
      Answer-sorted projects outcome.decision (
        subst (λ o. Answer policy ordered o.decision) (ok-injective e)
          (select_ordered-Answer next ordered))
