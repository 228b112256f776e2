-- ===== src/Scheduler/Fairness/Rounds.antt =====
-- Many calls of Select, each with the state that the one before returned and the jobs that are queued
-- by then.
use mathlib.Core.List.{Memᴰ}
use kube_queue.Common.{
  ◌≤◌, ◌<◌, ◌≡◌, ◌≢◌, ◌∙◌, refl, sym, ap, subst, Bool, true, false, ◌||◌, Text, text_eq, List, [],
  ◌∷◌, All, All-map, All-both, none, arith, inl, inr, Result, ok, err, length,
}
use kube_queue.Scheduler.Input.{
  standard, emergency, Policy, Job, Project, State, Outcome, SchedulingError, validate,
}
use kube_queue.Scheduler.Order.{best_emergency, is_candidate}
use kube_queue.Scheduler.Select.{
  deficit_of, deficit_before, sort_projects, normalized_state, start_index, rotated, round_robin,
  select,
}
use kube_queue.Scheduler.Select.Carried.{
  All-self, All-rotated, sort_projects-All, All-sort_projects, rotated-All,
}
use kube_queue.Scheduler.Select.Selected.{HasNone}
use kube_queue.Scheduler.Select.Validated.{validate_projects-weights}
use kube_queue.Scheduler.Select.Bounded.{
  validate_deficits_iff, deficit_of-IsBounded, validated-IsReady, validate-parts, select-validate,
}
use kube_queue.Scheduler.Fairness.Turn.{
  IsAscending, IsDistinct, sort_projects-IsAscending, rotated-IsTurn, rotated-start_index,
}
use kube_queue.Scheduler.Fairness.Ahead.{
  with_jobs, stocked, is_named, has_id, ahead, ahead_same, Progress,
}
use kube_queue.Scheduler.Fairness.Stocked.{sort_projects-stocked, validate_deficits-stocked}
use kube_queue.Scheduler.Fairness.Round.{
  best_job-of_candidate, best_emergency-none, select_ordered-calm, round_robin-Progress,
  deficit_of-normalized_state, has_id_self,
}
use kube_queue.Scheduler.Fairness.Weights.{
  total_weight, total_weight-IsTurn, total_weight-sort_projects, ahead-lt-total_weight,
  has_id-carried, validate_projects-IsDistinct, exceeds_weight_member, has_id-All,
}

-- Whether some of the decisions is for the project; the calls end at an error.
unfoldable pub serves : Policy → List Project → Text → State → List (Text → List Job) → Bool
serves policy projects id state [] = false
serves policy projects id state (stock ∷ rounds) =
    elim (select policy state (stocked stock projects)) [
      | err e ↦ false
      | ok outcome ↦ is_named id outcome.decision || serves policy projects id outcome.state rounds
    ]

-- A round in which the project has an eligible job, and no project an emergency job.
pub record IsRound (policy : Policy) (projects : List Project) (id : Text) (state : State)
    (stock : Text → List Job) : Type 0 where
  pub valid : validate policy state (stocked stock projects) ≡ ok tt
  pub no_emergency : HasNone emergency (stocked stock projects)
  pub job : Job
  pub queued : Memᴰ job (stock id)
  pub candidate : is_candidate standard job ≡ true

module _ (stock : Text → List Job) where
  stocked-All :
      (P : Project → Type 0) (ps : List Project)
      → All P (stocked stock ps)
      → All (λ p. P (with_jobs stock p)) ps
  stocked-All P [] h = tt
  stocked-All P (p ∷ ps) (h, hs) = (h, stocked-All P ps hs)

  IsDistinct-stocked : (ps : List Project) → IsDistinct (stocked stock ps) → IsDistinct ps
  IsDistinct-stocked [] d = tt
  IsDistinct-stocked (p ∷ ps) (d, ds) =
      (stocked-All (λ q. text_eq q.id p.id ≡ false) ps d, IsDistinct-stocked ps ds)

module _ (policy : Policy) (projects : List Project) (id : Text) where
  module _ (state : State) (stock : Text → List Job)
      (round : IsRound policy projects id state stock) where
    round-weights : All (λ p. p.weight ≢ 0) projects
    round-weights =
        let (fine, _, _) = validate-parts policy state (stocked stock projects) round.valid in
        stocked-All stock (λ p. p.weight ≢ 0) projects
          (validate_projects-weights [] (stocked stock projects) fine)

    round-IsDistinct : IsDistinct projects
    round-IsDistinct =
        let (fine, _, _) = validate-parts policy state (stocked stock projects) round.valid in
        IsDistinct-stocked stock projects
          (validate_projects-IsDistinct [] (stocked stock projects) fine)

    round-IsAscending : IsAscending (sort_projects projects)
    round-IsAscending = sort_projects-IsAscending projects round-IsDistinct

    abbrev next_state : State
    next_state = normalized_state state (stocked stock (sort_projects projects))

    abbrev answer : Outcome
    answer = round_robin policy next_state (stocked stock (sort_projects projects))

    round-select : select policy state (stocked stock projects) ≡ ok answer
    unfolding select
    round-select =
        let sorted = sort_projects-stocked stock projects in
        let calm = sort_projects-All _ (stocked stock projects) round.no_emergency in
        let quiet = best_emergency-none policy (sort_projects (stocked stock projects)) calm in
        let none_found : best_emergency (stocked stock (sort_projects projects)) policy ≡ none =
          rw sorted at quiet in
        rw (round.valid, sorted)
          (ap ok (
            select_ordered-calm policy next_state (stocked stock (sort_projects projects))
              none_found))

    round-Progress :
        (turn : List Project)
        → rotated
            (start_index (sort_projects projects) state.next_project_id)
            (sort_projects projects)
          ≡ turn
        → has_id id turn ≡ true
        → Progress id (sort_projects projects) (ahead id state turn) answer
    unfolding normalized_state
    round-Progress turn r h =
        let ordered = sort_projects projects in
        let start = start_index ordered state.next_project_id in
        let kept =
          λ (p : Project). deficit_of p.id next_state.deficits ≡ deficit_of p.id state.deficits in
        let all : All kept ordered =
          All-map ordered (λ p k. deficit_of-normalized_state p.id state (stocked stock ordered) k)
            (has_id_self stock ordered) in
        let on_turn : All kept turn = rw r at (All-rotated kept start ordered all) in
        subst (λ n. Progress id ordered n answer) (ahead_same id next_state state turn on_turn)
          (round_robin-Progress policy stock id ordered turn next_state round-IsAscending
            (sort_projects-All (λ p. p.weight ≢ 0) projects round-weights)
            (best_job-of_candidate policy (stock id) round.job round.queued round.candidate) r h)

    -- A later round stays valid with the state that this one leaves.
    IsRound-next :
        (later : Text → List Job)
        → IsRound policy projects id state later
        → IsRound policy projects id answer.state later
    IsRound-next later next =
        let (_, _, again) = validate-parts policy state (stocked later projects) next.valid in
        let kept = select-validate policy state (stocked stock projects) answer round-select in
        let (_, within, _) = validate-parts policy answer.state (stocked stock projects) kept in
        record {
          valid = again answer.state (
              validate_deficits-stocked later answer.state.deficits projects
              ∙ sym (validate_deficits-stocked stock answer.state.deficits projects)
              ∙ within);
          no_emergency = next.no_emergency;
          job = next.job;
          queued = next.queued;
          candidate = next.candidate;
        }

  All-IsRound-next :
      (state : State) (stock : Text → List Job) (round : IsRound policy projects id state stock)
      (rounds : List (Text → List Job))
      → All (IsRound policy projects id state) rounds
      → All (IsRound policy projects id (answer state stock round).state) rounds
  All-IsRound-next state stock round rounds all =
      All-map rounds (λ later next. IsRound-next state stock round later next) all

  abbrev continued : List (Text → List Job) → Result SchedulingError Outcome → Bool
  continued rounds result = elim result [
    | err e ↦ false
    | ok outcome ↦ is_named id outcome.decision || serves policy projects id outcome.state rounds
  ]

  serves-ok :
      (state : State) (stock : Text → List Job) (rounds : List (Text → List Job)) (o : Outcome)
      → select policy state (stocked stock projects) ≡ ok o
      → serves policy projects id state (stock ∷ rounds)
        ≡ (is_named id o.decision || serves policy projects id o.state rounds)
  unfolding serves
  serves-ok state stock rounds o e = ap (continued rounds) e

  serves-of_ahead :
      (rounds : List (Text → List Job)) (state : State) (turn : List Project)
      → rotated
          (start_index (sort_projects projects) state.next_project_id)
          (sort_projects projects)
        ≡ turn
      → has_id id turn ≡ true
      → All (IsRound policy projects id state) rounds
      → ahead id state turn < length rounds
      → serves policy projects id state rounds ≡ true
  unfolding serves
  serves-of_ahead [] state turn r h all less = absurd (omega arith)
  serves-of_ahead (stock ∷ rounds) state turn r h (round, all) less =
      rw (serves-ok state stock rounds (answer state stock round) (round-select state stock round))
        elim (round-Progress state stock round turn r h) [
          | inl named ↦ rw named refl
          | inr (x ∷ rest, is_turn, here, cursor, fewer) ↦
              let found =
                rotated-start_index (sort_projects projects) rest x
                  (round-IsAscending state stock round) is_turn in
              let at_turn : rotated
                    (start_index (sort_projects projects)
                      (answer state stock round).state.next_project_id)
                    (sort_projects projects)
                  ≡ x ∷ rest =
                rw cursor found in
              let later =
                serves-of_ahead rounds (answer state stock round).state (x ∷ rest) at_turn here
                  (All-IsRound-next state stock round rounds all) (omega arith) in
              ground (arith, later)
          | inr ([], is_turn, here, cursor, fewer) ↦ cc here
        ]

-- In a round no project may be given more than its weight.
round-limits :
    (policy : Policy) (projects : List Project) (id : Text) (state : State)
    (stock : Text → List Job)
    → IsRound policy projects id state stock
    → All (λ p. (p.weight ≢ 0) × (deficit_before state p ≤ p.weight)) projects
round-limits policy projects id state stock round =
    let here = stocked stock projects in
    let (fine, within, _) = validate-parts policy state here round.valid in
    let entries = (validate_deficits_iff here state.deficits).0 within in
    All-both _ _ projects (round-weights policy projects id state stock round) (
      stocked-All stock (λ p. deficit_before state p ≤ p.weight) projects
        (All-map here
          (λ p (m, ready).
            let left =
              exceeds_weight_member p (deficit_of p.id state.deficits) here m
                (deficit_of-IsBounded here p.id state.deficits ready.0 entries) in
            ground (arith, left))
          (All-both _ _ here (All-self here) (validated-IsReady here fine))))

-- Fairness: a project that has an eligible job in every round, none of which has emergency work, is
-- selected at least once in as many decisions as the sum of the weights. The other projects may gain
-- and lose jobs from round to round, and the calls return no error before that.
pub serves_fair :
    (policy : Policy) (projects : List Project) (id : Text) (state : State)
    (first : Text → List Job) (rounds : List (Text → List Job))
    → has_id id projects ≡ true
    → All (IsRound policy projects id state) (first ∷ rounds)
    → total_weight projects ≤ length (first ∷ rounds)
    → serves policy projects id state (first ∷ rounds) ≡ true
serves_fair policy projects id state first rounds h (round, all) enough =
    let ordered = sort_projects projects in
    let start = start_index ordered state.next_project_id in
    let turn = rotated start ordered in
    let listed =
      All-sort_projects (λ p. has_id p.id turn ≡ true) projects
        (rotated-All (λ p. has_id p.id turn ≡ true) start ordered (has_id-All turn)) in
    let here = has_id-carried id projects turn listed h in
    let limits = λ (p : Project). (p.weight ≢ 0) × (deficit_before state p ≤ p.weight) in
    let limited : All limits turn =
      All-rotated limits start ordered
        (sort_projects-All limits projects (round-limits policy projects id state first round)) in
    let less = ahead-lt-total_weight id state turn limited here in
    let same = total_weight-IsTurn ordered turn (rotated-IsTurn start ordered) in
    let sorted = total_weight-sort_projects projects in
    serves-of_ahead policy projects id (first ∷ rounds) state turn refl here (round, all)
      (omega arith)
