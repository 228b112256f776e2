-- ===== src/Scheduler/Select/Bounded.antt =====
-- The deficits that Select returns: each stays below its project's weight.

use kube_queue.Common.{
  ℕ, ◌-◌, ◌≡◌, refl, false, ◌==◌, List, [], ◌∷◌, Option, none, some, All, All-map, All-both, arith,
  inl, inr, Bool-cases, Text, text_eq, text_eq_iff, ok, >>=-eq-ok, ok-injective, subst, codes,
}
use kube_queue.Scheduler.Input.{
  standard, Policy, Job, Project, State, Outcome, validate, validate_projects, validate_deficits,
  exceeds_weight,
}
use kube_queue.Scheduler.Order.{best_job, best_emergency}
use kube_queue.Scheduler.Select.{
  sort_projects, normalized_state, deficit_of, deficit_before, set_deficit, start_index, rotated,
  decision, head_id, serve, scan, round_robin, select_ordered, select,
}
use kube_queue.Scheduler.Select.Validated.{
  exceeds_weight_mono, exceeds_weight_own, validate_projects-weights, unique,
}
use kube_queue.Scheduler.Select.Selected.{visited, dispatched}
use kube_queue.Scheduler.Select.Carried.{sort_projects-All, All-rotated, All-self}

module _ (projects : List Project) where
  -- The deficit of an entry is below the weight of the project of that identifier.
  abbrev pub IsBounded : Text × ℕ → Type 0
  IsBounded entry = exceeds_weight entry projects ≡ false

  abbrev pub IsReady : Project → Type 0
  IsReady p = IsBounded (p.id, 0) × IsBounded (p.id, p.weight - 1)

  pub validate_deficits_iff :
      (entries : List (Text × ℕ))
      → (validate_deficits entries projects ≡ ok tt → All IsBounded entries)
        × (All IsBounded entries → validate_deficits entries projects ≡ ok tt)
  unfolding validate_deficits
  validate_deficits_iff [] = (λ h. tt, λ b. refl)
  validate_deficits_iff (e ∷ entries) =
      let (there, back) = validate_deficits_iff entries in
      elim (Bool-cases (exceeds_weight e projects)) [
        | inl x ↦ (λ h. ground (arith, x, h), λ b. cc (x, b.0))
        | inr x ↦ rw x (λ h. (refl, there h), λ b. back b.1)
      ]

  pub deficit_of-IsBounded :
      (id : Text) (entries : List (Text × ℕ))
      → IsBounded (id, 0)
      → All IsBounded entries
      → IsBounded (id, deficit_of id entries)
  unfolding deficit_of
  deficit_of-IsBounded id [] z b = z
  deficit_of-IsBounded id ((key, n) ∷ entries) z (b, bs) = elim (Bool-cases (text_eq key id)) [
    | inl e ↦ rw e (subst (λ k. IsBounded (k, n)) ((text_eq_iff key id).0 e) b)
    | inr e ↦ rw e (deficit_of-IsBounded id entries z bs)
  ]

  set_deficit-IsBounded :
      (id : Text) (n : ℕ) (entries : List (Text × ℕ))
      → IsBounded (id, n)
      → All IsBounded entries
      → All IsBounded (set_deficit id n entries)
  unfolding set_deficit
  set_deficit-IsBounded id n [] h b = (h, tt)
  set_deficit-IsBounded id n (entry ∷ entries) h (b, bs) = elim (Bool-cases (text_eq entry.0 id)) [
    | inl e ↦ rw e (h, bs)
    | inr e ↦ rw e (b, set_deficit-IsBounded id n entries h bs)
  ]

  normalized_state-IsBounded :
      (state : State) (ps : List Project)
      → All IsReady ps
      → All IsBounded state.deficits
      → All IsBounded (normalized_state state ps).deficits
  unfolding normalized_state
  normalized_state-IsBounded state [] r b = tt
  normalized_state-IsBounded state (p ∷ ps) (r, rs) b =
      (deficit_of-IsBounded p.id state.deficits r.0 b, normalized_state-IsBounded state ps rs b)

  serve-IsBounded :
      (policy : Policy) (state : State) (p : Project) (j : Job) (following : Text)
      → IsReady p
      → All IsBounded state.deficits
      → All IsBounded (serve policy state p j following).state.deficits
  unfolding serve decision
  serve-IsBounded policy state p j following (z, w) b =
      set_deficit-IsBounded p.id (deficit_before state p - 1) state.deficits
        (elim (Bool-cases (deficit_of p.id state.deficits == 0)) [
          | inl e ↦ rw e w
          | inr e ↦ rw e (
              exceeds_weight_mono p.id (deficit_of p.id state.deficits - 1)
                (deficit_of p.id state.deficits) projects (omega arith)
                (deficit_of-IsBounded p.id state.deficits z b))
        ])
        b

  visited-IsBounded :
      (policy : Policy) (first : Text) (p : Project) (ps : List Project) (state : State)
      (found : Option Job)
      → IsReady p
      → All IsBounded state.deficits
      → ((next : State)
          → All IsBounded next.deficits
          → All IsBounded (scan policy first ps next).state.deficits)
      → All IsBounded (visited policy first p ps state found).state.deficits
  visited-IsBounded policy first p ps state none r b rest =
      rest (record state { deficits = set_deficit p.id 0 state.deficits })
        (set_deficit-IsBounded p.id 0 state.deficits r.0 b)
  visited-IsBounded policy first p ps state (some j) r b rest =
      serve-IsBounded policy state p j (head_id ps first) r b

  scan-IsBounded :
      (policy : Policy) (first : Text) (ps : List Project) (state : State)
      → All IsReady ps
      → All IsBounded state.deficits
      → All IsBounded (scan policy first ps state).state.deficits
  unfolding scan
  scan-IsBounded policy first [] state r b = b
  scan-IsBounded policy first (p ∷ ps) state (r, rs) b =
      visited-IsBounded policy first p ps state (best_job p.jobs standard policy) r b
        (λ next. scan-IsBounded policy first ps next rs)

  pub validated-IsReady : validate_projects [] projects ≡ ok tt → All IsReady projects
  validated-IsReady h =
      All-map projects
        (λ p ready.
          let (m, w) = ready in
          let own =
            exceeds_weight_own p projects w
              (All-map projects (λ q n e. unique [] projects p q h m n e) (All-self projects)) in
          (exceeds_weight_mono p.id 0 (p.weight - 1) projects (omega arith) own, own))
        (All-both _ _ projects (All-self projects) (validate_projects-weights [] projects h))

  round_robin-IsBounded :
      (policy : Policy) (state : State) (ps : List Project)
      → All IsReady ps
      → All IsBounded state.deficits
      → All IsBounded (round_robin policy state ps).state.deficits
  unfolding round_robin
  round_robin-IsBounded policy state [] r b = b
  round_robin-IsBounded policy state (p ∷ ps) r b =
      let start = start_index (p ∷ ps) state.next_project_id in
      let turn = rotated start (p ∷ ps) in
      scan-IsBounded policy (head_id turn (codes "")) turn state
        (All-rotated IsReady start (p ∷ ps) r) b

  dispatched-IsBounded :
      (policy : Policy) (next : State) (ps : List Project) (found : Option (Project × Job))
      → All IsReady ps
      → All IsBounded next.deficits
      → All IsBounded (dispatched policy next ps found).state.deficits
  unfolding decision
  dispatched-IsBounded policy next ps none r b = round_robin-IsBounded policy next ps r b
  dispatched-IsBounded policy next ps (some f) r b = b

-- The parts of a validation, and the one that depends on the state.
pub validate-parts :
    (policy : Policy) (state : State) (projects : List Project)
    → validate policy state projects ≡ ok tt
    → (validate_projects [] projects ≡ ok tt)
      × (validate_deficits state.deficits projects ≡ ok tt)
      × ((other : State)
          → validate_deficits other.deficits projects ≡ ok tt
          → validate policy other projects ≡ ok tt)
unfolding validate
validate-parts policy state projects h =
    (ground (arith, h), ground (arith, h), λ other k. ground (arith, h, k))

-- The state that Select returns is accepted by the next call with the same policy and projects: every
-- deficit is again below its project's weight.
pub select-validate :
    (policy : Policy) (state : State) (projects : List Project) (outcome : Outcome)
    → select policy state projects ≡ ok outcome
    → validate policy outcome.state projects ≡ ok tt
unfolding select select_ordered
select-validate policy state projects outcome h =
    let ordered = sort_projects projects in
    let next = normalized_state state ordered in
    let (_, valid, e) =
      >>=-eq-ok (validate policy state projects) (λ _. ok (select_ordered policy next ordered)) h in
    let (fine, within, again) = validate-parts policy state projects valid in
    let ready = sort_projects-All (IsReady projects) projects (validated-IsReady projects fine) in
    let start =
      normalized_state-IsBounded projects state ordered ready
        ((validate_deficits_iff projects state.deficits).0 within) in
    again outcome.state (
      (validate_deficits_iff projects outcome.state.deficits).1 (
        subst (λ o. All (IsBounded projects) o.state.deficits) (ok-injective e)
          (dispatched-IsBounded projects policy next ordered (best_emergency ordered policy) ready
            start)))
