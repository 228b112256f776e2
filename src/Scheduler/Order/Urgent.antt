-- ===== src/Scheduler/Order/Urgent.antt =====
-- What bestEmergency selects, among the emergency jobs of all projects.
use mathlib.Core.List.{Memᴰ}
use mathlib.Core.List.Memᴰ.{head, tail}
use kube_queue.Common.{
  ◌≡◌, ◌∙◌, refl, true, false, List, [], ◌∷◌, Option, none, some, All, All-map, arith, ◌⊎◌, inl,
  inr, Bool-cases,
}
use kube_queue.Scheduler.Input.{emergency, Policy, Job, Project}
use kube_queue.Scheduler.Order.{
  job_before, job_before_irrefl, job_before_trans, job_before_split, best_job, best_emergency_from,
  best_emergency, is_candidate, choose, found_before,
}
use kube_queue.Scheduler.Order.Best.{Best, best_job-Best}

module _ (policy : Policy) where
  abbrev Unbeaten : Job → Option (Project × Job) → Type 0
  Unbeaten j none = ⊥
  Unbeaten j (some (p, best)) = job_before j best policy ≡ false

  choose_keeps :
      (selected : Option (Project × Job)) (x : Project × Job) (y : Job)
      → Unbeaten y selected
      → Unbeaten y (choose (found_before policy) selected x)
  unfolding found_before
  choose_keeps none x y u = absurd u
  choose_keeps (some (p, best)) (q, j) y u =
      elim (Bool-cases (found_before policy (q, j) (p, best))) [
        | inr e ↦ rw e u
        | inl e ↦ rw e (
            ground
              (arith, u, e, job_before_trans y j best policy, job_before_split y best j policy))
      ]

  choose_covers :
      (selected : Option (Project × Job)) (q : Project) (j : Job)
      → Unbeaten j (choose (found_before policy) selected (q, j))
  unfolding found_before
  choose_covers none q j = job_before_irrefl j policy
  choose_covers (some (p, best)) q j = elim (Bool-cases (found_before policy (q, j) (p, best))) [
    | inl e ↦ rw e (job_before_irrefl j policy)
    | inr e ↦ rw e (ground (arith, e))
  ]

  Unbeaten-of_job :
      (selected : Option (Project × Job)) (k j : Job)
      → job_before k j policy ≡ false
      → Unbeaten j selected
      → Unbeaten k selected
  Unbeaten-of_job none k j b u = u
  Unbeaten-of_job (some (p, best)) k j b u = ground (arith, job_before_split k j best policy)

  abbrev add_found : Option (Project × Job) → Project → Option Job → Option (Project × Job)
  add_found selected project found = elim found [
    | none ↦ selected
    | some job ↦ choose (found_before policy) selected (project, job)
  ]

  abbrev consider : Option (Project × Job) → Project → Option (Project × Job)
  consider selected project = add_found selected project (best_job project.jobs emergency policy)

  add_found_keeps :
      (selected : Option (Project × Job)) (project : Project) (found : Option Job) (y : Job)
      → Unbeaten y selected
      → Unbeaten y (add_found selected project found)
  add_found_keeps selected project none y u = u
  add_found_keeps selected project (some job) y u = choose_keeps selected (project, job) y u

  add_found_covers :
      (selected : Option (Project × Job)) (project : Project) (found : Option Job)
      → Best emergency policy found project.jobs
      → All
          (λ k. is_candidate emergency k ≡ true → Unbeaten k (add_found selected project found))
          project.jobs
  add_found_covers selected project none b = All-map project.jobs (λ k no c. ground arith) b
  add_found_covers selected project (some job) (_, _, b) =
      All-map project.jobs
        (λ k f c.
          Unbeaten-of_job (choose (found_before policy) selected (project, job)) k job (f c)
            (choose_covers selected project job))
        b

  from_keeps :
      (selected : Option (Project × Job)) (projects : List Project) (y : Job)
      → Unbeaten y selected
      → Unbeaten y (best_emergency_from selected projects policy)
  unfolding best_emergency_from
  from_keeps selected [] y u = u
  from_keeps selected (p ∷ ps) y u =
      from_keeps (consider selected p) ps y
        (add_found_keeps selected p (best_job p.jobs emergency policy) y u)

  from_covers :
      (selected : Option (Project × Job)) (projects : List Project)
      → All
          (λ p.
            All
              (λ k.
                is_candidate emergency k ≡ true
                → Unbeaten k (best_emergency_from selected projects policy))
              p.jobs)
          projects
  unfolding best_emergency_from
  from_covers selected [] = tt
  from_covers selected (p ∷ ps) = (
    All-map p.jobs (λ k f c. from_keeps (consider selected p) ps k (f c))
        (add_found_covers selected p (best_job p.jobs emergency policy)
          (best_job-Best emergency policy p.jobs)),
    from_covers (consider selected p) ps,
  )

  -- An emergency job of one of the projects.
  abbrev IsFound : List Project → Project × Job → Type 0
  IsFound projects (p, j) = Memᴰ p projects × Memᴰ j p.jobs × (is_candidate emergency j ≡ true)

  abbrev Origin : Option (Project × Job) → Option (Project × Job) → List Project → Type 0
  Origin selected answer projects =
      (answer ≡ selected) ⊎ ((f : Project × Job) × (answer ≡ some f) × IsFound projects f)

  add_found-Origin :
      (selected : Option (Project × Job)) (p : Project) (found : Option Job)
      → Best emergency policy found p.jobs
      → Origin selected (add_found selected p found) (p ∷ [])
  add_found-Origin selected p none b = inl refl
  add_found-Origin none p (some j) (m, c, _) = inr ((p, j), refl, (head refl, m, c))
  add_found-Origin (some best) p (some j) (m, c, _) =
      elim (Bool-cases (found_before policy (p, j) best)) [
        | inl e ↦ inr ((p, j), rw e refl, (head refl, m, c))
        | inr e ↦ inl (rw e refl)
      ]

  here_first :
      (p : Project) (ps : List Project) (f : Project × Job)
      → IsFound (p ∷ []) f
      → IsFound (p ∷ ps) f
  here_first p ps (q, j) (head e, m, c) = (head e, m, c)
  here_first p ps (q, j) (tail none_there, m, c) = elim none_there [ ]

  from-Origin :
      (selected : Option (Project × Job)) (projects : List Project)
      → Origin selected (best_emergency_from selected projects policy) projects
  unfolding best_emergency_from
  from-Origin selected [] = inl refl
  from-Origin selected (p ∷ ps) = elim (from-Origin (consider selected p) ps) [
    | inr (f, e, (m, held, c)) ↦ inr (f, e, (tail m, held, c))
    | inl e ↦
        elim (add_found-Origin selected p (best_job p.jobs emergency policy)
          (best_job-Best emergency policy p.jobs)) [
            | inl same ↦ inl (e ∙ same)
            | inr (f, new, w) ↦ inr (f, e ∙ new, here_first p ps f w)
          ]
  ]

  -- What bestEmergency answers.
  abbrev pub MostUrgent : Option (Project × Job) → List Project → Type 0
  MostUrgent none projects =
      All (λ p. All (λ k. is_candidate emergency k ≡ true → ⊥) p.jobs) projects
  MostUrgent (some (p, j)) projects =
      IsFound projects (p, j)
      × All (λ q. All (λ k. is_candidate emergency k ≡ true → job_before k j policy ≡ false) q.jobs)
          projects

  pub best_emergency-MostUrgent :
      (projects : List Project) → MostUrgent (best_emergency projects policy) projects
  unfolding best_emergency
  best_emergency-MostUrgent projects =
      let all = from_covers none projects in
      elim (from-Origin none projects) [
        | inl e ↦ rw e (rw e at all)
        | inr (f, e, w) ↦ rw e (w, rw e at all)
      ]
