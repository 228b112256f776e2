-- ===== src/Scheduler/Order/Best.antt =====
-- What bestJob and bestEmergency select: a candidate that no other precedes.
use mathlib.Core.List.{Memᴰ}
use mathlib.Core.List.Memᴰ.{head, tail}
use kube_queue.Common.{
  ◌≡◌, ◌∙◌, refl, Bool, true, false, List, [], ◌∷◌, Option, none, some, All, arith, ◌⊎◌, inl, inr,
  Bool-cases, not, if◌then◌else◌,
}
use kube_queue.Scheduler.Input.{Lane, Policy, Job}
use kube_queue.Scheduler.Order.{
  job_before, job_before_irrefl, job_before_trans, best_from, best_job, is_candidate, choose,
}

-- Keeping the better of what is selected and a new element, for any order.
module _ {ℓ} {A : Type ℓ} (before : A → A → Bool) where
  abbrev pub Unbeaten : A → Option A → Type 0
  Unbeaten x none = ⊥
  Unbeaten x (some best) = before x best ≡ false

  module _ (irrefl : (x : A) → before x x ≡ false)
      (trans : (x y z : A) → before x y ≡ true → before y z ≡ true → before x z ≡ true) where
    pub Unbeaten-choose :
        (selected : Option A) (x y : A)
        → Unbeaten y selected
        → Unbeaten y (choose before selected x)
    Unbeaten-choose none x y u = absurd u
    Unbeaten-choose (some best) x y u = elim (Bool-cases (before x best)) [
      | inr e ↦ rw e u
      | inl e ↦
          rw e elim (Bool-cases (before y x)) [ inr f ↦ f | inl f ↦ cc (u, trans y x best f e) ]
    ]

    pub choose-Unbeaten : (selected : Option A) (x : A) → Unbeaten x (choose before selected x)
    choose-Unbeaten none x = irrefl x
    choose-Unbeaten (some best) x = ground (arith, irrefl x)

module _ (lane : Lane) (policy : Policy) where
  abbrev ahead : Job → Job → Bool
  ahead j k = job_before j k policy

  abbrev consider : Option Job → Job → Option Job
  consider selected job =
      if not (is_candidate lane job) then selected else choose ahead selected job

  -- What bestJob answers on a list of jobs.
  abbrev pub Best : Option Job → List Job → Type 0
  Best none jobs = All (λ j. is_candidate lane j ≡ false) jobs
  Best (some best) jobs =
      Memᴰ best jobs
      × (is_candidate lane best ≡ true)
      × All (λ j. is_candidate lane j ≡ true → job_before j best policy ≡ false) jobs

  consider-Unbeaten :
      (selected : Option Job) (x y : Job)
      → Unbeaten ahead y selected
      → Unbeaten ahead y (consider selected x)
  consider-Unbeaten selected x y u = elim (Bool-cases (is_candidate lane x)) [
    | inl c ↦ rw c (
        Unbeaten-choose ahead (λ j. job_before_irrefl j policy)
          (λ j k l. job_before_trans j k l policy) selected x y u)
    | inr c ↦ rw c u
  ]

  -- A selected candidate, or none.
  abbrev Candidate : Option Job → Type 0
  Candidate none = Unit
  Candidate (some best) = is_candidate lane best ≡ true

  best_from-Unbeaten :
      (selected : Option Job) (jobs : List Job) (y : Job)
      → Unbeaten ahead y selected
      → Unbeaten ahead y (best_from selected jobs lane policy)
  unfolding best_from
  best_from-Unbeaten selected [] y u = u
  best_from-Unbeaten selected (job ∷ jobs) y u =
      best_from-Unbeaten (consider selected job) jobs y (consider-Unbeaten selected job y u)

  best_from-All :
      (selected : Option Job) (jobs : List Job)
      → All
          (λ j. is_candidate lane j ≡ true → Unbeaten ahead j (best_from selected jobs lane policy))
          jobs
  unfolding best_from
  best_from-All selected [] = tt
  best_from-All selected (job ∷ jobs) = (
    λ c. best_from-Unbeaten (consider selected job) jobs job (
        rw c (
          choose-Unbeaten ahead (λ j. job_before_irrefl j policy)
            (λ j k l. job_before_trans j k l policy) selected job)),
    best_from-All (consider selected job) jobs,
  )

  -- Where the selection comes from.
  abbrev Origin : Option Job → Option Job → List Job → Type 0
  Origin selected answer jobs =
      (answer ≡ selected)
      ⊎ ((b : Job) × (answer ≡ some b) × Memᴰ b jobs × (is_candidate lane b ≡ true))

  consider-Origin :
      (selected : Option Job) (x : Job)
      → (consider selected x ≡ selected)
        ⊎ ((consider selected x ≡ some x) × (is_candidate lane x ≡ true))
  consider-Origin none x = ground arith
  consider-Origin (some best) x = ground arith

  best_from-Origin :
      (selected : Option Job) (jobs : List Job)
      → Origin selected (best_from selected jobs lane policy) jobs
  unfolding best_from
  best_from-Origin selected [] = inl refl
  best_from-Origin selected (job ∷ jobs) = elim (best_from-Origin (consider selected job) jobs) [
    | inl e ↦ elim (consider-Origin selected job) [
      | inl same ↦ inl (e ∙ same)
      | inr (new, c) ↦ inr (job, e ∙ new, head refl, c)
    ]
    | inr (b, e, m, c) ↦ inr (b, e, tail m, c)
  ]

  none_left :
      (jobs : List Job)
      → All (λ j. is_candidate lane j ≡ true → ⊥) jobs
      → All (λ j. is_candidate lane j ≡ false) jobs
  none_left [] h = tt
  none_left (job ∷ jobs) h = (ground (arith, h.0), none_left jobs h.1)

  -- The selected job is an eligible job of the lane that no other one of the lane goes before, and
  -- none is selected only where the lane has no eligible job.
  pub best_job-Best : (jobs : List Job) → Best (best_job jobs lane policy) jobs
  unfolding best_job
  best_job-Best jobs =
      let all = best_from-All none jobs in
      elim (best_from-Origin none jobs) [
        | inl e ↦ rw e (none_left jobs (rw e at all))
        | inr (b, e, m, c) ↦ rw e (m, c, rw e at all)
      ]
