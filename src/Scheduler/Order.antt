-- ===== src/Scheduler/Order.antt =====
-- internal/scheduler/scheduler.go: the order of the jobs of one lane.
pub mod Best
pub mod Urgent
use kube_queue.Common.{
  IsInt64-of_parts, IsInt64-parts, add_int64-exact, sub_int64-exact, ◌∙◌, mul_int64-exact,
  first_above, first_above_trans, first_above_split, text_lt_split, Bool-cases, inl, inr, ◌%◌, ℕ,
  ◌+◌, ◌-◌, ◌*◌, ◌/◌, ◌^◌, ◌<◌, ◌≤◌, ◌≡◌, refl, Bool, true, false, not, ◌&&◌, ◌||◌, ltb,
  text_lt_irrefl, text_lt_trans, ◌-ℤ◌, ◌==◌, if◌then◌else◌, ℤ, pos, negsuc, pos_part, neg_part,
  ltb_ℤ, eq_ℤ, ◌+ℤ◌, add_int64, sub_int64, mul_int64, to_uint64, IsInt64, Text, text_lt, List, [],
  ◌∷◌, Option, none, some, arith,
}
use native.Mathlib.Nat.{le-div_iff_mul-le, div-le_self}
use kube_queue.Scheduler.Input.{Lane, emergency, lane_eq, Policy, Job, Project}

abbrev pub max_int64 : ℤ
max_int64 = pos (2 ^ 63 - 1)

-- effectivePriority. The step is positive once the policy is validated; the source divides by it.
unfoldable pub effective_priority : Job → Policy → ℤ
effective_priority job policy =
    if ltb ((2 ^ 63 - 1) / to_uint64 policy.aging_step) job.age
    then max_int64
    else let boost = mul_int64 (pos job.age) policy.aging_step in
      if ltb_ℤ (sub_int64 max_int64 boost) job.priority
      then max_int64
      else add_int64 job.priority boost

-- jobBefore
unfoldable pub job_before : Job → Job → Policy → Bool
job_before left right policy =
    let l = effective_priority left policy in
    let r = effective_priority right policy in
    if not (eq_ℤ l r)
    then ltb_ℤ r l
    else if not (eq_ℤ left.priority right.priority)
    then ltb_ℤ right.priority left.priority
    else if not (left.age == right.age)
    then ltb right.age left.age
    else text_lt left.id right.id

-- `if !found || before { selected = x; found = true }`, where `none` is not found.
abbrev pub choose {ℓ} : {A : Type ℓ} → (A → A → Bool) → Option A → A → Option A
choose before none x = some x
choose before (some best) x = if before x best then some x else some best

-- Whether a job may be selected in a lane.
abbrev pub is_candidate : Lane → Job → Bool
is_candidate lane job = job.eligible && lane_eq job.lane lane

-- The loop of bestJob, from what is selected so far.
unfoldable pub best_from : Option Job → List Job → Lane → Policy → Option Job
best_from selected [] lane policy = selected
best_from selected (job ∷ jobs) lane policy =
    best_from
      (if not (is_candidate lane job)
        then selected
        else choose (λ j k. job_before j k policy) selected job)
      jobs lane policy

-- bestJob
unfoldable pub best_job : List Job → Lane → Policy → Option Job
unfolding best_from
best_job jobs lane policy = best_from none jobs lane policy

-- The test in the loop of bestEmergency: the identifiers of the projects break ties.
unfoldable pub found_before : Policy → Project × Job → Project × Job → Bool
unfolding job_before
found_before policy (p, j) (q, k) =
    job_before j k policy || (not (job_before k j policy) && text_lt p.id q.id)

-- The loop of bestEmergency, from what is selected so far.
unfoldable pub best_emergency_from :
    Option (Project × Job) → List Project → Policy → Option (Project × Job)
unfolding best_job found_before
best_emergency_from selected [] policy = selected
best_emergency_from selected (project ∷ projects) policy =
    best_emergency_from
      (elim (best_job project.jobs emergency policy) [
        | none ↦ selected
        | some job ↦ choose (found_before policy) selected (project, job)
      ])
      projects policy

-- bestEmergency
unfoldable pub best_emergency : List Project → Policy → Option (Project × Job)
unfolding best_emergency_from
best_emergency projects policy = best_emergency_from none projects policy

-- The priority with its boost, where both the boost and the sum are cut at the largest int64.
abbrev pub saturated : ℤ → ℕ → ℤ
saturated priority boost =
    if ltb_ℤ max_int64 (pos boost) || ltb_ℤ max_int64 (priority +ℤ pos boost)
    then max_int64
    else priority +ℤ pos boost

room : (boost : ℕ) → boost < 2 ^ 63 → sub_int64 max_int64 (pos boost) ≡ pos (2 ^ 63 - 1 - boost)
unfolding ◌-ℤ◌
room boost h =
    let e : max_int64 -ℤ pos boost ≡ pos (2 ^ 63 - 1 - boost) = ground arith in
    sub_int64-exact max_int64 (pos boost) (rw e (omega arith)) ∙ e

boosted :
    (priority : ℤ) (boost : ℕ)
    → IsInt64 priority
    → boost < 2 ^ 63
    → (if ltb_ℤ (sub_int64 max_int64 (pos boost)) priority
        then max_int64
        else add_int64 priority (pos boost))
      ≡ saturated priority boost
unfolding ◌+ℤ◌
boosted p boost h k =
    let bounds = IsInt64-parts p h in
    rw (room boost k) elim (Bool-cases (ltb_ℤ (pos (2 ^ 63 - 1 - boost)) p)) [
      | inl e ↦ ground (arith, e)
      | inr e ↦
          let fits : IsInt64 (p +ℤ pos boost) =
            IsInt64-of_parts (p +ℤ pos boost) (ground (arith, e, bounds))
              (ground (arith, e, bounds)) in
          rw (add_int64-exact p (pos boost) fits) (ground (arith, e))
    ]

-- The effective priority is priority + age · step without any overflow, except that the product and
-- the sum stop at the largest int64: for every int64 priority, every age and every positive int64
-- step.
pub effective_priority-saturated :
    (job : Job) (version : Text) (step : ℕ)
    → 0 < step
    → step < 2 ^ 63
    → IsInt64 job.priority
    → effective_priority job (record { version = version; aging_step = pos step })
      ≡ saturated job.priority (job.age * step)
unfolding effective_priority
effective_priority-saturated job version step z s p =
    let (within, back) = le-div_iff_mul-le {x = job.age} {y = 2 ^ 63 - 1} z in
    let small = div-le_self (2 ^ 63 - 1) step in
    let same : step % 2 ^ 64 ≡ step = omega arith in
    elim (Bool-cases (ltb ((2 ^ 63 - 1) / step) job.age)) [
      | inl h ↦ ground (arith, h, within, back, small, same)
      | inr h ↦ ground (
        arith,
        h,
        within,
        back,
        small,
        same,
        mul_int64-exact job.age step,
        boosted job.priority (job.age * step),
      )
    ]

pub job_before_irrefl : (job : Job) (policy : Policy) → job_before job job policy ≡ false
unfolding job_before
job_before_irrefl job policy = ground (arith, text_lt_irrefl job.id)

-- The last two keys, and the last three.
abbrev by_age : Job → Job → Bool
by_age l r = if not (l.age == r.age) then ltb r.age l.age else text_lt l.id r.id

abbrev by_priority : Job → Job → Bool
by_priority l r = first_above l.priority r.priority (by_age l r)

pub job_before_trans :
    (a b c : Job) (policy : Policy)
    → job_before a b policy ≡ true
    → job_before b c policy ≡ true
    → job_before a c policy ≡ true
unfolding job_before
job_before_trans a b c policy h k =
    first_above_trans (effective_priority a policy) (effective_priority b policy)
      (effective_priority c policy) (by_priority a b) (by_priority b c) (by_priority a c) h k
      (λ h2 k2.
        first_above_trans a.priority b.priority c.priority (by_age a b) (by_age b c) (by_age a c) h2
          k2 (λ h3 k3. ground (arith, text_lt_trans a.id b.id c.id)))

pub job_before_split :
    (a b c : Job) (policy : Policy)
    → job_before a c policy ≡ true
    → (job_before a b policy || job_before b c policy) ≡ true
unfolding job_before
job_before_split a b c policy h =
    first_above_split (effective_priority a policy) (effective_priority b policy)
      (effective_priority c policy) (by_priority a b) (by_priority b c) (by_priority a c) h
      (λ h2.
        first_above_split a.priority b.priority c.priority (by_age a b) (by_age b c) (by_age a c) h2
          (λ h3. ground (arith, text_lt_split a.id b.id c.id)))
