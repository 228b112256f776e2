-- ===== src/Persistence/Jobs/Reordered.antt =====
-- What a reordering of the queue leaves.
use kube_queue.Common.{
  ℕ, ◌+◌, ◌≡◌, ◌↔◌, ◌≤ℤ◌, ltb_ℤ, text_eq_refl, refl, sym, ap, subst, ◌∙◌, pos, Bool, true, false,
  not, ◌==◌, Text, text_eq, text_eq_iff, is_listed, length, List, [], ◌∷◌, Option, none, some,
  Bool-cases, inl, inr, Result, ok, err, ◌>>=◌, ◌>>◌, fail_if, arith,
}
use kube_queue.Persistence.Jobs.{JobRow, Store, JobError, stale_version, get_job, update_job}
use kube_queue.Persistence.Jobs.Calls.{Saved}
use kube_queue.Persistence.Jobs.Versions.{get_job-update_job}
use kube_queue.Persistence.Jobs.Ids.{
  Among, IsDistinct, AllListed, is_listed-Among, Among-is_listed, AllListed-is_listed, covered,
}
use kube_queue.Persistence.Jobs.Queued.{
  ids_of, IsQueued, is_queued-IsQueued, IsQueued-is_queued, get_job-Among, Among-get_job,
  get_job-queued_jobs, queued_jobs-get_job, queued_jobs-IsDistinct, length-ids_of,
}
use kube_queue.Persistence.Jobs.Reorder.{
  priority_of, queued_jobs, has_duplicate, lacks_job, is_inverted, at_position, moved_to, moved_or,
  place_from, next_version, reorder,
}

moved_or-ok :
    (n : ℕ) (id : Text) (s t : Store) (found : Option JobRow)
    → moved_or n id s found ≡ ok t
    → (row : JobRow) × (found ≡ some row) × (t ≡ moved_to n id s)
moved_or-ok n id s t none e = cc e
moved_or-ok n id s t (some row) e = (row, refl, ground (arith, e))

text_eq_flip : (a b : Text) → text_eq a b ≡ false → text_eq b a ≡ false
text_eq_flip a b e = ground (arith, e, text_eq_iff a b, text_eq_iff b a)

get_job-other :
    (name id : Text) (change : JobRow → JobRow) (jobs : List JobRow)
    → text_eq id name ≡ false
    → ((j : JobRow) → (change j).id ≡ j.id)
    → get_job name (update_job id change jobs) ≡ get_job name jobs
unfolding get_job update_job
get_job-other name id change [] e k = refl
get_job-other name id change (j ∷ jobs) e k = elim (Bool-cases (text_eq j.id id)) [
  | inl f ↦
      let other : text_eq j.id name ≡ false =
        subst (λ n. text_eq n name ≡ false) (sym ((text_eq_iff j.id id).0 f)) e in
      rw (f, k j, other) refl
  | inr f ↦ rw (f, get_job-other name id change jobs e k) refl
]

-- The first step of the loop.
first_step :
    (n : ℕ) (id : Text) (ids : List Text) (s t : Store)
    → place_from n (id ∷ ids) s ≡ ok t
    → (row : JobRow) × (get_job id s.jobs ≡ some row)
      × (place_from (n + 1) ids (moved_to n id s) ≡ ok t)
unfolding place_from
first_step n id ids s t e = step (moved_or n id s (get_job id s.jobs)) refl e
  where
    step :
        (r : Saved)
        → moved_or n id s (get_job id s.jobs) ≡ r
        → (r >>= λ next. place_from (n + 1) ids next) ≡ ok t
        → (row : JobRow) × (get_job id s.jobs ≡ some row)
          × (place_from (n + 1) ids (moved_to n id s) ≡ ok t)
    step (err reason) f g = cc g
    step (ok next) f g =
        let (row, found, same) = moved_or-ok n id s next (get_job id s.jobs) f in
        (row, found, subst (λ u. place_from (n + 1) ids u ≡ ok t) same g)

-- A job that is not among the ids is left as it is.
place_from-other :
    (name : Text) (n : ℕ) (ids : List Text) (s t : Store)
    → is_listed name ids ≡ false
    → place_from n ids s ≡ ok t
    → get_job name t.jobs ≡ get_job name s.jobs
unfolding place_from is_listed
place_from-other name n [] s t h e = cc e
place_from-other name n (id ∷ ids) s t h e =
    let (row, found, rest) = first_step n id ids s t e in
    let parts : (text_eq name id ≡ false) × (is_listed name ids ≡ false) = ground (arith, h) in
    place_from-other name (n + 1) ids (moved_to n id s) t parts.1 rest
    ∙ get_job-other name id (at_position n) s.jobs (text_eq_flip name id parts.0) (λ j. refl)

-- The jobs of the ids have the positions from a number on, in their order.
abbrev pub IsPlaced : ℕ → List Text → List JobRow → Type 0
IsPlaced n [] jobs = Unit
IsPlaced n (id ∷ ids) jobs =
    ((row : JobRow) × (get_job id jobs ≡ some row) × (row.position ≡ pos n))
    × IsPlaced (n + 1) ids jobs

place_from-IsPlaced :
    (n : ℕ) (ids : List Text) (s t : Store)
    → has_duplicate ids ≡ false
    → place_from n ids s ≡ ok t
    → IsPlaced n ids t.jobs
unfolding has_duplicate
place_from-IsPlaced n [] s t h e = tt
place_from-IsPlaced n (id ∷ ids) s t h e =
    let (row, found, rest) = first_step n id ids s t e in
    let parts : (is_listed id ids ≡ false) × (has_duplicate ids ≡ false) = ground (arith, h) in
    (
      (
        at_position n row,
        place_from-other id (n + 1) ids (moved_to n id s) t parts.0 rest
            ∙ get_job-update_job id (at_position n) row s.jobs found refl,
        refl,
      ),
      place_from-IsPlaced (n + 1) ids (moved_to n id s) t parts.1 rest,
    )

place_from-version :
    (n : ℕ) (ids : List Text) (s t : Store)
    → place_from n ids s ≡ ok t
    → t.queue_version ≡ s.queue_version
unfolding place_from
place_from-version n [] s t e = cc e
place_from-version n (id ∷ ids) s t e =
    let (row, found, rest) = first_step n id ids s t e in
    place_from-version (n + 1) ids (moved_to n id s) t rest

-- The part after the checks.
finished :
    (s t : Store) (n : ℕ) (r : Saved)
    → (r >>= next_version s) ≡ ok (n, t)
    → (u : Store) × (r ≡ ok u)
      × (n ≡ s.queue_version + 1)
      × (t ≡ record u { queue_version = s.queue_version + 1 })
finished s t n (err e) h = cc h
finished s t n (ok u) h = (u, refl, cc h, cc h)

passed :
    {A : Type 0} (test : Bool) (r : Result JobError A) (a : A)
    → (fail_if test stale_version >> r) ≡ ok a
    → (test ≡ false) × (r ≡ ok a)
passed true r a h = cc h
passed false r a h = (refl, h)

has_duplicate-IsDistinct : (ids : List Text) → has_duplicate ids ≡ false → IsDistinct ids
unfolding has_duplicate
has_duplicate-IsDistinct [] e = tt
has_duplicate-IsDistinct (id ∷ ids) e =
    let parts : (is_listed id ids ≡ false) × (has_duplicate ids ≡ false) = ground (arith, e) in
    (
      (λ m. let listed = Among-is_listed id ids m in absurd (ground (arith, parts.0, listed))),
      has_duplicate-IsDistinct ids parts.1,
    )

lacks_job-AllListed :
    (ids : List Text) (jobs : List JobRow)
    → lacks_job ids jobs ≡ false
    → AllListed (ids_of jobs) ids
unfolding lacks_job
lacks_job-AllListed ids [] e = tt
lacks_job-AllListed ids (j ∷ jobs) e =
    (ground (arith, e), lacks_job-AllListed ids jobs (ground (arith, e)))

-- The queue's job with an id.
abbrev pub Waits : List JobRow → Text → JobRow → Type 0
Waits jobs id j = (get_job id jobs ≡ some j) × IsQueued j

-- The ids are those of the queue's jobs.
abbrev pub IsComplete : List Text → List JobRow → Type 0
IsComplete ids jobs = (id : Text) → Among id ids ↔ ((j : JobRow) × Waits jobs id j)

module _ (ids : List Text) (jobs : List JobRow) (keys : IsDistinct (ids_of jobs))
    (complete : lacks_job ids (queued_jobs jobs) ≡ false)
    (same : length (queued_jobs jobs) ≡ length ids) where
  listed-Waits :
      (id : Text)
      → is_listed id ids ≡ true
      → (j : JobRow) × (get_job id (queued_jobs jobs) ≡ some j) × Waits jobs id j
  listed-Waits id m =
      let queue = queued_jobs jobs in
      let inside =
        covered id (ids_of queue) ids (queued_jobs-IsDistinct jobs keys)
          (lacks_job-AllListed ids queue complete) (length-ids_of queue ∙ same) m in
      let (j, e) = Among-get_job id queue inside in
      let (found, queued) = queued_jobs-get_job id jobs j keys e in
      (j, e, (found, is_queued-IsQueued j queued))

  Waits-listed : (id : Text) (j : JobRow) → Waits jobs id j → Among id ids
  Waits-listed id j (found, queued) = is_listed-Among id ids (
      AllListed-is_listed id (ids_of (queued_jobs jobs)) ids
        (lacks_job-AllListed ids (queued_jobs jobs) complete)
        (get_job-Among id (queued_jobs jobs) j
          (get_job-queued_jobs id jobs j found (IsQueued-is_queued j queued))))

  ids-IsComplete : IsComplete ids jobs
  ids-IsComplete id = (
    (λ m. let (j, _, waits) = listed-Waits id (Among-is_listed id ids m) in (j, waits)),
    (λ w. Waits-listed id w.0 w.1),
  )

-- Each job has a priority that is not above that of the job before it.
abbrev pub IsOrdered : List Text → List JobRow → Type 0
IsOrdered [] jobs = Unit
IsOrdered (id ∷ []) jobs = Unit
IsOrdered (id ∷ next ∷ ids) jobs =
    ((before : JobRow) × (after : JobRow) × (get_job id jobs ≡ some before)
      × (get_job next jobs ≡ some after)
      × (after.priority ≤ℤ before.priority))
    × IsOrdered (next ∷ ids) jobs

priority_of-found :
    (id : Text) (jobs : List JobRow) (j : JobRow)
    → get_job id jobs ≡ some j
    → priority_of id jobs ≡ j.priority
priority_of-found id jobs j e = ap (λ o. elim o [ none ↦ pos 0 | some i ↦ i.priority ]) e

is_inverted-IsOrdered :
    (ids : List Text) (queue jobs : List JobRow)
    → ((id : Text)
        → is_listed id ids ≡ true
        → (j : JobRow) × (get_job id queue ≡ some j) × Waits jobs id j)
    → is_inverted ids queue ≡ false
    → IsOrdered ids jobs
unfolding is_inverted is_listed
is_inverted-IsOrdered [] queue jobs w e = tt
is_inverted-IsOrdered (id ∷ []) queue jobs w e = tt
is_inverted-IsOrdered (id ∷ next ∷ ids) queue jobs w e =
    let (a, a1, (a2, _)) = w id (rw (text_eq_refl id) refl) in
    let (b, b1, (b2, _)) = w next (rw (text_eq_refl next) (ground arith)) in
    let parts : (ltb_ℤ (priority_of id queue) (priority_of next queue) ≡ false)
        × (is_inverted (next ∷ ids) queue ≡ false) =
      ground (arith, e) in
    let order : ltb_ℤ a.priority b.priority ≡ false =
      subst (λ p. ltb_ℤ p b.priority ≡ false) (priority_of-found id queue a a1)
        (subst (λ p. ltb_ℤ (priority_of id queue) p ≡ false) (priority_of-found next queue b b1)
          parts.0) in
    (
      (a, b, a2, b2, ground (arith, order)),
      is_inverted-IsOrdered (next ∷ ids) queue jobs (λ name m. w name (ground (arith, m))) parts.1,
    )

-- What a new order is.
pub record IsReordered (ids : List Text) (expected : ℕ) (s : Store) (n : ℕ) (t : Store)
    : Type 0 where
  pub current : s.queue_version ≡ expected
  pub version : (n ≡ s.queue_version + 1) × (t.queue_version ≡ n)
  pub distinct : IsDistinct ids
  pub complete : IsComplete ids s.jobs
  pub ordered : IsOrdered ids s.jobs
  pub positions : IsPlaced 1 ids t.jobs

-- Where the ids of the stored jobs are distinct, a reordering that succeeds was made from the current
-- version of the queue, which it raises by one. Its ids are distinct and are exactly those of the
-- jobs that wait in the queue: managed, neither archived nor out of step with the cluster, meant to be
-- queued and seen as created or paused. No job stands behind one of a lower priority, and
-- afterwards the jobs have the positions 1, 2, … in the order of the ids.
pub reorder-IsReordered :
    (ids : List Text) (expected : ℕ) (s : Store) (n : ℕ) (t : Store)
    → IsDistinct (ids_of s.jobs)
    → reorder ids expected s ≡ ok (n, t)
    → IsReordered ids expected s n t
unfolding reorder
reorder-IsReordered ids expected s n t keys e =
    let queue = queued_jobs s.jobs in
    let (same, e1) = passed (not (s.queue_version == expected)) _ (n, t) e in
    let (distinct, e2) = passed (has_duplicate ids) _ (n, t) e1 in
    let (counted, e3) = passed (not (length queue == length ids)) _ (n, t) e2 in
    let (complete, e4) = passed (lacks_job ids queue) _ (n, t) e3 in
    let (ordered, e5) = passed (is_inverted ids queue) _ (n, t) e4 in
    let (u, placed, number, after) = finished s t n (place_from 1 ids s) e5 in
    let sizes : length queue ≡ length ids = ground (arith, counted) in
    record {
      current = ground (arith, same);
      version = (number, ap (λ w. w.queue_version) after ∙ sym number);
      distinct = has_duplicate-IsDistinct ids distinct;
      complete = ids-IsComplete ids s.jobs keys complete sizes;
      ordered =
          is_inverted-IsOrdered ids queue s.jobs (listed-Waits ids s.jobs keys complete sizes)
            ordered;
      positions =
          subst (λ w. IsPlaced 1 ids w.jobs) (sym after)
            (place_from-IsPlaced 1 ids s u distinct placed);
    }
