-- ===== src/Persistence/Jobs/Rows.antt =====
-- What a change of one job leaves of the others.
use kube_queue.Common.{
  ◌≡◌, subst, true, Text, text_eq, text_eq_iff, List, [], ◌∷◌, Option, none, some, Bool-cases, inl,
  inr,
}
use kube_queue.Domain.Lifecycle.{cancelled}
use kube_queue.Persistence.Jobs.{JobRow, get_job, update_job}

-- The job exists and its desired state is CANCELLED.
abbrev CancelledRow : Option JobRow → Type 0
CancelledRow none = ⊥
CancelledRow (some j) = j.desired ≡ cancelled

abbrev pub IsCancelled : Text → List JobRow → Type 0
IsCancelled id jobs = CancelledRow (get_job id jobs)

-- A change keeps the id of its job.
abbrev pub KeepsId : (JobRow → JobRow) → Type 0
KeepsId change = (j : JobRow) → (change j).id ≡ j.id

pub update_job-IsCancelled :
    (id name : Text) (change : JobRow → JobRow) (jobs : List JobRow)
    → KeepsId change
    → (text_eq name id ≡ true
        → (j : JobRow) → j.desired ≡ cancelled
        → (change j).desired ≡ cancelled)
    → IsCancelled id jobs
    → IsCancelled id (update_job name change jobs)
unfolding get_job update_job
update_job-IsCancelled id name change [] k h c = c
update_job-IsCancelled id name change (j ∷ jobs) k h c = elim (Bool-cases (text_eq j.id name)) [
  | inl e ↦
      let same = (text_eq_iff j.id name).0 e in
      elim (Bool-cases (text_eq j.id id)) [
        | inl f ↦ rw (e, k j, f) (h (subst (λ n. text_eq n id ≡ true) same f) j (rw f at c))
        | inr f ↦ rw (e, k j, f) (rw f at c)
      ]
  | inr e ↦ elim (Bool-cases (text_eq j.id id)) [
    | inl f ↦ rw (e, f) (rw f at c)
    | inr f ↦ rw (e, f) (update_job-IsCancelled id name change jobs k h (rw f at c))
  ]
]
