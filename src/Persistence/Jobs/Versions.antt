-- ===== src/Persistence/Jobs/Versions.antt =====
-- UpdateQueue and the version of the job that its caller has read.
use kube_queue.Common.{
  ℕ, ◌≡◌, ◌≢◌, inl, inr, refl, ap, subst, ◌∙◌, ℤ, pos, negsuc, ltb_ℤ, true, ◌||◌, Text, text_eq,
  List, [], ◌∷◌, Option, some, Option-cases, Bool-cases, ok, err, arith,
}
use kube_queue.Persistence.Jobs.{
  JobRow, Store, JobError, stale_version, priority_range, get_job, update_job,
}
use kube_queue.Persistence.Jobs.Marks.{update_queue, placed, placed_row}

pub get_job-update_job :
    (id : Text) (change : JobRow → JobRow) (row : JobRow) (jobs : List JobRow)
    → get_job id jobs ≡ some row
    → (change row).id ≡ row.id
    → get_job id (update_job id change jobs) ≡ some (change row)
unfolding get_job update_job
get_job-update_job id change row [] e k = cc
get_job-update_job id change row (j ∷ jobs) e k = elim (Bool-cases (text_eq j.id id)) [
  | inl f ↦
      let same : j ≡ row = cc (rw f at e) in
      rw (f, same, k, (subst (λ r. text_eq r.id id ≡ true) same f)) refl
  | inr f ↦ rw (f, f) (get_job-update_job id change row jobs (rw f at e) k)
]

-- A priority within bounds is looked up, and refused or changed.
placed_job :
    (id : Text) (priority position : ℤ) (version : ℕ) (time : Option ℕ) (s t : Store)
    → update_queue id priority position version time s ≡ ok t
    → (row : JobRow) × (get_job id s.jobs ≡ some row)
      × (row.version ≡ version)
      × (t ≡ placed id priority position time s)
unfolding update_queue
placed_job id priority position version time s t e = elim (Option-cases (get_job id s.jobs)) [
  | inl f ↦ ground (arith, f)
  | inr (row, f) ↦ (row, f, ground (arith, f), ground (arith, f))
]

refused_at :
    (id : Text) (priority position : ℤ) (version : ℕ) (time : Option ℕ) (s : Store) (row : JobRow)
    → get_job id s.jobs ≡ some row
    → row.version ≢ version
    → (reason : JobError) × (update_queue id priority position version time s ≡ err reason)
unfolding update_queue
refused_at id priority position version time s row e h =
    elim (Bool-cases (ltb_ℤ priority (negsuc 999) || ltb_ℤ (pos 1000) priority)) [
      | inl f ↦ (priority_range, rw f refl)
      | inr f ↦ (stale_version, rw (f, e) (ground (arith, h)))
    ]

-- No update is lost: after a change of a job's place that was made from some version of the job,
-- every further change from the same version is an error, whatever it asks for.
pub update_queue_once :
    (id : Text) (priority position other_priority other_position : ℤ) (version : ℕ)
    (time other_time : Option ℕ) (s t : Store)
    → update_queue id priority position version time s ≡ ok t
    → (reason : JobError) × (update_queue id other_priority other_position version other_time t
        ≡ err reason)
update_queue_once id priority position other_priority other_position version time other_time s t e =
    let (row, found, same, after) = placed_job id priority position version time s t e in
    let change = placed_row priority position time in
    let now : get_job id t.jobs ≡ some (change row) =
      ap (λ u. get_job id u.jobs) after ∙ get_job-update_job id change row s.jobs found refl in
    refused_at id other_priority other_position version other_time t (change row) now
      (λ f. omega (arith, same, f))
