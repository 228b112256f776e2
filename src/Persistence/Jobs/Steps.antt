-- ===== src/Persistence/Jobs/Steps.antt =====
-- What each transaction on a job keeps.
use kube_queue.Common.{
  ◌≡◌, inl, inr, refl, sym, subst, ◌∙◌, ℤ, pos, negsuc, ltb_ℤ, Bool, true, false, not, ◌||◌,
  if◌then◌else◌, Text, none, some, Option-cases, Bool-cases, Result, ok, err,
}
use kube_queue.Domain.Lifecycle.{
  JobState, created, queued, running, paused, completed, failed, cancelled, other,
}
use kube_queue.Quota.Reservation.{ReleaseCause}
use kube_queue.Persistence.Quotas.{Tables, QuotaError}
use kube_queue.Persistence.Quotas.Calls.{release_job_quota, Freed}
use kube_queue.Persistence.Quotas.Balance.{IsExact}
use kube_queue.Persistence.Quotas.Steps.{Kept, tables_freed}
use kube_queue.Persistence.Quotas.Steps.Free.{release_job_quota-Kept}
use kube_queue.Persistence.Jobs.{
  JobRow, Store, JobError, stale_version, priority_range, get_job, update_job,
}
use kube_queue.Persistence.Jobs.Calls.{
  saving, Saved, quota_freed, quota_saved, release_any_job_quota, quota_after, quota_at,
}
use kube_queue.Persistence.Jobs.Rows.{IsCancelled, update_job-IsCancelled}

-- The tables of a transaction that succeeds.
abbrev pub Done : (Store → Type 0) → Saved → Type 0
Done P (ok s) = P s
Done P (err e) = Unit

-- What every transaction keeps: exact quota counters and cancelled jobs.
pub record Advances (s t : Store) : Type 0 where
  pub quota : IsExact s.quota → IsExact t.quota
  pub ended : (id : Text) → IsCancelled id s.jobs → IsCancelled id t.jobs

pub unchanged : (s : Store) → Advances s s
unchanged s = record { quota = λ v. v; ended = λ id c. c }

abbrev pub QuotaDone : Tables → Result JobError Tables → Type 0
QuotaDone t (ok u) = IsExact t → IsExact u
QuotaDone t (err e) = Unit

pub quota_freed-done :
    (t : Tables) (r : Freed) → (IsExact t → Kept tables_freed r) → QuotaDone t (quota_freed r)
quota_freed-done t (ok r) h = h
quota_freed-done t (err e) h = tt

pub quota_saved-done :
    (t : Tables) (r : Result QuotaError Tables)
    → (IsExact t → Kept (λ u. u) r)
    → QuotaDone t (quota_saved r)
quota_saved-done t (ok r) h = h
quota_saved-done t (err e) h = tt

pub released-done :
    (id : Text) (cause : ReleaseCause) (t : Tables) → QuotaDone t (release_any_job_quota id cause t)
released-done id cause t =
    quota_freed-done t (release_job_quota true id cause t) (release_job_quota-Kept id cause t)

pub quota_after-done :
    (id : Text) (state : JobState) (t : Tables) → QuotaDone t (quota_after id state t)
quota_after-done id cancelled t = released-done id _ t
quota_after-done id created t = λ v. v
quota_after-done id queued t = λ v. v
quota_after-done id running t = λ v. v
quota_after-done id paused t = λ v. v
quota_after-done id completed t = λ v. v
quota_after-done id failed t = λ v. v
quota_after-done id (other _) t = λ v. v

pub quota_at-done : (id : Text) (state : JobState) (t : Tables) → QuotaDone t (quota_at id state t)
quota_at-done id cancelled t = released-done id _ t
quota_at-done id completed t = released-done id _ t
quota_at-done id failed t = released-done id _ t
quota_at-done id created t = λ v. v
quota_at-done id queued t = λ v. v
quota_at-done id running t = λ v. v
quota_at-done id paused t = λ v. v
quota_at-done id (other _) t = λ v. v

-- A transaction that changes the quota tables first.
pub after_quota :
    (P : Store → Type 0) (s : Store) (r : Result JobError Tables) (next : Tables → Store)
    → QuotaDone s.quota r
    → ((t : Tables) → (IsExact s.quota → IsExact t) → P (next t))
    → Done P (saving r next)
after_quota P s (err e) next q h = tt
after_quota P s (ok t) next q h = h t q

-- A change that keeps the desired state of every job.
abbrev pub KeepsDesired : (JobRow → JobRow) → Type 0
KeepsDesired change = (j : JobRow) → ((change j).id ≡ j.id) × ((change j).desired ≡ j.desired)

pub changed_row :
    (s t : Store) (id : Text) (change : JobRow → JobRow)
    → t.jobs ≡ update_job id change s.jobs
    → KeepsDesired change
    → (IsExact s.quota → IsExact t.quota)
    → Advances s t
changed_row s t id change e k q = record {
  quota = q;
  ended = λ name c.
      subst (IsCancelled name) (sym e)
        (update_job-IsCancelled name id change s.jobs (λ j. (k j).0) (λ m j d. (k j).1 ∙ d) c);
}

-- Where a test fails nothing is changed.
pub tested :
    (P : Store → Type 0) (s : Store) (test : Bool) (next : Saved)
    → P s
    → (test ≡ true → Done P next)
    → Done P (if test then next else ok s)
tested P s true next h k = k refl
tested P s false next h k = h

-- A refusal where a test fails.
pub allowed_by :
    (P : Store → Type 0) (test : Bool) (reason : JobError) (next : Saved)
    → (test ≡ true → Done P next)
    → Done P (if not test then err reason else next)
allowed_by P true reason next k = k refl
allowed_by P false reason next k = tt

-- Where a test fails the call does.
pub allowed :
    (P : Store → Type 0) (test : Bool) (next : Saved)
    → (test ≡ true → Done P next)
    → Done P (if test then next else err stale_version)
allowed P true next k = k refl
allowed P false next k = tt

pub in_range :
    (P : Store → Type 0) (priority : ℤ) (next : Saved)
    → Done P next
    → Done P (
        if ltb_ℤ priority (negsuc 999) || ltb_ℤ (pos 1000) priority
        then err priority_range
        else next)
in_range P priority next h =
    elim (Bool-cases (ltb_ℤ priority (negsuc 999) || ltb_ℤ (pos 1000) priority)) [
      | inl e ↦ rw e tt
      | inr e ↦ rw e h
    ]

-- A job that is found.
pub with_job :
    (P : Store → Type 0) (id : Text) (s : Store) (missing : Saved) (next : JobRow → Saved)
    → Done P missing
    → ((row : JobRow) → get_job id s.jobs ≡ some row → Done P (next row))
    → Done P (elim (get_job id s.jobs) [ none ↦ missing | some row ↦ next row ])
with_job P id s missing next h k = elim (Option-cases (get_job id s.jobs)) [
  | inl e ↦ rw e h
  | inr (row, e) ↦ rw e (k row e)
]
