-- ===== src/Persistence/Jobs/Advances.antt =====
-- Each transaction on a job keeps exact quota counters and cancelled jobs.
use kube_queue.Common.{
  ℕ, ◌≡◌, refl, subst, ℤ, none, some, true, Text, text_eq, codes, Option, is_none, ok,
}
use kube_queue.Domain.Lifecycle.{JobState, cancelled, can_transition, cancelled_final}
use kube_queue.Persistence.Quotas.Calls.{release_retained_job_quota}
use kube_queue.Persistence.Quotas.Steps.Free.{release_retained_job_quota-Kept}
use kube_queue.Persistence.Jobs.{JobRow, Store, invalid_transition}
use kube_queue.Persistence.Jobs.Calls.{
  saving, desired_store, mode_of, status_of, seen_store, Observation, quota_saved, quota_after,
  quota_at, desired_row, seen_row, write_desired_state, set_desired_state, write_observed,
  set_observed,
}
use kube_queue.Persistence.Jobs.Marks.{
  can_mark_missing, missing_row, can_mark_out_of_scope, out_of_scope_row, error_row, with_error,
  archived_row, archived, placed, placed_row, left_queue, mark_missing, mark_out_of_scope,
  record_reconcile_error, archive_job, update_queue, can_update_queue,
}
use kube_queue.Persistence.Quotas.Balance.{IsExact}
use kube_queue.Persistence.Jobs.Rows.{IsCancelled, update_job-IsCancelled}
use kube_queue.Persistence.Jobs.Steps.{
  Done, Advances, unchanged, quota_saved-done, quota_after-done, quota_at-done, after_quota,
  changed_row, tested, allowed_by, allowed, in_range, with_job,
}

pub mark_missing-Advances :
    (id uid resource_version : Text) (s : Store)
    → Done (Advances s) (mark_missing id uid resource_version s)
unfolding mark_missing
mark_missing-Advances id uid resource_version s =
    let after = left_queue id missing_row (codes "KUBERNETES_JOB_MISSING") s in
    with_job (Advances s) id s _ _ tt λ row e.
      tested (Advances s) s (can_mark_missing uid resource_version row) (ok after) (unchanged s)
        λ _. changed_row s after id missing_row refl (λ j. (refl, refl)) (λ v. v)

pub mark_out_of_scope-Advances :
    (id resource_version : Text) (s : Store)
    → Done (Advances s) (mark_out_of_scope id resource_version s)
unfolding mark_out_of_scope
mark_out_of_scope-Advances id resource_version s =
    let after = left_queue id out_of_scope_row (codes "NAMESPACE_OUT_OF_SCOPE") s in
    with_job (Advances s) id s _ _ tt λ row e.
      tested (Advances s) s (can_mark_out_of_scope resource_version row) (ok after) (unchanged s)
        λ _. changed_row s after id out_of_scope_row refl (λ j. (refl, refl)) (λ v. v)

pub record_reconcile_error-Advances :
    (id resource_version : Text) (next_retry : ℕ) (s : Store)
    → Done (Advances s) (record_reconcile_error id resource_version next_retry s)
unfolding record_reconcile_error
record_reconcile_error-Advances id resource_version next_retry s =
    let after = with_error id next_retry s in
    with_job (Advances s) id s _ _ (unchanged s) λ row e.
      tested (Advances s) s (text_eq row.resource_version resource_version) (ok after) (unchanged s)
        λ _. changed_row s after id (error_row next_retry) refl (λ j. (refl, refl)) (λ v. v)

pub archive_job-Advances :
    (id : Text) (now : ℕ) (s : Store) → Done (Advances s) (archive_job id now s)
unfolding archive_job
archive_job-Advances id now s =
    let quota = quota_saved (release_retained_job_quota id s.quota) in
    with_job (Advances s) id s _ _ tt λ row e.
      tested (Advances s) s (is_none row.archived_at) (saving quota (archived id now s))
        (unchanged s)
        λ _.
          after_quota (Advances s) s quota (archived id now s)
            (quota_saved-done s.quota _ (release_retained_job_quota-Kept id s.quota))
            λ t q.
              changed_row s (archived id now s t) id (archived_row now) refl (λ j. (refl, refl)) q

pub update_queue-Advances :
    (id : Text) (priority position : ℤ) (version : ℕ) (scheduled_for : Option ℕ) (s : Store)
    → Done (Advances s) (update_queue id priority position version scheduled_for s)
unfolding update_queue
update_queue-Advances id priority position version scheduled_for s =
    let after = placed id priority position scheduled_for s in
    in_range (Advances s) priority _ (
      with_job (Advances s) id s _ _ tt λ row e.
        allowed (Advances s) (can_update_queue version row) (ok after) λ _.
          changed_row s after id (placed_row priority position scheduled_for) refl
            (λ j. (refl, refl)) (λ v. v))

write_observed-Advances :
    (current : JobRow) (id : Text) (o : Observation) (s : Store)
    → Done (Advances s) (write_observed current id o s)
unfolding write_observed
write_observed-Advances current id o s = with_job (Advances s) id s _ _ tt λ row e.
    tested (Advances s) s (text_eq row.resource_version o.expected_resource_version)
      (saving (quota_at id o.state s.quota) (seen_store id o current s)) (unchanged s)
      λ _.
        after_quota (Advances s) s (quota_at id o.state s.quota) (seen_store id o current s)
          (quota_at-done id o.state s.quota)
          λ t q.
            changed_row s (seen_store id o current s t) id
              (seen_row o (mode_of o current) (status_of o current)) refl (λ j. (refl, refl)) q

pub set_observed-Advances :
    (read : Option JobRow) (id : Text) (o : Observation) (s : Store)
    → Done (Advances s) (set_observed read id o s)
unfolding set_observed
set_observed-Advances none id o s = tt
set_observed-Advances (some current) id o s = write_observed-Advances current id o s

-- What keeps the quota counters exact.
abbrev pub KeepsQuota : Store → Store → Type 0
KeepsQuota s t = IsExact s.quota → IsExact t.quota

-- What keeps one job cancelled.
abbrev pub KeepsCancelled : Text → Store → Store → Type 0
KeepsCancelled id s t = IsCancelled id s.jobs → IsCancelled id t.jobs

write_desired_state-KeepsQuota :
    (current : JobState) (id : Text) (state : JobState) (s : Store)
    → Done (KeepsQuota s) (write_desired_state current id state s)
unfolding write_desired_state
write_desired_state-KeepsQuota current id state s = with_job (KeepsQuota s) id s _ _ tt λ row e.
    after_quota (KeepsQuota s) s (quota_after id state s.quota) (desired_store current id state s)
      (quota_after-done id state s.quota) λ t q. q

pub set_desired_state-KeepsQuota :
    (read : Option JobRow) (id : Text) (state : JobState) (s : Store)
    → Done (KeepsQuota s) (set_desired_state read id state s)
unfolding set_desired_state
set_desired_state-KeepsQuota none id state s = tt
set_desired_state-KeepsQuota (some current) id state s =
    allowed_by (KeepsQuota s) (can_transition current.desired state) invalid_transition
      (write_desired_state current.desired id state s)
      λ _. write_desired_state-KeepsQuota current.desired id state s

write_desired_state-KeepsCancelled :
    (name : Text) (current : JobState) (id : Text) (state : JobState) (s : Store)
    → (text_eq id name ≡ true → state ≡ cancelled)
    → Done (KeepsCancelled name s) (write_desired_state current id state s)
unfolding write_desired_state
write_desired_state-KeepsCancelled name current id state s h =
    with_job (KeepsCancelled name s) id s _ _ tt λ row e.
      after_quota (KeepsCancelled name s) s (quota_after id state s.quota)
        (desired_store current id state s) (quota_after-done id state s.quota)
        λ t q c.
          update_job-IsCancelled name id (desired_row state) s.jobs (λ j. refl) (λ same j d. h same)
            c

-- What was read of a job says that it is cancelled.
abbrev pub ReadCancelled : Option JobRow → Type 0
ReadCancelled none = Unit {0}
ReadCancelled (some current) = current.desired ≡ cancelled

pub set_desired_state-KeepsCancelled :
    (name : Text) (read : Option JobRow) (id : Text) (state : JobState) (s : Store)
    → (text_eq id name ≡ true → ReadCancelled read)
    → Done (KeepsCancelled name s) (set_desired_state read id state s)
unfolding set_desired_state
set_desired_state-KeepsCancelled name none id state s h = tt
set_desired_state-KeepsCancelled name (some current) id state s h =
    allowed_by (KeepsCancelled name s) (can_transition current.desired state) invalid_transition
      (write_desired_state current.desired id state s)
      λ can.
        write_desired_state-KeepsCancelled name current.desired id state s
          λ same. cancelled_final state (subst (λ d. can_transition d state ≡ true) (h same) can)
