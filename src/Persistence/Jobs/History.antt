-- ===== src/Persistence/Jobs/History.antt =====
-- What each transaction on jobs keeps.
use kube_queue.Common.{inl, inr, text_eq_iff, ◌≢◌, ◌⊎◌, ℕ, ℤ, Text, Option, ok, err}
use kube_queue.Domain.Lifecycle.{JobState}
use kube_queue.Persistence.Jobs.{JobRow, Store}
use kube_queue.Persistence.Jobs.Calls.{Saved, Observation, set_desired_state, set_observed}
use kube_queue.Persistence.Jobs.Marks.{
  mark_missing, mark_out_of_scope, record_reconcile_error, archive_job, update_queue,
}
use kube_queue.Persistence.Jobs.Steps.{Done, Advances, unchanged}
use kube_queue.Persistence.Jobs.Advances.{
  set_desired_state-KeepsQuota, set_desired_state-KeepsCancelled, KeepsQuota, KeepsCancelled,
  ReadCancelled, set_observed-Advances, mark_missing-Advances, mark_out_of_scope-Advances,
  record_reconcile_error-Advances, archive_job-Advances, update_queue-Advances,
}

-- The calls that read the job before their transaction carry what they read.
pub data JobCall : Type 0 where
  desire : Option JobRow → Text → JobState → JobCall
  record_seen : Option JobRow → Text → Observation → JobCall
  miss : Text → Text → Text → JobCall
  leave_scope : Text → Text → JobCall
  report_error : Text → Text → ℕ → JobCall
  retire : Text → ℕ → JobCall
  place : Text → ℤ → ℤ → ℕ → Option ℕ → JobCall

-- The transaction of a call.
abbrev pub called : JobCall → Store → Saved
called (desire read id state) s = set_desired_state read id state s
called (record_seen read id o) s = set_observed read id o s
called (miss id uid version) s = mark_missing id uid version s
called (leave_scope id version) s = mark_out_of_scope id version s
called (report_error id version retry) s = record_reconcile_error id version retry s
called (retire id now) s = archive_job id now s
called (place id priority position version time) s =
    update_queue id priority position version time s

-- A transaction that fails is rolled back.
abbrev pub saved_or : Store → Saved → Store
saved_or s (ok t) = t
saved_or s (err e) = s

saved-holds : (P : Store → Type 0) (s : Store) (r : Saved) → P s → Done P r → P (saved_or s r)
saved-holds P s (ok t) h k = k
saved-holds P s (err e) h k = h

-- Not SetDesiredState.
abbrev IsOther : JobCall → Type 0
IsOther (desire _ _ _) = ⊥
IsOther _ = Unit {0}

called-Advances : (call : JobCall) (s : Store) → IsOther call → Done (Advances s) (called call s)
called-Advances (desire read id state) s h = absurd h
called-Advances (record_seen read id o) s h = set_observed-Advances read id o s
called-Advances (miss id uid version) s h = mark_missing-Advances id uid version s
called-Advances (leave_scope id version) s h = mark_out_of_scope-Advances id version s
called-Advances (report_error id version retry) s h =
    record_reconcile_error-Advances id version retry s
called-Advances (retire id now) s h = archive_job-Advances id now s
called-Advances (place id priority position version time) s h =
    update_queue-Advances id priority position version time s

call-Advances :
    (call : JobCall) (s : Store) → IsOther call → Advances s (saved_or s (called call s))
call-Advances call s h =
    saved-holds (Advances s) s (called call s) (unchanged s) (called-Advances call s h)

pub call-KeepsQuota : (call : JobCall) (s : Store) → KeepsQuota s (saved_or s (called call s))
call-KeepsQuota (desire read id state) s =
    saved-holds (KeepsQuota s) s (set_desired_state read id state s) (λ v. v)
      (set_desired_state-KeepsQuota read id state s)
call-KeepsQuota (record_seen read id o) s = (call-Advances (record_seen read id o) s tt).quota
call-KeepsQuota (miss id uid version) s = (call-Advances (miss id uid version) s tt).quota
call-KeepsQuota (leave_scope id version) s = (call-Advances (leave_scope id version) s tt).quota
call-KeepsQuota (report_error id version retry) s =
    (call-Advances (report_error id version retry) s tt).quota
call-KeepsQuota (retire id now) s = (call-Advances (retire id now) s tt).quota
call-KeepsQuota (place id priority position version time) s =
    (call-Advances (place id priority position version time) s tt).quota

-- A SetDesiredState of the job has read it as cancelled.
abbrev pub IsInformed : Text → JobCall → Type 0
IsInformed name (desire read id state) = (id ≢ name) ⊎ ReadCancelled read
IsInformed name _ = Unit {0}

pub call-KeepsCancelled :
    (name : Text) (call : JobCall) (s : Store)
    → IsInformed name call
    → KeepsCancelled name s (saved_or s (called call s))
call-KeepsCancelled name (desire read id state) s h =
    saved-holds (KeepsCancelled name s) s (set_desired_state read id state s) (λ c. c)
      (set_desired_state-KeepsCancelled name read id state s
        (λ e. elim h [ inl n ↦ absurd (n ((text_eq_iff id name).0 e)) | inr r ↦ r ]))
call-KeepsCancelled name (record_seen read id o) s h =
    (call-Advances (record_seen read id o) s tt).ended name
call-KeepsCancelled name (miss id uid version) s h =
    (call-Advances (miss id uid version) s tt).ended name
call-KeepsCancelled name (leave_scope id version) s h =
    (call-Advances (leave_scope id version) s tt).ended name
call-KeepsCancelled name (report_error id version retry) s h =
    (call-Advances (report_error id version retry) s tt).ended name
call-KeepsCancelled name (retire id now) s h = (call-Advances (retire id now) s tt).ended name
call-KeepsCancelled name (place id priority position version time) s h =
    (call-Advances (place id priority position version time) s tt).ended name
