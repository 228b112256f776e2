-- ===== src/Persistence/Jobs/Queued.antt =====
-- The jobs of the queue, apart from the test of the query.
use kube_queue.Common.{
  suc, ◌≡◌, ◌≢◌, ◌⊎◌, inl, inr, refl, sym, ap, subst, true, Bool-cases, Text, text_eq, text_eq_iff,
  is_listed, length, List, [], ◌∷◌, none, some, arith,
}
use kube_queue.Domain.Lifecycle.{
  created, queued, paused, managed, missing, stale, out_of_scope, sync_conflicted,
}
use kube_queue.Persistence.Jobs.{JobRow, get_job, is_queued}
use kube_queue.Persistence.Jobs.Ids.{Among, IsDistinct}
use kube_queue.Persistence.Jobs.Reorder.{queued_jobs}

abbrev pub ids_of : List JobRow → List Text
ids_of [] = []
ids_of (j ∷ jobs) = j.id ∷ ids_of jobs

-- A job that waits in the queue.
pub record IsQueued (j : JobRow) : Type 0 where
  pub queued_for : j.desired ≡ queued
  pub seen_as : (j.seen ≡ created) ⊎ (j.seen ≡ paused)
  pub managed_by : j.management ≡ managed
  pub in_scope : (j.sync_status ≢ missing) × (j.sync_status ≢ out_of_scope)
  pub in_sync : (j.sync_status ≢ stale) × (j.sync_status ≢ sync_conflicted)
  pub kept : j.archived_at ≡ none

pub is_queued-IsQueued : (j : JobRow) → is_queued j ≡ true → IsQueued j
is_queued-IsQueued j e = record {
  queued_for = ground (arith, e);
  seen_as = ground (arith, e);
  managed_by = ground (arith, e);
  in_scope = ground (arith, e);
  in_sync = ground (arith, e);
  kept = ground (arith, e);
}

pub IsQueued-is_queued : (j : JobRow) → IsQueued j → is_queued j ≡ true
IsQueued-is_queued j q = ground (
  arith, q.queued_for, q.seen_as, q.managed_by, q.in_scope.0, q.in_scope.1, q.in_sync.0,
  q.in_sync.1, q.kept,
)

pub get_job-Among :
    (id : Text) (jobs : List JobRow) (j : JobRow)
    → get_job id jobs ≡ some j
    → Among id (ids_of jobs)
unfolding get_job
get_job-Among id [] j e = cc e
get_job-Among id (i ∷ jobs) j e = elim (Bool-cases (text_eq i.id id)) [
  | inl f ↦ inl (sym ((text_eq_iff i.id id).0 f))
  | inr f ↦ inr (get_job-Among id jobs j (rw (get_job, f) at e))
]

pub Among-get_job :
    (id : Text) (jobs : List JobRow)
    → is_listed id (ids_of jobs) ≡ true
    → (j : JobRow) × (get_job id jobs ≡ some j)
unfolding get_job is_listed
Among-get_job id [] e = cc e
Among-get_job id (i ∷ jobs) e = elim (Bool-cases (text_eq i.id id)) [
  | inl f ↦ (i, rw f refl)
  | inr f ↦
      let rest : is_listed id (ids_of jobs) ≡ true =
        ground (arith, e, f, text_eq_iff i.id id, text_eq_iff id i.id) in
      let (j, g) = Among-get_job id jobs rest in (j, rw f g)
]

pub get_job-queued_jobs :
    (id : Text) (jobs : List JobRow) (j : JobRow)
    → get_job id jobs ≡ some j
    → is_queued j ≡ true
    → get_job id (queued_jobs jobs) ≡ some j
unfolding get_job queued_jobs
get_job-queued_jobs id [] j e q = cc e
get_job-queued_jobs id (i ∷ jobs) j e q = elim (Bool-cases (text_eq i.id id)) [
  | inl f ↦
      let same : i ≡ j = cc (rw (get_job, f) at e) in
      rw (subst (λ k. is_queued k ≡ true) (sym same) q, f, same) refl
  | inr f ↦
      let later = get_job-queued_jobs id jobs j (rw (get_job, f) at e) q in
      elim (Bool-cases (is_queued i)) [ inl g ↦ rw (g, f) later | inr g ↦ rw g later ]
]

-- A job that the query reads is the one with its id, and is in the queue.
pub queued_jobs-get_job :
    (id : Text) (jobs : List JobRow) (j : JobRow)
    → IsDistinct (ids_of jobs)
    → get_job id (queued_jobs jobs) ≡ some j
    → (get_job id jobs ≡ some j) × (is_queued j ≡ true)
unfolding get_job queued_jobs
queued_jobs-get_job id [] j d e = cc e
queued_jobs-get_job id (i ∷ jobs) j (n, d) e = elim (Bool-cases (text_eq i.id id)) [
  | inl f ↦ elim (Bool-cases (is_queued i)) [
    | inl g ↦
        let same : i ≡ j = cc (rw (queued_jobs, g, get_job, f) at e) in
        (rw f (ap some same), subst (λ k. is_queued k ≡ true) same g)
    | inr g ↦
        let rest = queued_jobs-get_job id jobs j d (rw (queued_jobs, g) at e) in
        absurd (
          n (
            subst (λ t. Among t (ids_of jobs)) (sym ((text_eq_iff i.id id).0 f))
              (get_job-Among id jobs j rest.0)))
  ]
  | inr f ↦ elim (Bool-cases (is_queued i)) [
    | inl g ↦
        let rest = queued_jobs-get_job id jobs j d (rw (queued_jobs, g, get_job, f) at e) in
        (rw f rest.0, rest.1)
    | inr g ↦
        let rest = queued_jobs-get_job id jobs j d (rw (queued_jobs, g) at e) in
        (rw f rest.0, rest.1)
  ]
]

Among-queued_jobs :
    (id : Text) (jobs : List JobRow) → Among id (ids_of (queued_jobs jobs)) → Among id (ids_of jobs)
unfolding queued_jobs
Among-queued_jobs id [] m = elim m [ ]
Among-queued_jobs id (i ∷ jobs) m = elim (Bool-cases (is_queued i)) [
  | inl g ↦ elim (rw (queued_jobs, g) at m) [
    | inl e ↦ inl e
    | inr l ↦ inr (Among-queued_jobs id jobs l)
  ]
  | inr g ↦ inr (Among-queued_jobs id jobs (rw (queued_jobs, g) at m))
]

pub queued_jobs-IsDistinct :
    (jobs : List JobRow) → IsDistinct (ids_of jobs) → IsDistinct (ids_of (queued_jobs jobs))
unfolding queued_jobs
queued_jobs-IsDistinct [] d = tt
queued_jobs-IsDistinct (i ∷ jobs) (n, d) = elim (Bool-cases (is_queued i)) [
  | inl g ↦ rw g ((λ m. n (Among-queued_jobs i.id jobs m)), queued_jobs-IsDistinct jobs d)
  | inr g ↦ rw g (queued_jobs-IsDistinct jobs d)
]

pub length-ids_of : (jobs : List JobRow) → length (ids_of jobs) ≡ length jobs
length-ids_of [] = refl
length-ids_of (j ∷ jobs) = ap suc (length-ids_of jobs)
