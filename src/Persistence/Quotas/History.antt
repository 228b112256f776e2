-- ===== src/Persistence/Quotas/History.antt =====
-- Any sequence of transactions on the quota tables. Their callers are the transactions of a job.
use kube_queue.Common.{◌≡◌, refl, ◌∙◌, true, Text, List, [], ◌∷◌, Result, ok, err, All, arith}
use kube_queue.Quota.Counters.Laws.{no_usage}
use kube_queue.Quota.Rules.{Scope, EffectivePolicy}
use kube_queue.Quota.Reservation.{ReleaseCause, ReservationRequest}
use kube_queue.Persistence.Quotas.{Row, Tables, QuotaError, no_counters, counters_of}
use kube_queue.Persistence.Quotas.Calls.{
  reserve_quota, admit_job_quota, requeue_job_quota, release_job_quota, release_retained_job_quota,
  mark_quota_reserved, release_quota,
}
use kube_queue.Persistence.Quotas.Balance.{stored, total_at, IsExact}
use kube_queue.Persistence.Quotas.Steps.{Kept, tables_freed, tables_decided, tables_marked}
use kube_queue.Persistence.Quotas.Steps.Requeue.{requeue_job_quota-Kept}
use kube_queue.Persistence.Quotas.Steps.Free.{
  release_job_quota-Kept, release_retained_job_quota-Kept,
}
use kube_queue.Persistence.Quotas.Steps.Admit.{admit_job_quota-Kept}
use kube_queue.Persistence.Quotas.Steps.Mark.{mark_quota_reserved-Kept}
use kube_queue.Persistence.Quotas.Steps.Reserve.{reserve_quota-Kept}

-- A finished job is released with its retained part kept, until the job is archived.
pub data Call : Type 0 where
  reserve : Scope → EffectivePolicy → ReservationRequest → Call
  admit : Text → EffectivePolicy → Call
  requeue : Text → Call
  finish : Text → ReleaseCause → Call
  archive : Text → Call
  mark : Text → Call
  give_back : Text → ReleaseCause → Call

-- A transaction that fails is rolled back.
abbrev committed {ℓ} : {A : Type ℓ} → (A → Tables) → Tables → Result QuotaError A → Tables
committed read t (ok a) = read a
committed read t (err e) = t

abbrev pub perform : Text → Call → Tables → Tables
perform installation_id (reserve target policy request) t =
    committed tables_decided t (reserve_quota installation_id target policy request t)
perform installation_id (admit job policy) t =
    committed tables_decided t (admit_job_quota job policy t)
perform installation_id (requeue job) t = committed (λ after. after) t (requeue_job_quota job t)
perform installation_id (finish job cause) t =
    committed tables_freed t (release_job_quota true job cause t)
perform installation_id (archive job) t =
    committed (λ after. after) t (release_retained_job_quota job t)
perform installation_id (mark key) t = committed tables_marked t (mark_quota_reserved key t)
perform installation_id (give_back key cause) t =
    committed tables_freed t (release_quota key cause t)

-- Not ReleaseQuota, which gives the retained part back and leaves it in the reservation, so that its
-- archive gives it back again.
abbrev pub IsAccounted : Call → Type 0
IsAccounted (give_back _ _) = ⊥
IsAccounted _ = Unit {0}

unfoldable pub perform_all : Text → List Call → Tables → Tables
perform_all installation_id [] t = t
perform_all installation_id (call ∷ calls) t =
    perform_all installation_id calls (perform installation_id call t)

committed-IsExact :
    {A : Type 0} (read : A → Tables) (t : Tables) (r : Result QuotaError A)
    → IsExact t
    → Kept read r
    → IsExact (committed read t r)
committed-IsExact read t (ok a) v k = k
committed-IsExact read t (err e) v k = v

perform-IsExact :
    (installation_id : Text) (call : Call) (t : Tables)
    → IsAccounted call
    → IsExact t
    → IsExact (perform installation_id call t)
perform-IsExact installation_id (reserve target policy request) t h v =
    committed-IsExact tables_decided t _ v
      (reserve_quota-Kept installation_id target policy request t v)
perform-IsExact installation_id (admit job policy) t h v =
    committed-IsExact tables_decided t _ v (admit_job_quota-Kept job policy t v)
perform-IsExact installation_id (requeue job) t h v =
    committed-IsExact (λ after. after) t _ v (requeue_job_quota-Kept job t v)
perform-IsExact installation_id (finish job cause) t h v =
    committed-IsExact tables_freed t _ v (release_job_quota-Kept job cause t v)
perform-IsExact installation_id (archive job) t h v =
    committed-IsExact (λ after. after) t _ v (release_retained_job_quota-Kept job t v)
perform-IsExact installation_id (mark key) t h v =
    committed-IsExact tables_marked t _ v (mark_quota_reserved-Kept key t v)
perform-IsExact installation_id (give_back key cause) t h v = absurd h

-- After any sequence of the transactions on the quota tables other than ReleaseQuota, from exact tables,
-- the counters under every scope key are exactly the sum of what the reservations hold that count
-- under it, they are uint64, and no idempotency key stands twice.
pub perform_all-IsExact :
    (installation_id : Text) (calls : List Call) (t : Tables)
    → All IsAccounted calls
    → IsExact t
    → IsExact (perform_all installation_id calls t)
unfolding perform_all
perform_all-IsExact installation_id [] t h v = v
perform_all-IsExact installation_id (call ∷ calls) t (h, hs) v =
    perform_all-IsExact installation_id calls (perform installation_id call t) hs
      (perform-IsExact installation_id call t h v)

abbrev pub no_tables : Tables
no_tables = record { usage = []; reservations = [] }

pub no_tables-IsExact : IsExact no_tables
unfolding counters_of total_at
no_tables-IsExact = record { exact = λ key. refl; in_range = λ key. ground arith; keyed = tt }

-- A finished job whose retained part is given back.
abbrev pub IsGone : Row → Type 0
IsGone row = stored row.reservation ≡ no_usage

total_at-gone : (key : Text) (rows : List Row) → All IsGone rows → total_at key rows ≡ no_counters
unfolding total_at
total_at-gone key [] h = refl
total_at-gone key (row ∷ rows) (h, hs) = rw (h, total_at-gone key rows hs) (ground arith)

-- Nothing leaks: when, after any sequence of the transactions other than ReleaseQuota from empty tables,
-- every reservation is released and its retained part given back, every counter of every scope is
-- zero.
pub perform_all-drained :
    (installation_id : Text) (calls : List Call) (key : Text)
    → All IsAccounted calls
    → All IsGone (perform_all installation_id calls no_tables).reservations
    → counters_of key (perform_all installation_id calls no_tables).usage ≡ no_counters
perform_all-drained installation_id calls key accounted gone =
    let v = perform_all-IsExact installation_id calls no_tables accounted no_tables-IsExact in
    v.exact key ∙ total_at-gone key (perform_all installation_id calls no_tables).reservations gone
