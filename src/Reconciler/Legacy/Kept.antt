-- ===== src/Reconciler/Legacy/Kept.antt =====
-- internal/reconciler/reconciler.go: what every call keeps, scheduleLegacy keeps.
use kube_queue.Common.{
  ◌+◌, Bool, true, false, leb, List, [], ◌∷◌, Option, none, some, Result, ok, err, length,
}
use kube_queue.Reconciler.{RuntimeJob}
use kube_queue.Reconciler.Fair.{Services}
use kube_queue.Reconciler.Fair.Kept.{Stable}
use kube_queue.Reconciler.Legacy.{
  claimed, validated, schedule_legacy, Sweep, Limits, noted, added, released, release_all, failed,
  stopped, swept, tried_at, swept_at, sweep,
}

module _ {World Error : Type 0} (services : Services World Error) (limits : Limits)
    (I : World → Type 0) (stable : Stable services I) where
  noted-kept :
      (s : Sweep World Error) (answer : Option Error × World)
      → I answer.1
      → I (noted s answer).world
  noted-kept s (none, w) i = i
  noted-kept s (some e, w) i = i

  released-kept :
      (job : RuntimeJob) (s : Sweep World Error)
      → I s.world
      → I (released services limits job s).world
  released-kept job s i =
      noted-kept s (services.release_claim job.row.id s.world)
        (stable.release_claim job.row.id s.world i)

  release_all-kept :
      (jobs : List RuntimeJob) (s : Sweep World Error)
      → I s.world
      → I (release_all services limits jobs s).world
  unfolding release_all
  release_all-kept [] s i = i
  release_all-kept (job ∷ jobs) s i =
      release_all-kept jobs (released services limits job s) (released-kept job s i)

  module _ (job : RuntimeJob) (jobs : List RuntimeJob)
      (rest : Sweep World Error → Sweep World Error)
      (keep : (s : Sweep World Error) → I s.world → I (rest s).world) where
    failed-kept :
        (e : Error) (s : Sweep World Error) (answer : Option Error × World)
        → I answer.1
        → I (failed services limits job e s answer).world
    failed-kept e s (r, w) i =
        let answer = services.record_error job e w in
        noted-kept (noted (added e s) answer) (r, answer.1) (stable.record_error job e w i)

    stopped-kept :
        (e : Error) (s : Sweep World Error) (fatal : Bool)
        → I s.world
        → I (stopped services limits job e s rest fatal).world
    stopped-kept e s true i = i
    stopped-kept e s false i = keep _ (
        failed-kept e s (services.release_claim job.row.id s.world)
          (stable.release_claim job.row.id s.world i))

    swept-kept :
        (s : Sweep World Error) (answer : Option Error × World)
        → I answer.1
        → I (swept services limits job s rest answer).world
    swept-kept s (none, w) i = keep _ (released-kept job (record s { world = w }) i)
    swept-kept s (some e, w) i = stopped-kept e (record s { world = w }) (services.is_fatal e) i

    tried_at-kept :
        (s : Sweep World Error) (full : Bool)
        → I s.world
        → I (tried_at services limits job s rest full).world
    tried_at-kept s true i = keep _ (released-kept job s i)
    tried_at-kept s false i = swept-kept s (services.admit job s.world) (stable.admit job s.world i)

    swept_at-kept :
        (s : Sweep World Error) (full : Bool)
        → I s.world
        → I (swept_at services limits job jobs s rest full).world
    swept_at-kept s true i = release_all-kept (job ∷ jobs) s i
    swept_at-kept s false i =
        tried_at-kept s (leb limits.namespace_limit (s.by_namespace job.namespace)) i

  sweep-kept :
      (jobs : List RuntimeJob) (s : Sweep World Error)
      → I s.world
      → I (sweep services limits jobs s).world
  unfolding sweep
  sweep-kept [] s i = i
  sweep-kept (job ∷ jobs) s i =
      swept_at-kept job jobs (sweep services limits jobs) (λ t j. sweep-kept jobs t j) s
        (leb limits.available s.admitted) i

  claimed-kept :
      (jobs : List RuntimeJob) (answer : Result Error (List RuntimeJob) × World)
      → I answer.1
      → I (claimed services limits jobs answer).world
  claimed-kept jobs (err e, w) i = i
  claimed-kept jobs (ok eligible, w) i = sweep-kept eligible _ i

  validated-kept :
      (jobs : List RuntimeJob) (answer : Option Error × World)
      → I answer.1
      → I (validated services limits jobs answer).world
  validated-kept jobs (some e, w) i = i
  validated-kept jobs (none, w) i =
      let n = length jobs + limits.available in
      claimed-kept jobs (services.claim_eligible n w) (stable.claim_eligible n w i)

  pub schedule_legacy-kept :
      (jobs : List RuntimeJob) (w : World) → I w → I (schedule_legacy services limits jobs w).world
  unfolding schedule_legacy
  schedule_legacy-kept jobs w i =
      validated-kept jobs (services.revalidate w) (stable.revalidate w i)
