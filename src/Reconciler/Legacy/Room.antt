-- ===== src/Reconciler/Legacy/Room.antt =====
-- internal/reconciler/reconciler.go: the counter that the loop of scheduleLegacy compares with its room.
use kube_queue.Common.{
  ◌+◌, ◌≤◌, ◌<◌, ◌≡◌, refl, Bool, true, false, leb, List, [], ◌∷◌, Option, none, some, Result, ok,
  err, arith, length,
}
use kube_queue.Reconciler.{RuntimeJob}
use kube_queue.Reconciler.Fair.{Services}
use kube_queue.Reconciler.Legacy.{
  claimed, validated, schedule_legacy, Sweep, Limits, noted, added, released, release_all, failed,
  stopped, swept, tried_at, swept_at, sweep,
}

module _ {World Error : Type 0} (services : Services World Error) (limits : Limits) where
  noted-admitted :
      (s : Sweep World Error) (answer : Option Error × World)
      → (noted s answer).admitted ≡ s.admitted
  noted-admitted s (none, w) = refl
  noted-admitted s (some e, w) = refl

  abbrev HasRoom : Sweep World Error → Type 0
  HasRoom s = s.admitted ≤ limits.available

  release_all-HasRoom :
      (jobs : List RuntimeJob) (s : Sweep World Error)
      → HasRoom s
      → HasRoom (release_all services limits jobs s)
  unfolding release_all
  release_all-HasRoom [] s h = h
  release_all-HasRoom (job ∷ jobs) s h =
      let same = noted-admitted s (services.release_claim job.row.id s.world) in
      release_all-HasRoom jobs (released services limits job s) (omega (arith, same, h))

  module _ (job : RuntimeJob) (jobs : List RuntimeJob)
      (rest : Sweep World Error → Sweep World Error)
      (keep : (s : Sweep World Error) → HasRoom s → HasRoom (rest s)) where
    failed-HasRoom :
        (e : Error) (s : Sweep World Error) (answer : Option Error × World)
        → HasRoom s
        → HasRoom (failed services limits job e s answer)
    failed-HasRoom e s (r, w) h =
        let answer = services.record_error job e w in
        let first = noted-admitted (added e s) answer in
        let last = noted-admitted (noted (added e s) answer) (r, answer.1) in
        omega (arith, first, last, h)

    swept-HasRoom :
        (s : Sweep World Error) (answer : Option Error × World)
        → s.admitted < limits.available
        → HasRoom (swept services limits job s rest answer)
    swept-HasRoom s (none, w) l = keep _ (omega (arith, l))
    swept-HasRoom s (some e, w) l = stopped-HasRoom (services.is_fatal e)
      where
        stopped-HasRoom :
            (fatal : Bool)
            → HasRoom (stopped services limits job e (record s { world = w }) rest fatal)
        stopped-HasRoom true = omega (arith, l)
        stopped-HasRoom false = keep _ (
            failed-HasRoom e (record s { world = w }) (services.release_claim job.row.id w)
              (omega (arith, l)))

    swept_at-HasRoom :
        (s : Sweep World Error) (full : Bool)
        → leb limits.available s.admitted ≡ full
        → HasRoom s
        → HasRoom (swept_at services limits job jobs s rest full)
    swept_at-HasRoom s true e h = release_all-HasRoom (job ∷ jobs) s h
    swept_at-HasRoom s false e h = tried (leb limits.namespace_limit (s.by_namespace job.namespace))
      where
        tried : (at_limit : Bool) → HasRoom (tried_at services limits job s rest at_limit)
        tried true =
            let same = noted-admitted s (services.release_claim job.row.id s.world) in
            keep _ (omega (arith, same, h))
        tried false = swept-HasRoom s (services.admit job s.world) (ground (arith, e))

  sweep-HasRoom :
      (jobs : List RuntimeJob) (s : Sweep World Error)
      → HasRoom s
      → HasRoom (sweep services limits jobs s)
  unfolding sweep
  sweep-HasRoom [] s h = h
  sweep-HasRoom (job ∷ jobs) s h =
      swept_at-HasRoom job jobs (sweep services limits jobs) (λ t k. sweep-HasRoom jobs t k) s
        (leb limits.available s.admitted) refl h

  claimed-HasRoom :
      (jobs : List RuntimeJob) (answer : Result Error (List RuntimeJob) × World)
      → HasRoom (claimed services limits jobs answer)
  claimed-HasRoom jobs (err e, w) = omega arith
  claimed-HasRoom jobs (ok eligible, w) = sweep-HasRoom eligible _ (omega arith)

  validated-HasRoom :
      (jobs : List RuntimeJob) (answer : Option Error × World)
      → HasRoom (validated services limits jobs answer)
  validated-HasRoom jobs (some e, w) = omega arith
  validated-HasRoom jobs (none, w) =
      claimed-HasRoom jobs (services.claim_eligible (length jobs + limits.available) w)

  pub schedule_legacy-admitted :
      (jobs : List RuntimeJob) (w : World)
      → (schedule_legacy services limits jobs w).admitted ≤ limits.available
  unfolding schedule_legacy
  schedule_legacy-admitted jobs w = validated-HasRoom jobs (services.revalidate w)
