-- ===== src/Reconciler/Schedule/Kept.antt =====
-- internal/reconciler/reconciler.go: what every call keeps, schedule keeps.
use kube_queue.Common.{
  ℕ, ◌-◌, ◌==◌, Bool, true, false, Text, List, [], ◌∷◌, Option, none, some, Result, ok, err,
}
use kube_queue.Leadership.Lease.{Authority}
use kube_queue.Scheduler.Input.{State}
use kube_queue.Reconciler.{RuntimeJob, SchedulingProject, running_jobs}
use kube_queue.Reconciler.Fair.{Services, Pass, fair_rounds}
use kube_queue.Reconciler.Fair.Kept.{Stable, Ended, fair_rounds-Ended}
use kube_queue.Reconciler.Legacy.Kept.{schedule_legacy-kept}
use kube_queue.Reconciler.Schedule.{
  Capacity, Report, share_installation, loop_fuel, of_pass, project_ids, turn_of, first_pass,
  looped, shared, listed, with_room, schedule,
}

module _ {World Error : Type 0} (services : Services World Error) (I : World → Type 0)
    (stable : Stable services I) (capacity : Capacity) (authority : Authority) where
  abbrev pub Reported : Option (Report World Error) → Type 0
  Reported none = Unit {0}
  Reported (some r) = I r.world

  passed : (o : Option (Pass World Error)) → Ended services I stable o → Reported (of_pass o)
  passed none i = tt
  passed (some q) i = i

  looped-Reported :
      (id : Text) (available : ℕ) (projects : List SchedulingProject)
      (answer : Result Error (ℕ × State) × World)
      → I answer.1
      → Reported (looped services capacity authority id available projects answer)
  looped-Reported id available projects (err e, w) i = i
  looped-Reported id available projects (ok read, w) i =
      let turn = turn_of authority id projects available in
      let start = first_pass w projects read in
      passed (fair_rounds services (loop_fuel projects) turn start)
        (fair_rounds-Ended services I stable (loop_fuel projects) turn start i)

  shared-Reported :
      (id : Text) (available : ℕ) (projects : List SchedulingProject) (w : World) (b : Bool)
      → I w
      → Reported (shared services capacity authority id available projects w b)
  shared-Reported id available projects w false i = i
  shared-Reported id available projects w true i =
      looped-Reported id available projects (services.fairness_state (project_ids projects) w)
        (stable.fairness_state (project_ids projects) w i)

  listed-Reported :
      (jobs : List RuntimeJob) (available : ℕ)
      (answer : Result Error (List SchedulingProject) × World)
      → I answer.1
      → Reported (listed services capacity authority jobs available answer)
  listed-Reported jobs available (err e, w) i = i
  listed-Reported jobs available (ok [], w) i = schedule_legacy-kept services _ I stable jobs w i
  listed-Reported jobs available (ok (p ∷ ps), w) i =
      shared-Reported p.installation_id available (p ∷ ps) w
        (share_installation p.installation_id (p ∷ ps)) i

  with_room-Reported :
      (jobs : List RuntimeJob) (available : ℕ) (w : World) (b : Bool)
      → I w
      → Reported (with_room services capacity authority jobs available w b)
  with_room-Reported jobs available w true i = i
  with_room-Reported jobs available w false i =
      listed-Reported jobs available (services.scheduling_candidates w)
        (stable.scheduling_candidates w i)

  pub schedule-Reported :
      (jobs : List RuntimeJob) (w : World)
      → I w
      → Reported (schedule services capacity authority jobs w)
  unfolding schedule
  schedule-Reported jobs w i =
      let available = capacity.global_limit - running_jobs jobs in
      with_room-Reported jobs available w (available == 0) i
