-- ===== src/Reconciler/Schedule/Returns.antt =====
-- internal/reconciler/reconciler.go: that schedule returns, and how many jobs it admits.
use kube_queue.Common.{
  ℕ, ◌-◌, ◌≤◌, ◌≡◌, refl, Bool, true, false, Text, List, [], ◌∷◌, Option, some, Result, ok, err,
  arith, ap,
}
use kube_queue.Leadership.Lease.{Authority}
use kube_queue.Scheduler.Input.{State}
use kube_queue.Reconciler.{RuntimeJob, SchedulingProject, running_jobs}
use kube_queue.Reconciler.Fair.{Services, Pass, Turn, fair_rounds}
use kube_queue.Reconciler.Fair.Bounded.{Ends, fair_rounds-Ends}
use kube_queue.Reconciler.Legacy.Room.{schedule_legacy-admitted}
use kube_queue.Reconciler.Schedule.{
  Capacity, Report, share_installation, loop_fuel, of_pass, project_ids, turn_of, first_pass,
  looped, shared, listed, with_room, schedule,
}

module _ {World Error : Type 0} where
  -- A report that admits no more jobs than there are places.
  abbrev pub Returns : ℕ → Option (Report World Error) → Type 0
  Returns available o = (r : Report World Error) × (o ≡ some r) × (r.admitted ≤ available)

  module _ (services : Services World Error) (capacity : Capacity) (authority : Authority) where
    passed :
        (turn : Turn) (p : Pass World Error) (o : Option (Pass World Error))
        → Ends services turn p o
        → Returns turn.available (of_pass o)
    passed turn p o (q, e, a, t) = (_, ap of_pass e, a)

    looped-Returns :
        (id : Text) (available : ℕ) (projects : List SchedulingProject)
        (answer : Result Error (ℕ × State) × World)
        → Returns available (looped services capacity authority id available projects answer)
    unfolding loop_fuel
    looped-Returns id available projects (err e, w) = (_, refl, omega arith)
    looped-Returns id available projects (ok read, w) =
        let turn = turn_of authority id projects available in
        let start = first_pass w projects read in
        passed turn start (fair_rounds services (loop_fuel projects) turn start) (
          fair_rounds-Ends services (loop_fuel projects) turn start (omega arith) (omega arith)
            (omega arith))

    shared-Returns :
        (id : Text) (available : ℕ) (projects : List SchedulingProject) (w : World) (b : Bool)
        → Returns available (shared services capacity authority id available projects w b)
    shared-Returns id available projects w false = (_, refl, omega arith)
    shared-Returns id available projects w true =
        looped-Returns id available projects (services.fairness_state (project_ids projects) w)

    listed-Returns :
        (jobs : List RuntimeJob) (available : ℕ)
        (answer : Result Error (List SchedulingProject) × World)
        → Returns available (listed services capacity authority jobs available answer)
    listed-Returns jobs available (err e, w) = (_, refl, omega arith)
    listed-Returns jobs available (ok [], w) = (_, refl, schedule_legacy-admitted services _ jobs w)
    listed-Returns jobs available (ok (p ∷ ps), w) =
        shared-Returns p.installation_id available (p ∷ ps) w
          (share_installation p.installation_id (p ∷ ps))

    with_room-Returns :
        (jobs : List RuntimeJob) (available : ℕ) (w : World) (b : Bool)
        → Returns available (with_room services capacity authority jobs available w b)
    with_room-Returns jobs available w true = (_, refl, omega arith)
    with_room-Returns jobs available w false =
        listed-Returns jobs available (services.scheduling_candidates w)

    -- schedule returns a report whatever the calls answer, and has then admitted no more jobs than
    -- the global limit leaves room for beside the running ones.
    pub schedule-Returns :
        (jobs : List RuntimeJob) (w : World)
        → Returns
            (capacity.global_limit - running_jobs jobs)
            (schedule services capacity authority jobs w)
    unfolding schedule
    schedule-Returns jobs w = with_room-Returns jobs (capacity.global_limit - running_jobs jobs) w _
