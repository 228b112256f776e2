-- ===== src/Reconciler/Fair/Bounded.antt =====
-- internal/reconciler/reconciler.go: what one round of schedule's loop changes of its variables, and that
-- the loop ends.
use kube_queue.Common.{
  ltb→lt, ℕ, zero, suc, ◌+◌, ◌-◌, ◌*◌, ◌≤◌, ◌<◌, ◌≡◌, refl, Bool, true, false, ltb, Text, List,
  Option, none, some, Result, ok, err, ◌>>=◌, arith, leb, by_if, get_last?,
}
use kube_queue.Scheduler.Input.{State, Decision, Outcome, SchedulingError}
use kube_queue.Scheduler.Select.{select}
use kube_queue.Quota.Rules.{EffectivePolicy, PolicyRef}
use kube_queue.Quota.Policy.{PolicyError, compose}
use kube_queue.Quota.Reservation.{Rejection}
use kube_queue.Persistence.Admission.{RuntimeAdmission}
use kube_queue.Reconciler.{RuntimeJob, Candidate}
use kube_queue.Reconciler.Fair.{
  Services, ScheduleError, service, unfenced, Pass, Turn, add_error, at, tried, checked,
  applied_last, refused, uncommitted, found, composed, conflicted, abandoned, started, granted,
  committed, decided, chosen, selected, round, fair_rounds, weighted_fair, target_of, request_of,
}
use kube_queue.Reconciler.Fair.Candidates.{
  runtime_scheduler_input, find_candidate, count_candidates, count-disable_runtime_candidate,
}

module _ {World Error : Type 0} where
  -- What is left to do: three tries of each candidate, less those of the current one.
  abbrev pub work : Pass World Error → ℕ
  work p = 3 * count_candidates p.projects + (3 - p.conflicts)

  -- A round admits one job at most, for which a candidate is gone, and uses up one try at least.
  abbrev pub Advanced : Pass World Error → Result (Pass World Error) (Pass World Error) → Type 0
  Advanced p (err q) =
      (q.admitted ≡ p.admitted) × (count_candidates q.projects ≤ count_candidates p.projects)
  Advanced p (ok q) =
      (work q < work p)
      × (q.conflicts < 3)
      × (q.admitted ≤ suc p.admitted)
      × (q.admitted + count_candidates q.projects ≤ p.admitted + count_candidates p.projects)

  pub by_tried :
      {A B : Type 0} (P : Result (Pass World Error) B → Type 0) (wrap : Error → ScheduleError Error)
      (p : Pass World Error) (answer : Result Error A × World)
      (k : A × Pass World Error → Result (Pass World Error) B)
      → ((e : Error) (w : World) → P (err (add_error (wrap e) (at p w))))
      → ((a : A) (w : World) → P (k (a, at p w)))
      → P (tried wrap p answer >>= k)
  by_tried P wrap p (ok a, w) k failed next = next a w
  by_tried P wrap p (err e, w) k failed next = failed e w

  pub by_checked :
      {B : Type 0} (P : Result (Pass World Error) B → Type 0) (wrap : Error → ScheduleError Error)
      (p : Pass World Error) (answer : Option Error × World)
      (k : Pass World Error → Result (Pass World Error) B)
      → ((e : Error) (w : World) → P (err (add_error (wrap e) (at p w))))
      → ((w : World) → P (k (at p w)))
      → P (checked wrap p answer >>= k)
  by_checked P wrap p (none, w) k failed next = next w
  by_checked P wrap p (some e, w) k failed next = failed e w

  pub by_composed :
      {B : Type 0} (P : Result (Pass World Error) B → Type 0) (p : Pass World Error)
      (answer : Result PolicyError EffectivePolicy)
      (k : EffectivePolicy × PolicyRef → Result (Pass World Error) B)
      → ((e : ScheduleError Error) → P (err (add_error e p)))
      → ((effective : EffectivePolicy) (ref : PolicyRef) → P (k (effective, ref)))
      → P (composed p answer >>= k)
  by_composed P p (err e) k failed next = failed (ScheduleError.composition e)
  by_composed P p (ok effective) k failed next =
      by_last effective (get_last? effective.applied) failed next
    where
      by_last :
          (effective : EffectivePolicy) (last : Option PolicyRef)
          → ((e : ScheduleError Error) → P (err (add_error e p)))
          → ((effective : EffectivePolicy) (ref : PolicyRef) → P (k (effective, ref)))
          → P (applied_last p effective last >>= k)
      by_last effective none failed next = failed ScheduleError.no_policy
      by_last effective (some ref) failed next = next effective ref

  module _ (services : Services World Error) where
    conflicted-Advanced :
        (ids : List Text) (p : Pass World Error)
        → p.conflicts < 3
        → Advanced p (conflicted services ids p)
    conflicted-Advanced ids p h =
        by_if (Advanced p) (leb 3 (suc p.conflicts)) (λ last. (refl, omega arith))
          (λ more.
            by_tried (Advanced p) service p (services.fairness_state ids p.world) _
              (λ e w. (refl, omega arith))
              (λ read w. (grind arith, grind arith, omega arith, omega arith)))

    -- A candidate is gone, and nobody has been admitted since.
    abbrev Disabled : Pass World Error → Pass World Error → Type 0
    Disabled p q =
        (suc (count_candidates q.projects) ≡ count_candidates p.projects)
        × (q.conflicts ≡ 0)
        × (q.admitted ≡ p.admitted)
        × (p.conflicts < 3)

    abandoned-Advanced :
        (p q : Pass World Error) (job : Text) (e : Error) (answer : Option Error × World)
        → Disabled p q
        → Advanced p (abandoned services job e q answer)
    abandoned-Advanced p q job e (none, w) (c, z, a, h) =
        (omega arith, omega arith, omega arith, omega arith)
    abandoned-Advanced p q job e (some f, w) (c, z, a, h) = (a, omega arith)

    refused-Advanced :
        (p q : Pass World Error) (job : Text) (e : Error) (fatal : Bool)
        → Disabled p q
        → Advanced p (refused services job e q fatal)
    refused-Advanced p q job e true (c, z, a, h) = (a, omega arith)
    refused-Advanced p q job e false h =
        abandoned-Advanced p q job e (services.abandon job q.world) h

    started-Advanced :
        (p q : Pass World Error) (job : Text) (answer : Option Error × World)
        → Disabled p q
        → Advanced p (started services job q answer)
    started-Advanced p q job (none, w) (c, z, a, h) =
        (omega arith, omega arith, omega arith, omega arith)
    started-Advanced p q job (some e, w) h =
        refused-Advanced p (at q w) job e (services.is_fatal e) h

    granted-Advanced :
        (p q : Pass World Error) (job : RuntimeJob) (rejection : Option Rejection)
        → Disabled p q
        → Advanced p (granted services job q rejection)
    granted-Advanced p q job (some r) (c, z, a, h) =
        (omega arith, omega arith, omega arith, omega arith)
    granted-Advanced p q job none h = started-Advanced p q job.row.id (services.admit job q.world) h

    uncommitted-Advanced :
        (ids : List Text) (p : Pass World Error) (e : Error) (conflict : Bool)
        → p.conflicts < 3
        → Advanced p (uncommitted services ids e p conflict)
    uncommitted-Advanced ids p e true h = conflicted-Advanced ids p h
    uncommitted-Advanced ids p e false h = (refl, omega arith)

    committed-Advanced :
        (ids : List Text) (p : Pass World Error) (job : RuntimeJob) (id : Text) (c : Candidate)
        (answer : Result Error RuntimeAdmission × World)
        → find_candidate id p.projects ≡ some c
        → p.conflicts < 3
        → Advanced p (committed services ids job id p answer)
    committed-Advanced ids p job id c (err e, w) f h =
        uncommitted-Advanced ids (at p w) e (services.is_conflict e) h
    committed-Advanced ids p job id c (ok result, w) f h =
        granted-Advanced p _ job result.quota.rejection
          (count-disable_runtime_candidate id p.projects c f, refl, refl, h)

    decided-Advanced :
        (turn : Turn) (next : State) (d : Decision) (p : Pass World Error) (c : Candidate)
        → find_candidate d.job_id p.projects ≡ some c
        → p.conflicts < 3
        → Advanced p (decided services turn next d p c)
    decided-Advanced turn next d p c f h =
        by_tried (Advanced p) service p (services.policy_hierarchy (target_of c.job) p.world) _
          (λ e w. (refl, omega arith))
          (λ policies w.
            by_composed (Advanced p) (at p w) (compose policies) _ (λ e. (refl, omega arith))
              (λ effective ref.
                by_checked (Advanced p) unfenced (at p w) (services.revalidate w) _
                  (λ e v. (refl, omega arith))
                  (λ v.
                    let named = services.decision_id v in
                    committed-Advanced turn.project_ids (at p v) c.job d.job_id c
                      (services.commit turn.installation_id
                        (request_of turn p.version next named.0 ref effective d) named.1)
                      f h)))

    found-Advanced :
        (turn : Turn) (next : State) (d : Decision) (p : Pass World Error)
        (selected : Option Candidate)
        → find_candidate d.job_id p.projects ≡ selected
        → p.conflicts < 3
        → Advanced p (found services turn next d p selected)
    found-Advanced turn next d p none f h = (refl, omega arith)
    found-Advanced turn next d p (some c) f h = decided-Advanced turn next d p c f h

    selected-Advanced :
        (turn : Turn) (p : Pass World Error) (answer : Result SchedulingError Outcome)
        → p.conflicts < 3
        → Advanced p (selected services turn p answer)
    selected-Advanced turn p (err e) h = (refl, omega arith)
    selected-Advanced turn p (ok outcome) h = chosen-Advanced outcome.state outcome.decision
      where
        chosen-Advanced :
            (next : State) (decision : Option Decision)
            → Advanced p (chosen services turn next p decision)
        chosen-Advanced next none = (refl, omega arith)
        chosen-Advanced next (some d) =
            found-Advanced turn next d p (find_candidate d.job_id p.projects) refl h

    round-Advanced :
        (turn : Turn) (p : Pass World Error) → p.conflicts < 3 → Advanced p (round services turn p)
    unfolding round
    round-Advanced turn p h =
        selected-Advanced turn p
          (select weighted_fair p.fairness (runtime_scheduler_input p.projects)) h

    -- A pass after p that has ended, with no more admissions than there is room and candidates for.
    abbrev pub Ends : Turn → Pass World Error → Option (Pass World Error) → Type 0
    Ends turn p o =
        (q : Pass World Error) × (o ≡ some q)
        × (q.admitted ≤ turn.available)
        × (q.admitted + count_candidates q.projects ≤ p.admitted + count_candidates p.projects)

    after_round :
        (fuel : ℕ) (turn : Turn) (p : Pass World Error)
        (r : Result (Pass World Error) (Pass World Error))
        → ((q : Pass World Error)
            → work q < work p
            → q.conflicts < 3
            → q.admitted ≤ turn.available
            → Ends turn q (fair_rounds services fuel turn q))
        → Advanced p r
        → p.admitted < turn.available
        → Ends turn p (elim r [ err q ↦ some q | ok q ↦ fair_rounds services fuel turn q ])
    after_round fuel turn p (err q) next (e, n) l = (q, refl, omega arith, omega arith)
    after_round fuel turn p (ok q) next (less, few, one, sum) l =
        let (end, e, b, t) = next q less few (omega arith) in (end, e, b, omega arith)

    -- With a fuel above the work that is left the loop ends, and it has admitted no more jobs than
    -- there is room for and no more than there were candidates.
    pub fair_rounds-Ends :
        (fuel : ℕ) (turn : Turn) (p : Pass World Error)
        → work p < fuel
        → p.conflicts < 3
        → p.admitted ≤ turn.available
        → Ends turn p (fair_rounds services fuel turn p)
    unfolding fair_rounds
    fair_rounds-Ends zero turn p w c a = absurd (omega arith)
    fair_rounds-Ends (suc fuel) turn p w c a = going (ltb p.admitted turn.available) refl (
        after_round fuel turn p (round services turn p)
          (λ q less. fair_rounds-Ends fuel turn q (omega arith)) (round-Advanced turn p c))
      where
        rest : Result (Pass World Error) (Pass World Error) → Option (Pass World Error)
        rest r = elim r [ err q ↦ some q | ok q ↦ fair_rounds services fuel turn q ]

        going :
            (more : Bool)
            → ltb p.admitted turn.available ≡ more
            → (p.admitted < turn.available → Ends turn p (rest (round services turn p)))
            → Ends turn p (elim more [ false ↦ some p | true ↦ rest (round services turn p) ])
        going false e next = (p, refl, a, omega arith)
        going true e next = next (ltb→lt p.admitted turn.available e)
