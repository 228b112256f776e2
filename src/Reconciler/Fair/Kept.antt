-- ===== src/Reconciler/Fair/Kept.antt =====
-- internal/reconciler/reconciler.go: what every call keeps, the loop of schedule keeps.
use kube_queue.Common.{
  ℕ, zero, suc, Bool, true, false, ltb, Text, List, Option, none, some, Result, ok, err, ◌>>=◌,
  by_if, leb,
}
use kube_queue.Scheduler.Input.{State, Decision, Outcome, SchedulingError}
use kube_queue.Scheduler.Select.{select}
use kube_queue.Quota.Rules.{Scope}
use kube_queue.Quota.Policy.{compose}
use kube_queue.Quota.Reservation.{Rejection}
use kube_queue.Persistence.Admission.{RuntimeAdmissionRequest, RuntimeAdmission}
use kube_queue.Reconciler.{RuntimeJob, Candidate}
use kube_queue.Reconciler.Fair.{
  Services, service, unfenced, tried, checked, Pass, Turn, at, refused, uncommitted, found,
  conflicted, abandoned, started, granted, committed, decided, chosen, selected, round, fair_rounds,
  weighted_fair, target_of, request_of,
}
use kube_queue.Reconciler.Fair.Candidates.{runtime_scheduler_input, find_candidate}
use kube_queue.Reconciler.Fair.Bounded.{by_composed}

-- A property of worlds that no call ends.
pub record Stable {World Error : Type 0} (services : Services World Error) (I : World → Type 0)
    : Type 0 where
  pub scheduling_candidates : (w : World) → I w → I (services.scheduling_candidates w).1
  pub fairness_state : (ids : List Text) (w : World) → I w → I (services.fairness_state ids w).1
  pub policy_hierarchy : (s : Scope) (w : World) → I w → I (services.policy_hierarchy s w).1
  pub revalidate : (w : World) → I w → I (services.revalidate w).1
  pub decision_id : (w : World) → I w → I (services.decision_id w).1
  pub commit :
      (id : Text) (r : RuntimeAdmissionRequest) (w : World) → I w → I (services.commit id r w).1
  pub admit : (j : RuntimeJob) (w : World) → I w → I (services.admit j w).1
  pub abandon : (id : Text) (w : World) → I w → I (services.abandon id w).1
  pub claim_eligible : (n : ℕ) (w : World) → I w → I (services.claim_eligible n w).1
  pub release_claim : (id : Text) (w : World) → I w → I (services.release_claim id w).1
  pub record_error :
      (j : RuntimeJob) (e : Error) (w : World) → I w → I (services.record_error j e w).1

module _ {World Error : Type 0} (services : Services World Error) (I : World → Type 0)
    (stable : Stable services I) where
  abbrev Keeps : Result (Pass World Error) (Pass World Error) → Type 0
  Keeps (ok q) = I q.world
  Keeps (err q) = I q.world

  tried-Keeps :
      {A : Type 0} (p : Pass World Error) (answer : Result Error A × World)
      (k : A × Pass World Error → Result (Pass World Error) (Pass World Error))
      → I answer.1
      → ((a : A) (w : World) → I w → Keeps (k (a, at p w)))
      → Keeps (tried service p answer >>= k)
  tried-Keeps p (ok a, w) k i next = next a w i
  tried-Keeps p (err e, w) k i next = i

  checked-Keeps :
      (p : Pass World Error) (answer : Option Error × World)
      (k : Pass World Error → Result (Pass World Error) (Pass World Error))
      → I answer.1
      → ((w : World) → I w → Keeps (k (at p w)))
      → Keeps (checked unfenced p answer >>= k)
  checked-Keeps p (none, w) k i next = next w i
  checked-Keeps p (some e, w) k i next = i

  conflicted-Keeps :
      (ids : List Text) (p : Pass World Error) → I p.world → Keeps (conflicted services ids p)
  conflicted-Keeps ids p i =
      by_if Keeps (leb 3 (suc p.conflicts)) (λ _. i)
        (λ _.
          tried-Keeps p (services.fairness_state ids p.world) _
            (stable.fairness_state ids p.world i) (λ read w j. j))

  abandoned-Keeps :
      (p : Pass World Error) (job : Text) (e : Error) (answer : Option Error × World)
      → I answer.1
      → Keeps (abandoned services job e p answer)
  abandoned-Keeps p job e (none, w) i = i
  abandoned-Keeps p job e (some f, w) i = i

  refused-Keeps :
      (p : Pass World Error) (job : Text) (e : Error) (fatal : Bool)
      → I p.world
      → Keeps (refused services job e p fatal)
  refused-Keeps p job e true i = i
  refused-Keeps p job e false i =
      abandoned-Keeps p job e (services.abandon job p.world) (stable.abandon job p.world i)

  started-Keeps :
      (p : Pass World Error) (job : Text) (answer : Option Error × World)
      → I answer.1
      → Keeps (started services job p answer)
  started-Keeps p job (none, w) i = i
  started-Keeps p job (some e, w) i = refused-Keeps (at p w) job e (services.is_fatal e) i

  granted-Keeps :
      (p : Pass World Error) (job : RuntimeJob) (rejection : Option Rejection)
      → I p.world
      → Keeps (granted services job p rejection)
  granted-Keeps p job (some r) i = i
  granted-Keeps p job none i =
      started-Keeps p job.row.id (services.admit job p.world) (stable.admit job p.world i)

  uncommitted-Keeps :
      (ids : List Text) (p : Pass World Error) (e : Error) (conflict : Bool)
      → I p.world
      → Keeps (uncommitted services ids e p conflict)
  uncommitted-Keeps ids p e true i = conflicted-Keeps ids p i
  uncommitted-Keeps ids p e false i = i

  committed-Keeps :
      (ids : List Text) (p : Pass World Error) (job : RuntimeJob) (id : Text)
      (answer : Result Error RuntimeAdmission × World)
      → I answer.1
      → Keeps (committed services ids job id p answer)
  committed-Keeps ids p job id (err e, w) i =
      uncommitted-Keeps ids (at p w) e (services.is_conflict e) i
  committed-Keeps ids p job id (ok result, w) i = granted-Keeps _ job result.quota.rejection i

  decided-Keeps :
      (turn : Turn) (next : State) (d : Decision) (p : Pass World Error) (c : Candidate)
      → I p.world
      → Keeps (decided services turn next d p c)
  decided-Keeps turn next d p c i =
      tried-Keeps p (services.policy_hierarchy (target_of c.job) p.world) _
        (stable.policy_hierarchy (target_of c.job) p.world i)
        (λ policies w j.
          by_composed Keeps (at p w) (compose policies) _ (λ e. j)
            (λ effective ref.
              checked-Keeps (at p w) (services.revalidate w) _ (stable.revalidate w j) (λ v k.
                let named = services.decision_id v in
                let request = request_of turn p.version next named.0 ref effective d in
                committed-Keeps turn.project_ids (at p v) c.job d.job_id
                  (services.commit turn.installation_id request named.1)
                  (stable.commit turn.installation_id request named.1 (stable.decision_id v k)))))

  found-Keeps :
      (turn : Turn) (next : State) (d : Decision) (p : Pass World Error)
      (candidate : Option Candidate)
      → I p.world
      → Keeps (found services turn next d p candidate)
  found-Keeps turn next d p none i = i
  found-Keeps turn next d p (some c) i = decided-Keeps turn next d p c i

  chosen-Keeps :
      (turn : Turn) (next : State) (p : Pass World Error) (decision : Option Decision)
      → I p.world
      → Keeps (chosen services turn next p decision)
  chosen-Keeps turn next p none i = i
  chosen-Keeps turn next p (some d) i =
      found-Keeps turn next d p (find_candidate d.job_id p.projects) i

  selected-Keeps :
      (turn : Turn) (p : Pass World Error) (answer : Result SchedulingError Outcome)
      → I p.world
      → Keeps (selected services turn p answer)
  selected-Keeps turn p (err e) i = i
  selected-Keeps turn p (ok outcome) i = chosen-Keeps turn outcome.state p outcome.decision i

  abbrev pub Ended : Option (Pass World Error) → Type 0
  Ended none = Unit {0}
  Ended (some q) = I q.world

  after_round :
      (fuel : ℕ) (turn : Turn) (r : Result (Pass World Error) (Pass World Error))
      → ((q : Pass World Error) → I q.world → Ended (fair_rounds services fuel turn q))
      → Keeps r
      → Ended (elim r [ err q ↦ some q | ok q ↦ fair_rounds services fuel turn q ])
  after_round fuel turn (err q) next i = i
  after_round fuel turn (ok q) next i = next q i

  pub fair_rounds-Ended :
      (fuel : ℕ) (turn : Turn) (p : Pass World Error)
      → I p.world
      → Ended (fair_rounds services fuel turn p)
  unfolding fair_rounds round
  fair_rounds-Ended zero turn p i = tt
  fair_rounds-Ended (suc fuel) turn p i = going (ltb p.admitted turn.available) (
      after_round fuel turn (round services turn p) (λ q j. fair_rounds-Ended fuel turn q j)
        (selected-Keeps turn p
          (select weighted_fair p.fairness (runtime_scheduler_input p.projects)) i))
    where
      rest : Result (Pass World Error) (Pass World Error) → Option (Pass World Error)
      rest r = elim r [ err q ↦ some q | ok q ↦ fair_rounds services fuel turn q ]

      going :
          (more : Bool)
          → Ended (rest (round services turn p))
          → Ended (elim more [ false ↦ some p | true ↦ rest (round services turn p) ])
      going false next = i
      going true next = next
