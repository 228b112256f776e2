-- ===== src/Quota/Reservation/Decision.antt =====
-- What DecideReservation decides, on every path, and what happens to the usage that it is given.
use kube_queue.Common.{
  ◌≡◌, ◌≢◌, ◌⊎◌, inl, inr, refl, ap, ◌∙◌, true, false, text_eq_refl, is_empty, get_last?, none,
  some, Option-cases, Result, ok, err, arith,
}
use kube_queue.Quota.Counters.{Usage, CounterError, add}
use kube_queue.Quota.Counters.Laws.{◌⊞◌, UsageInRange, add-UsageAddResult, UsageAddResult}
use kube_queue.Quota.Rules.{PolicyRef, EffectivePolicy}
use kube_queue.Quota.Reservation.{
  decide_under, Rejection, Reservation, ReservationRequest, ReservationDecision, usage_eq,
  first_rejection, refusal, new_intent, admitted, decide_reservation,
}
use kube_queue.Quota.Reservation.Limits.{
  Within, LimitsInRange, first_rejection_iff, Within-UsageInRange,
}

-- A decision on a key that has no reservation yet.
abbrev pub NewDecision :
    EffectivePolicy → PolicyRef → Usage → ReservationRequest → ReservationDecision → Type 0
NewDecision policy ref usage request d =
    ((d.accepted ≡ true)
      × (d.replay ≡ false)
      × Within policy.rules.quotas d.usage
      × (d.usage ≡ usage ⊞ request.demand)
      × (d.reservation ≡ some (new_intent ref request)))
    ⊎ ((d.accepted ≡ false)
        × (¬ Within policy.rules.quotas (usage ⊞ request.demand))
        × (d.usage ≡ usage)
        × (d.reservation ≡ none)
        × (d.rejection ≢ none))

-- A request with its key and its job, under a policy with an applied version.
abbrev pub IsComplete : ReservationRequest → Type 0
IsComplete request = (is_empty request.idempotency_key ≡ false) × (is_empty request.job_id ≡ false)

module _ (policy : EffectivePolicy) (ref : PolicyRef)
    (applied : get_last? policy.applied ≡ some ref) (usage : Usage) (request : ReservationRequest)
    (complete : IsComplete request) where
  decide_refused :
      (rejection : Rejection)
      → first_rejection ref policy usage request.demand ≡ some rejection
      → decide_reservation policy usage request none ≡ ok (refusal usage rejection)
  unfolding decide_reservation
  decide_refused rejection e = rw (complete.0, complete.1, applied, decide_under, e)

  decide_admitted :
      first_rejection ref policy usage request.demand ≡ none
      → decide_reservation policy usage request none
        ≡ admitted ref request (add usage request.demand)
  unfolding decide_reservation
  decide_admitted e = rw (complete.0, complete.1, applied, decide_under, e)

  abbrev accepted_with : ReservationDecision
  accepted_with = record {
    accepted = true;
    usage = usage ⊞ request.demand;
    reservation = some (new_intent ref request);
    rejection = none;
    replay = false;
  }

  add_fits :
      (r : Result CounterError Usage)
      → UsageAddResult usage request.demand r
      → UsageInRange (usage ⊞ request.demand)
      → r ≡ ok (usage ⊞ request.demand)
  add_fits (ok u) h k = rw h.0
  add_fits (err e) h k = absurd (h k)

  -- A complete request on a new key is always decided, with no error: it is accepted exactly when the
  -- usage with its demand is within all nine limits, and then that usage and the intent are returned;
  -- otherwise the usage is unchanged, there is no reservation, and a rejection says why.
  pub decide_new :
      UsageInRange usage
      → UsageInRange request.demand
      → LimitsInRange policy.rules.quotas
      → (d : ReservationDecision) × (decide_reservation policy usage request none ≡ ok d)
        × NewDecision policy ref usage request d
  decide_new u v l = elim (Option-cases (first_rejection ref policy usage request.demand)) [
    | inr (rejection, e) ↦ (
      refusal usage rejection,
      decide_refused rejection e,
      inr (
        refl,
        (λ w. cc (e, (first_rejection_iff ref policy usage request.demand).1 w)),
        refl,
        refl,
        λ e. cc,
      ),
    )
    | inl e ↦
        let w = (first_rejection_iff ref policy usage request.demand).0 e in
        (
          accepted_with,
          decide_admitted e
              ∙ ap (admitted ref request) (
                  add_fits _ (add-UsageAddResult usage request.demand u v)
                    (Within-UsageInRange policy.rules.quotas _ l w)),
          inl (refl, refl, w, refl, refl),
        )
  ]

usage_eq_refl : (u : Usage) → usage_eq u u ≡ true
usage_eq_refl u = ground arith

-- A reservation comes out of a decision on a new key only for a complete request, and holds its key,
-- its job and its demand.
pub new_reservation :
    (policy : EffectivePolicy) (usage : Usage) (request : ReservationRequest)
    (d : ReservationDecision) (r : Reservation)
    → decide_reservation policy usage request none ≡ ok d
    → d.reservation ≡ some r
    → IsComplete request
      × (r.idempotency_key ≡ request.idempotency_key)
      × (r.job_id ≡ request.job_id)
      × (r.demand ≡ request.demand)
unfolding decide_reservation
new_reservation policy usage request d r e k = ground arith

-- A decision made again with the reservation that it returned is the same acceptance, marked as a
-- replay, and leaves the usage as it is, whatever that has become.
pub decide_again :
    (policy later : EffectivePolicy) (ref : PolicyRef) (usage usage_later : Usage)
    (request : ReservationRequest) (d : ReservationDecision) (r : Reservation)
    → decide_reservation policy usage request none ≡ ok d
    → d.reservation ≡ some r
    → get_last? later.applied ≡ some ref
    → decide_reservation later usage_later request (some r)
      ≡ ok (record {
        accepted = true;
        usage = usage_later;
        reservation = some r;
        rejection = none;
        replay = true;
      })
unfolding decide_reservation
decide_again policy later ref usage usage_later request d r e k l =
    let (complete, key, job, demand) = new_reservation policy usage request d r e k in
    rw (
      complete.0,
      complete.1,
      l,
      decide_under,
      key,
      job,
      demand,
      text_eq_refl request.idempotency_key,
      text_eq_refl request.job_id,
      usage_eq_refl request.demand,
    )
