-- ===== src/Reconciler/Commands/Once.antt =====
-- internal/reconciler/reconciler.go: when mutateKubernetes sends its command.
use kube_queue.Common.{
  ℕ, ◌≡◌, refl, sym, ap, subst, ◌∙◌, ◌⊎◌, inl, inr, Bool, true, false, Text, codes, List, Option,
  none, some, Result, ok, err, arith, Bool-cases, by_if,
}
use kube_queue.Leadership.Lease
use kube_queue.Leadership.Lease.{Lease, Authority, authorize}
use kube_queue.Persistence.Leases.{leadership_lease}
use kube_queue.Leadership.Manager.{Failure}
use kube_queue.Leadership.Mutation.{
  Mutation, MutationError, in_flight, observation_required, succeeded, outcome_succeeded,
  outcome_uncertain, observation_needed, complete,
}
use kube_queue.Persistence.Mutations.{
  zero_record, StoreError, lease_unreadable, unauthorized, invalid_request, rolled_back, begin_from,
  begin_read, rejected, Answer, begin_mutation, complete_mutation, observe_mutation,
  authorize_mutation, is_invalid_request, completed,
}
use kube_queue.Persistence.Mutations.Table.{
  MutationRequest, MutationRecord, Row, ReadError, read_mutation, write_mutation,
  read-write_mutation, bounded_mutation_value, stored, IsNamed,
}
use kube_queue.Persistence.Mutations.Keys.{read_same_key, read_key}
use kube_queue.Reconciler.Commands.{
  Readings, KubeError, Effect, unsent, CommandError, not_completed, reply_error, class_of,
  observed_effect, begun_again, observation_of, is_seen_after, outcome_of, licensed, resolved,
  after_begin, mutate_kubernetes, sent_command,
}

-- The row of the request says that the command succeeded.
abbrev pub IsDone : List Row → MutationRequest → Type 0
IsDone table q =
    (r : MutationRecord) × (read_mutation table q ≡ ok r) × (r.mutation.state ≡ succeeded)

complete_succeeded :
    (m : Mutation) (g : ℕ) (n : Mutation)
    → complete m g outcome_succeeded ≡ (n, none)
    → n.state ≡ succeeded
unfolding complete
complete_succeeded m g n e = ground arith

-- A completion as succeeded that is written marks the row.
complete-IsDone :
    (table : List Row) (q : MutationRequest) (g : ℕ) (class : Text) (now : ℕ) (after : List Row)
    (r : MutationRecord)
    → complete_mutation table q g outcome_succeeded class now ≡ (after, (r, none))
    → IsDone after q
unfolding complete_mutation
complete-IsDone table q g class now after r e = of_read (read_mutation table q) refl e
  where
    of_completed :
        (current : MutationRecord)
        → read_mutation table q ≡ ok current
        → (c : Mutation × Option MutationError) → complete current.mutation g outcome_succeeded ≡ c
        → completed table current class now c ≡ (after, (r, none))
        → IsDone after q
    of_completed current f (m, some e) c h =
        let no : some (rejected e) ≡ none = ap (λ (t : Answer). t.1.1) h in cc
    of_completed current f (m, none) c h =
        let next = record current {
          mutation = m;
          error_class = bounded_mutation_value class 64;
          updated_at = now;
        } in
        let done = complete_succeeded current.mutation g m c in
        let written : read_mutation (write_mutation table next) current.request ≡ ok (stored next) =
          read-write_mutation table next (subst IsNamed (sym done) tt) in
        subst (λ t. IsDone t q) (ap (λ (t : Answer). t.0) h)
          (
            stored next,
            sym (
                  read_same_key (write_mutation table next) current.request q
                    (read_key table q current f))
                ∙ written,
            done,
          )

    of_read :
        (answer : Result ReadError MutationRecord)
        → read_mutation table q ≡ answer
        → (elim answer as (λ _. Answer) [
          | err e ↦ (table, (zero_record, some (StoreError.unreadable e)))
          | ok current ↦
              completed table current class now (complete current.mutation g outcome_succeeded)
        ])
          ≡ (after, (r, none))
        → IsDone after q
    of_read (err e) f h =
        let no : some (StoreError.unreadable e) ≡ none = ap (λ (t : Answer). t.1.1) h in cc
    of_read (ok current) f h =
        of_completed current f (complete current.mutation g outcome_succeeded) refl h

-- What holds of every answer of authorizeMutationTx.
by_authority :
    (P : Option StoreError → Type 0) (row : Option Lease) (a : Authority) (now : ℕ)
    → P none
    → ((e : Failure) → P (some (lease_unreadable e)))
    → ((e : Lease.Error) → P (some (unauthorized e)))
    → P (authorize_mutation row a now)
by_authority P row a now free unreadable refused = of_lease (leadership_lease row)
  where
    of_answer :
        (o : Option Lease.Error)
        → P (elim o as (λ _. Option StoreError) [ none ↦ none | some e ↦ some (unauthorized e) ])
    of_answer none = free
    of_answer (some e) = refused e

    of_lease :
        (r : Result Failure Lease.Lease)
        → P (elim r as (λ _. Option StoreError) [
          | err e ↦ some (lease_unreadable e)
          | ok lease ↦ elim (authorize a lease now) as (λ _. Option StoreError) [
            | none ↦ none
            | some e ↦ some (unauthorized e)
          ]
        ])
    of_lease (err e) = unreadable e
    of_lease (ok lease) = of_answer (authorize a lease now)

-- What holds of the answers of BeginMutation, where the row of the request is read as `r`.
by_begin :
    (P : Answer → Type 0) (lease : Option Lease) (table : List Row) (q : MutationRequest)
    (a : Authority) (attempt : Text) (checked now : ℕ) (r : MutationRecord)
    → read_mutation table q ≡ ok r
    → P (rolled_back table invalid_request)
    → ((e : Failure) → P (rolled_back table (lease_unreadable e)))
    → ((e : Lease.Error) → P (rolled_back table (unauthorized e)))
    → P (begin_from r.mutation.state table r q a attempt now)
    → P (begin_mutation lease table q a attempt checked now)
unfolding begin_mutation
by_begin P lease table q a attempt checked now r e invalid unreadable refused begun =
    by_if P (is_invalid_request q) (λ _. invalid)
      (λ _.
        by_authority
          (λ o. P (elim o as (λ _. Answer) [
            | some e ↦ rolled_back table e
            | none ↦ begin_read (read_mutation table q) table q a attempt now
          ]))
          lease a checked (subst (λ t. P (begin_read t table q a attempt now)) (sym e) begun)
          unreadable refused)

-- Nothing is sent, and the table is this one.
abbrev pub Unsent : List Row → Effect → Type 0
Unsent table effect = (effect.sent ≡ false) × (effect.table ≡ table)

IsDone-Unsent :
    (rs : Readings) (seen : Option ℕ) (q : MutationRequest) (a : Authority) (present : Bool)
    (table : List Row)
    → IsDone table q
    → Unsent table (mutate_kubernetes rs seen q a present table)
unfolding mutate_kubernetes
IsDone-Unsent rs seen q a present table (r, e, d) =
    let P : Answer → Type 0 = λ t. Unsent table (after_begin rs seen q a present t) in
    by_begin P rs.lease table q a rs.attempt rs.started_at rs.started_at r e (refl, refl)
      (λ f. (refl, refl)) (λ f. (refl, refl))
      (subst (λ state. P (begin_from state table r q a rs.attempt rs.started_at)) (sym d)
        (refl, refl))

complete_in_flight :
    (m : Mutation)
    → m.state ≡ in_flight
    → complete m m.generation outcome_uncertain
      ≡ (record { state = observation_required; generation = m.generation }, none)
unfolding complete
complete_in_flight m e = ground (arith, e)

-- A command whose earlier attempt is still in flight or uncertain is not sent, as long as the jobs
-- were not observed completely after it started.
pub mutate_kubernetes-blind :
    (rs : Readings) (seen : Option ℕ) (q : MutationRequest) (a : Authority) (present : Bool)
    (table : List Row) (r : MutationRecord)
    → read_mutation table q ≡ ok r
    → (r.mutation.state ≡ in_flight) ⊎ (r.mutation.state ≡ observation_required)
    → is_seen_after seen r.started_at ≡ false
    → (mutate_kubernetes rs seen q a present table).sent ≡ false
unfolding mutate_kubernetes
mutate_kubernetes-blind rs seen q a present table r e pending late =
    let P : Answer → Type 0 = λ t. (after_begin rs seen q a present t).sent ≡ false in
    by_begin P rs.lease table q a rs.attempt rs.started_at rs.started_at r e refl (λ f. refl)
      (λ f. refl)
      (elim pending [
        | inl busy ↦
            subst (λ state. P (begin_from state table r q a rs.attempt rs.started_at)) (sym busy)
              (rw (complete_in_flight r.mutation busy, late) refl)
        | inr waiting ↦
            subst (λ state. P (begin_from state table r q a rs.attempt rs.started_at)) (sym waiting)
              (rw late refl)
      ])

-- The command was sent, and all went well.
abbrev pub Sent : List Row → Effect → Type 0
Sent after effect = effect ≡ record { table = after; sent = true; error = none }

module _ (rs : Readings) (q : MutationRequest) (after : List Row) where
  not_sent :
      {A : Type 0} (table : List Row) (e : Option CommandError) → Sent after (unsent table e) → A
  not_sent table e h = let no : false ≡ true = ap (λ (t : Effect). t.sent) h in cc

  -- The reply was no error, and the completion was written.
  replied :
      (reply : Option KubeError) (answer : Answer)
      → Sent after (sent_command reply answer)
      → (reply ≡ none) × ((r : MutationRecord) × (answer ≡ (after, (r, none))))
  replied none (table, (r, none)) h = (refl, (r, ap (λ (t : Effect). (t.table, (r, none))) h))
  replied (some e) (table, (r, none)) h = elim (Bool-cases e.is_ambiguous) [
    | inl b ↦
        let no : reply_error (some e) ≡ none = ap (λ (t : Effect). t.error) h in ground (arith, b)
    | inr b ↦
        let no : reply_error (some e) ≡ none = ap (λ (t : Effect). t.error) h in ground (arith, b)
  ]
  replied reply (table, (r, some e)) h =
      let no : some (not_completed reply e) ≡ none = ap (λ (t : Effect). t.error) h in cc

  licensed-IsDone :
      (table : List Row) (r : MutationRecord) (fence : Option Failure)
      → Sent after (licensed rs q table r fence)
      → IsDone after q
  licensed-IsDone table r (some f) h = not_sent _ _ h
  licensed-IsDone table r none h = of_reply rs.reply (replied rs.reply _ h)
    where
      of_reply :
          (reply : Option KubeError)
          → (reply ≡ none)
            × ((s : MutationRecord) × (complete_mutation table q r.mutation.generation
                    (outcome_of reply)
                    (class_of reply)
                    rs.completed_at
                  ≡ (after, (s, none))))
          → IsDone after q
      of_reply none (e, (s, c)) =
          complete-IsDone table q r.mutation.generation (codes "") rs.completed_at after s c
      of_reply (some k) (e, (s, c)) = cc

  begun_again-IsDone : (answer : Answer) → Sent after (begun_again rs q answer) → IsDone after q
  begun_again-IsDone (table, (r, none)) h = licensed-IsDone table r rs.revalidated h
  begun_again-IsDone (table, (r, some e)) h = not_sent _ _ h

  observed_effect-IsDone :
      (a : Authority) (present : Bool) (answer : Answer)
      → Sent after (observed_effect rs q a present answer)
      → IsDone after q
  observed_effect-IsDone a present (table, (r, some e)) h = not_sent _ _ h
  observed_effect-IsDone a true (table, (r, none)) h = not_sent _ _ h
  observed_effect-IsDone a false (table, (r, none)) h =
      begun_again-IsDone
        (begin_mutation rs.again_lease table q a rs.again_attempt rs.again_at rs.again_at) h

  resolved-IsDone :
      (a : Authority) (present : Bool) (table : List Row) (b : Bool)
      → Sent after (resolved rs q a present table b)
      → IsDone after q
  resolved-IsDone a present table false h = not_sent _ _ h
  resolved-IsDone a present table true h =
      observed_effect-IsDone a present
        (observe_mutation rs.observed_lease table q a (observation_of present) rs.observed_at
          rs.observed_at)
        h

  after_begin-IsDone :
      (seen : Option ℕ) (a : Authority) (present : Bool) (answer : Answer)
      → Sent after (after_begin rs seen q a present answer)
      → IsDone after q
  after_begin-IsDone seen a present (table, (r, none)) h = licensed-IsDone table r rs.revalidated h
  after_begin-IsDone seen a present (table, (r, some (rejected observation_needed))) h =
      resolved-IsDone a present table (is_seen_after seen r.started_at) h
  after_begin-IsDone seen a present (table, (r, some e)) h = not_sent _ _ h

-- A command that was sent with success is never sent again, whoever calls and whatever the calls
-- read, and the table stays.
pub mutate_kubernetes_once :
    (rs later : Readings) (seen seen_later : Option ℕ) (q : MutationRequest) (a b : Authority)
    (present present_later : Bool) (table after : List Row)
    → Sent after (mutate_kubernetes rs seen q a present table)
    → Unsent after (mutate_kubernetes later seen_later q b present_later after)
unfolding mutate_kubernetes
mutate_kubernetes_once rs later seen seen_later q a b present present_later table after e =
    IsDone-Unsent later seen_later q b present_later after (
      after_begin-IsDone rs q after seen a present
        (begin_mutation rs.lease table q a rs.attempt rs.started_at rs.started_at) e)
