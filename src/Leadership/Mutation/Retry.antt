-- ===== src/Leadership/Mutation/Retry.antt =====
-- What the mutation state machine guarantees over every sequence of calls: how often a command can
-- be sent, and when it may be sent again.
use kube_queue.Common.{ℕ, ◌+◌, ◌≤◌, ◌≡◌, refl, Option, none, some, List, [], ◌∷◌, arith, All}
use kube_queue.Leadership.Mutation.{
  Mutation, MutationState, MutationError, zero_state, ready, observation_required, succeeded,
  outcome_failed, effect_absent, Call, begins, completes, observes, step, run,
}

-- One, for an accepted call.
abbrev accepted : Option MutationError → ℕ
accepted none = 1
accepted (some _) = 0

-- The commands sent: accepted calls of Begin.
abbrev sends : Call → ℕ → ℕ
sends (begins _) n = n
sends _ _ = 0

-- The licences to send again: accepted reports of failure or of a missing effect.
abbrev licences : Call → ℕ → ℕ
licences (completes _ outcome_failed) n = n
licences (observes _ effect_absent) n = n
licences _ _ = 0

unfoldable pub sent : Mutation → List Call → ℕ
sent m [] = 0
sent m (c ∷ cs) = sends c (accepted (step m c).1) + sent (step m c).0 cs

unfoldable pub licensed : Mutation → List Call → ℕ
licensed m [] = 0
licensed m (c ∷ cs) = licences c (accepted (step m c).1) + licensed (step m c).0 cs

-- The command that may still be sent without a licence.
abbrev pub credit : MutationState → ℕ
credit zero_state = 1
credit ready = 1
credit _ = 0

sent-step :
    (m : Mutation) (c : Call)
    → sends c (accepted (step m c).1) + credit (step m c).0.state
      ≤ licences c (accepted (step m c).1) + credit m.state
unfolding step
sent-step m (begins a) = ground arith
sent-step m (completes g o) = ground arith
sent-step m (observes a o) = ground arith

-- Over any sequence of calls the commands sent are at most one, if the mutation was ready, plus one
-- for each accepted report that a command failed or that its effect is absent.
pub sent-le-licensed : (m : Mutation) (cs : List Call) → sent m cs ≤ credit m.state + licensed m cs
unfolding sent licensed
sent-le-licensed m [] = omega arith
sent-le-licensed m (c ∷ cs) = omega (arith, sent-step m c, sent-le-licensed (step m c).0 cs)

-- A call that is not an observation.
abbrev pub IsBlind : Call → Type 0
IsBlind (observes _ _) = ⊥
IsBlind _ = Unit {0}

step_uncertain :
    (m : Mutation) (c : Call) → m.state ≡ observation_required → IsBlind c → (step m c).0 ≡ m
unfolding step
step_uncertain m (begins a) h b = ground arith
step_uncertain m (completes g o) h b = ground arith
step_uncertain m (observes a o) h b = absurd b

blind_unsent :
    (m : Mutation) (c : Call)
    → m.state ≡ observation_required
    → IsBlind c
    → sends c (accepted (step m c).1) ≡ 0
unfolding step
blind_unsent m (begins a) h b = ground arith
blind_unsent m (completes g o) h b = refl
blind_unsent m (observes a o) h b = absurd b

-- An uncertain command stays uncertain, and is not sent, until Kubernetes is observed.
pub uncertain_sticky :
    (m : Mutation) (cs : List Call)
    → m.state ≡ observation_required
    → All IsBlind cs
    → (run m cs ≡ m) × (sent m cs ≡ 0)
unfolding run sent
uncertain_sticky m [] h b = (refl, refl)
uncertain_sticky m (c ∷ cs) h b =
    let same = step_uncertain m c h b.0 in
    let rest = uncertain_sticky m cs h b.1 in
    (rw same rest.0, rw same (omega (arith, rest.1, blind_unsent m c h b.0)))

step_succeeded : (m : Mutation) (c : Call) → m.state ≡ succeeded → (step m c).0 ≡ m
unfolding step
step_succeeded m (begins a) h = ground arith
step_succeeded m (completes g o) h = ground arith
step_succeeded m (observes a o) h = ground arith

succeeded_unsent :
    (m : Mutation) (c : Call) → m.state ≡ succeeded → sends c (accepted (step m c).1) ≡ 0
unfolding step
succeeded_unsent m (begins a) h = ground arith
succeeded_unsent m (completes g o) h = refl
succeeded_unsent m (observes a o) h = refl

-- Success is final: no call changes the mutation, so the command is never sent again.
pub succeeded_final :
    (m : Mutation) (cs : List Call) → m.state ≡ succeeded → (run m cs ≡ m) × (sent m cs ≡ 0)
unfolding run sent
succeeded_final m [] h = (refl, refl)
succeeded_final m (c ∷ cs) h =
    let same = step_succeeded m c h in
    let rest = succeeded_final m cs h in
    (rw same rest.0, rw same (omega (arith, rest.1, succeeded_unsent m c h)))

generation-step : (m : Mutation) (c : Call) → m.generation ≤ (step m c).0.generation
unfolding step
generation-step m (begins a) = ground arith
generation-step m (completes g o) = ground arith
generation-step m (observes a o) = ground arith

-- The fencing generation of a mutation never falls.
pub generation-run : (m : Mutation) (cs : List Call) → m.generation ≤ (run m cs).generation
unfolding run
generation-run m [] = omega arith
generation-run m (c ∷ cs) = omega (arith, generation-step m c, generation-run (step m c).0 cs)
