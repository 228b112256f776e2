-- ===== src/Leadership/Manager/Invariant.antt =====
-- What holds of a campaigning process between calls, and what its answers mean.
use kube_queue.Common.{
  ℕ, ◌≡◌, ◌≢◌, refl, Text, Option, none, some, Result, ok, err, List, [], ◌∷◌, arith, All, inl, inr,
  ◌∙◌, sym, Bool-cases, ◌==◌, ==_iff,
}
use kube_queue.Leadership.Lease.{Error, Lease, Authority, authorize}
use kube_queue.Leadership.Session.{
  Session, IsConsistent, new_session, sync, validate, new_session-IsConsistent, sync-IsConsistent,
  authorize-validate, sync_keeps, new_session_keeps, validate_keeps, validate-sync,
}
use kube_queue.Leadership.Manager.{
  Snapshot, Failure, leader, snapshot_of, sync_session, withdrawn, renewed, authorized, revalidated,
  Manager, new_manager, pause, observe_follower, try_acquire, authority, revalidate,
}

-- A call of the campaign loop or of the reconciler, with what it is told.
pub data Call : Type 0 where
  tries : Lease → Option Failure → ℕ → Call
  asks : Result Failure Lease → ℕ → Call
  revalidates : Authority → Result Failure Lease → ℕ → ℕ → Call
  pauses : ℕ → Call

unfoldable pub step : Manager → Call → Manager
step m (tries lease failure now) = (try_acquire m lease failure now).0
step m (asks answer now) = (authority m answer now).0
step m (revalidates a answer now later) = (revalidate m a answer now later).0
step m (pauses now) = pause m now

unfoldable pub run : Manager → List Call → Manager
run m [] = m
run m (c ∷ cs) = run (step m c) cs

-- The session, if there is one, is the process's own and keeps its Done channel right.
abbrev pub Owned : Text → Option Session → Type 0
Owned holder none = Unit
Owned holder (some s) = IsConsistent s × (s.holder ≡ holder)

abbrev pub Carries : Option Session → ℕ → Type 0
Carries none generation = ⊥
Carries (some s) generation = s.generation ≡ generation

pub record IsSound (holder : Text) (m : Manager) : Type 0 where
  pub owned : Owned holder m.session
  pub led : m.snapshot.role ≡ leader → Carries m.session m.snapshot.generation

-- The store grants a lease only to the holder that asks.
abbrev pub IsGranted : Text → Call → Type 0
IsGranted holder (tries lease none now) = lease.holder ≡ holder
IsGranted holder _ = Unit {0}

sync-Owned :
    (holder : Text) (s : Session) (lease : Lease) (now : ℕ)
    → Owned holder (some s)
    → Owned holder (some (sync s lease now))
sync-Owned holder s lease now v =
    ((sync-IsConsistent s lease now v.0).0, ground (arith, sync_keeps s lease now, v.1))

sync_session-Owned :
    (holder : Text) (o : Option Session) (lease : Lease) (now : ℕ)
    → Owned holder o
    → Owned holder (sync_session o lease now)
sync_session-Owned holder none lease now v = v
sync_session-Owned holder (some s) lease now v = sync-Owned holder s lease now v

withdrawn-Owned :
    (holder : Text) (o : Option Session) (now : ℕ)
    → Owned holder o
    → Owned holder (withdrawn o o now)
withdrawn-Owned holder none now v = v
withdrawn-Owned holder (some s) now v = sync-Owned holder s _ now v

pause-IsSound :
    (holder : Text) (m : Manager) (now : ℕ) → IsSound holder m → IsSound holder (pause m now)
unfolding pause
pause-IsSound holder m now v = record {
  owned = withdrawn-Owned holder m.session now v.owned;
  led = λ e. cc;
}

observe_follower-IsSound :
    (holder : Text) (m : Manager) (lease : Lease) (now : ℕ)
    → IsSound holder m
    → IsSound holder (observe_follower m lease now)
unfolding observe_follower
observe_follower-IsSound holder m lease now v = record {
  owned = sync_session-Owned holder m.session lease now v.owned;
  led = λ e. cc;
}

renewed-IsSound :
    (holder : Text) (m : Manager) (lease : Lease) (now : ℕ) (r : Result Error Session)
    → lease.holder ≡ holder
    → new_session lease now ≡ r
    → IsSound holder m
    → IsSound holder (renewed m lease now r).0
renewed-IsSound holder m lease now (err e) g h v = record {
  owned = sync_session-Owned holder m.session lease now v.owned;
  led = λ e. cc;
}
renewed-IsSound holder m lease now (ok s) g h v =
    let kept = new_session_keeps lease now h in
    record { owned = (new_session-IsConsistent lease now h, kept.0 ∙ g); led = λ _. kept.1 }

synced-IsSound :
    (holder : Text) (s : Session) (lease : Lease) (now : ℕ)
    → Owned holder (some s)
    → s.generation ≡ lease.generation
    → IsSound holder
        (record { session = some (sync s lease now); snapshot = snapshot_of leader lease })
synced-IsSound holder s lease now v e = record {
  owned = sync-Owned holder s lease now v;
  led = λ _. (sync_keeps s lease now).1 ∙ e;
}

abbrev manager : Option Session → Snapshot → Manager
manager o n = record { session = o; snapshot = n }

granted-IsSound :
    (holder : Text) (o : Option Session) (n : Snapshot) (lease : Lease) (now : ℕ)
    → lease.holder ≡ holder
    → IsSound holder (manager o n)
    → IsSound holder (try_acquire (manager o n) lease none now).0
unfolding try_acquire
granted-IsSound holder none n lease now g v =
    renewed-IsSound holder (manager none n) lease now _ g refl v
granted-IsSound holder (some s) n lease now g v =
    elim (Bool-cases (s.generation == lease.generation)) [
      | inl same ↦ rw same (synced-IsSound holder s lease now v.owned ((==_iff _ _).0 same))
      | inr differs ↦ rw differs (renewed-IsSound holder (manager (some s) n) lease now _ g refl v)
    ]

try_acquire-IsSound :
    (holder : Text) (m : Manager) (lease : Lease) (failure : Option Failure) (now : ℕ)
    → IsGranted holder (tries lease failure now)
    → IsSound holder m
    → IsSound holder (try_acquire m lease failure now).0
unfolding try_acquire
try_acquire-IsSound holder m lease none now g v =
    granted-IsSound holder m.session m.snapshot lease now g v
try_acquire-IsSound holder m lease (some failure) now g v =
    ground (arith, pause-IsSound holder m now v, observe_follower-IsSound holder m lease now v)

authorized-IsSound :
    (holder : Text) (s : Session) (lease : Lease) (now : ℕ) (r : Result Error Authority)
    → (validate s lease now).1 ≡ r
    → Owned holder (some s)
    → IsSound holder (authorized lease ((validate s lease now).0, r)).0
authorized-IsSound holder s lease now (err e) h v = record {
  owned = rw (validate-sync s lease now) (sync-Owned holder s lease now v);
  led = λ e. cc;
}
authorized-IsSound holder s lease now (ok a) h v =
    let kept = validate_keeps s lease now h in
    record {
      owned = rw (validate-sync s lease now) (sync-Owned holder s lease now v);
      led = λ _. rw (validate-sync s lease now) ((sync_keeps s lease now).1 ∙ sym kept.2);
    }

authority-IsSound :
    (holder : Text) (o : Option Session) (n : Snapshot) (answer : Result Failure Lease) (now : ℕ)
    → IsSound holder (manager o n)
    → IsSound holder (authority (manager o n) answer now).0
unfolding authority
authority-IsSound holder o n (err failure) now v = pause-IsSound holder (manager o n) now v
authority-IsSound holder none n (ok lease) now v = v
authority-IsSound holder (some s) n (ok lease) now v =
    authorized-IsSound holder s lease now _ refl v.owned

revalidated-IsSound :
    (holder : Text) (m : Manager) (lease : Lease) (e : Option Error) (later : ℕ)
    → IsSound holder m
    → IsSound holder (revalidated m lease e later).0
revalidated-IsSound holder m lease none later v = v
revalidated-IsSound holder m lease (some e) later v =
    observe_follower-IsSound holder m lease later v

step-IsSound :
    (holder : Text) (m : Manager) (c : Call)
    → IsGranted holder c
    → IsSound holder m
    → IsSound holder (step m c)
unfolding step revalidate
step-IsSound holder m (tries lease failure now) g v =
    try_acquire-IsSound holder m lease failure now g v
step-IsSound holder m (asks answer now) g v =
    authority-IsSound holder m.session m.snapshot answer now v
step-IsSound holder m (revalidates a (err failure) now later) g v = pause-IsSound holder m now v
step-IsSound holder m (revalidates a (ok lease) now later) g v =
    revalidated-IsSound holder m lease _ later v
step-IsSound holder m (pauses now) g v = pause-IsSound holder m now v

run_from-IsSound :
    (holder : Text) (m : Manager) (cs : List Call)
    → All (IsGranted holder) cs
    → IsSound holder m
    → IsSound holder (run m cs)
unfolding run
run_from-IsSound holder m [] g v = v
run_from-IsSound holder m (c ∷ cs) g v =
    run_from-IsSound holder (step m c) cs g.1 (step-IsSound holder m c g.0 v)

-- Over every history of calls and answers, if the store grants leases only to the holder that asks:
-- the process reports itself leader only while it has a session of its own for that generation, and
-- its Done channel is open exactly while that session is active.
pub run-IsSound :
    (holder : Text) (cs : List Call)
    → All (IsGranted holder) cs
    → IsSound holder (run new_manager cs)
unfolding new_manager
run-IsSound holder cs g =
    run_from-IsSound holder new_manager cs g (record { owned = tt; led = λ e. cc })

-- What an answer of Authority says of the manager after it.
abbrev pub Answered : Text → Lease → ℕ → Manager × Result Failure Authority → Type 0
Answered holder lease now (m, ok a) =
    (a.holder ≡ holder)
    × (a.generation ≡ lease.generation)
    × (authorize a lease now ≡ none)
    × (m.snapshot.role ≡ leader)
    × (m.snapshot.generation ≡ a.generation)
Answered holder lease now (m, err e) = m.snapshot.role ≢ leader

authorized-Answered :
    (holder : Text) (s : Session) (lease : Lease) (now : ℕ) (r : Result Error Authority)
    → (validate s lease now).1 ≡ r
    → Owned holder (some s)
    → Answered holder lease now (authorized lease ((validate s lease now).0, r))
authorized-Answered holder s lease now (err e) h v = λ e. cc
authorized-Answered holder s lease now (ok a) h v =
    let kept = validate_keeps s lease now h in
    (
      kept.0 ∙ v.1,
      kept.1 ∙ sym kept.2,
      authorize-validate s lease now now h kept.4,
      refl,
      kept.2 ∙ sym kept.1,
    )

Answered-at :
    (holder : Text) (o : Option Session) (n : Snapshot) (lease : Lease) (now : ℕ)
    → IsSound holder (manager o n)
    → Answered holder lease now (authority (manager o n) (ok lease) now)
unfolding authority
Answered-at holder none n lease now v = v.led
Answered-at holder (some s) n lease now v = authorized-Answered holder s lease now _ refl v.owned

-- A process gets a token only for its own holder and the observed generation, one that passes the
-- check at that instant, and then reports itself leader of it; refused, it does not report itself
-- leader.
pub authority-Answered :
    (holder : Text) (m : Manager) (lease : Lease) (now : ℕ)
    → IsSound holder m
    → Answered holder lease now (authority m (ok lease) now)
authority-Answered holder m lease now v = Answered-at holder m.session m.snapshot lease now v
