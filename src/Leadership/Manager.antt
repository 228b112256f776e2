-- ===== src/Leadership/Manager.antt =====
-- internal/leadership/manager.go: a process that campaigns for the lease. What the lease store
-- answers and the readings of the clock are arguments; a call holds the mutex throughout its change.
pub mod Invariant
use kube_queue.Common.{
  ℕ, ◌+◌, ◌≤◌, ◌<◌, Bool, true, false, not, ◌&&◌, ◌||◌, ◌≡◌, ◌≢◌, refl, ◌⊎◌, inl, inr, ◌==◌,
  if◌then◌else◌, Text, text_eq_iff, Option, none, some, Result, ok, err, List, [], ◌∷◌, arith,
  is_empty, ltb,
}
use kube_queue.Leadership.Lease.{
  Error, lease_held, leadership_paused, Lease, active, Authority, authorize,
}
use kube_queue.Leadership.Session.{
  Session, IsConsistent, Status, active_status, lost, paused, new_session, new_session-IsConsistent,
  sync, sync-IsConsistent, validate,
}

pub data Role : Type 0 where
  leader follower paused_role : Role

pub record Snapshot : Type 0 where
  pub role : Role
  pub generation : ℕ
  pub expires_at : ℕ

-- The fields that change after NewManager.
pub record Manager : Type 0 where
  pub session : Option Session
  pub snapshot : Snapshot

-- An error of the store, or one of the package.
pub data Failure : Type 0 where
  store_failure : Text → Failure
  refused : Error → Failure

-- errors.Is(err, ErrLeaseHeld)
abbrev pub is_held : Failure → Bool
is_held (refused lease_held) = true
is_held _ = false

-- The state that NewManager returns.
unfoldable pub new_manager : Manager
new_manager = record {
  session = none;
  snapshot = record { role = paused_role; generation = 0; expires_at = 0 };
}

abbrev snapshot_of : Role → Lease → Snapshot
snapshot_of role lease = record {
  role = role;
  generation = lease.generation;
  expires_at = lease.expires_at;
}

-- `if m.session != nil { m.session.Sync(lease, now) }`
abbrev sync_session : Option Session → Lease → ℕ → Option Session
sync_session none lease now = none
sync_session (some s) lease now = some (sync s lease now)

-- The lease that pause observes: the session's own, with the zero expiry.
abbrev withdrawn : Option Session → Option Session → ℕ → Option Session
withdrawn none o now = o
withdrawn (some s) o now =
    sync_session o (record { holder = s.holder; generation = s.generation; expires_at = 0 }) now

unfoldable pub pause : Manager → ℕ → Manager
pause m now = record {
  session = withdrawn m.session m.session now;
  snapshot = record {
    role = paused_role;
    generation = m.snapshot.generation;
    expires_at = m.snapshot.expires_at;
  };
}

unfoldable pub observe_follower : Manager → Lease → ℕ → Manager
observe_follower m lease now = record {
  session = sync_session m.session lease now;
  snapshot = snapshot_of follower lease;
}

-- `m.session == nil || m.session.Generation() != lease.Generation`
abbrev needs_session : Option Session → Lease → Bool
needs_session none lease = true
needs_session (some s) lease = not (s.generation == lease.generation)

-- The new session of TryAcquire; the old one is told first, and stays if none can be made.
abbrev renewed : Manager → Lease → ℕ → Result Error Session → Manager × Option Failure
renewed m lease now (err e) = (
  record {
    session = sync_session m.session lease now;
    snapshot = record { role = paused_role; generation = 0; expires_at = 0 };
  },
  some (refused e),
)
renewed m lease now (ok s) =
    (record { session = some s; snapshot = snapshot_of leader lease }, none)

-- TryAcquire, given the answer of AcquireLeadership: a lease, and an error or none.
unfoldable pub try_acquire : Manager → Lease → Option Failure → ℕ → Manager × Option Failure
unfolding pause observe_follower
try_acquire m lease (some failure) now =
    ((if is_held failure then observe_follower m lease now else pause m now), some failure)
try_acquire m lease none now =
    if needs_session m.session lease then renewed m lease now (new_session lease now) else (
      record { session = sync_session m.session lease now; snapshot = snapshot_of leader lease },
      none,
    )

abbrev authorized : Lease → Session × Result Error Authority → Manager × Result Failure Authority
authorized lease (s, err e) =
    (record { session = some s; snapshot = snapshot_of paused_role lease }, err (refused e))
authorized lease (s, ok a) =
    (record { session = some s; snapshot = snapshot_of leader lease }, ok a)

abbrev authority_of : Option Session → Manager → Lease → ℕ → Manager × Result Failure Authority
authority_of none m lease now = (m, err (refused leadership_paused))
authority_of (some s) m lease now = authorized lease (validate s lease now)

-- Authority, given the answer of LeadershipLease.
unfoldable pub authority : Manager → Result Failure Lease → ℕ → Manager × Result Failure Authority
unfolding pause
authority m (err failure) now = (pause m now, err failure)
authority m (ok lease) now = authority_of m.session m lease now

abbrev revalidated : Manager → Lease → Option Error → ℕ → Manager × Option Failure
revalidated m lease none later = (m, none)
revalidated m lease (some e) later = (observe_follower m lease later, some (refused e))

-- Revalidate, given the answer of LeadershipLease and the two readings of the clock.
unfoldable pub revalidate :
    Manager → Authority → Result Failure Lease → ℕ → ℕ → Manager × Option Failure
unfolding pause observe_follower
revalidate m a (err failure) now later = (pause m now, some failure)
revalidate m a (ok lease) now later = revalidated m lease (authorize a lease now) later
