-- ===== src/Leadership/Lease/Fencing.antt =====
-- Fencing: what the lease rules guarantee over every history of Acquire and Renew on one durable
-- lease, where a failed call leaves the lease as it was.
use kube_queue.Common.{
  ℕ, ◌^◌, ◌≤◌, ◌<◌, ◌≡◌, ◌≢◌, refl, false, Text, text_eq_iff, is_empty, List, [], ◌∷◌, arith, ℤ,
  Result, ok, err, none, some, All,
}
use kube_queue.Leadership.Lease.{
  Error, stale_generation, Lease, acquire, renew, Authority, is_malformed, authorize,
}

-- A call on the durable lease.
pub data Call : Type 0 where
  acquires : Text → ℕ → ℤ → Call
  renews : Text → ℕ → ℕ → ℤ → Call

abbrev pub call : Lease → Call → Result Error Lease
call l (acquires holder now ttl) = acquire l holder now ttl
call l (renews holder generation now ttl) = renew l holder generation now ttl

abbrev pub persisted : Lease → Result Error Lease → Lease
persisted l (ok next) = next
persisted l (err _) = l

unfoldable pub step : Lease → Call → Lease
step l c = persisted l (call l c)

unfoldable pub run : Lease → List Call → Lease
run l [] = l
run l (c ∷ cs) = run (step l c) cs

-- How one lease may follow another: with the same generation only for the same holder, otherwise
-- with a larger one.
pub record Follows (l next : Lease) : Type 0 where
  pub in_range : next.generation < 2 ^ 64
  pub ordered : l.generation ≤ next.generation
  pub same_holder : next.generation ≡ l.generation → next.holder ≡ l.holder

step-Follows : (l : Lease) (c : Call) → l.generation < 2 ^ 64 → Follows l (step l c)
unfolding step acquire renew
step-Follows l (acquires h now ttl) v = ground (arith, text_eq_iff l.holder h)
step-Follows l (renews h g now ttl) v = ground (arith, text_eq_iff l.holder h)

-- Over every history the generation never falls and never wraps, and a generation belongs to one
-- holder only.
pub run-Follows : (l : Lease) (cs : List Call) → l.generation < 2 ^ 64 → Follows l (run l cs)
unfolding run
run-Follows l [] v = ground arith
run-Follows l (c ∷ cs) v =
    let first = step-Follows l c v in
    let rest = run-Follows (step l c) cs first.in_range in ground (arith, rest, first)

acquire-Follows :
    (l taken : Lease) (holder : Text) (now : ℕ) (ttl : ℤ)
    → l.generation < 2 ^ 64
    → acquire l holder now ttl ≡ ok taken
    → Follows l taken × (taken.holder ≡ holder)
unfolding acquire
acquire-Follows l taken h now ttl v e = ground (arith, text_eq_iff l.holder h)

-- Once another holder has acquired the lease, a token of the earlier generation is refused as stale,
-- at any time and after any further history.
pub authorize_stale :
    (a : Authority) (l taken : Lease) (before after : List Call) (rival : Text) (now later : ℕ)
    (ttl : ℤ)
    → l.generation < 2 ^ 64
    → is_malformed a ≡ false
    → a.generation ≡ l.generation
    → a.holder ≡ l.holder
    → rival ≢ a.holder
    → acquire (run l before) rival now ttl ≡ ok taken
    → authorize a (run taken after) later ≡ some stale_generation
unfolding authorize
authorize_stale a l taken before after rival now later ttl v w g h r e =
    let earlier = run-Follows l before v in
    let (taking, named) = acquire-Follows (run l before) taken rival now ttl earlier.in_range e in
    let later_on = run-Follows taken after taking.in_range in
    ground (arith, earlier, taking, named, later_on)

-- A token that is accepted names the holder and the generation of the durable lease, at an instant
-- before both the token and the lease run out.
pub authorize_sound :
    (a : Authority) (current : Lease) (now : ℕ)
    → authorize a current now ≡ none
    → (current.holder ≡ a.holder)
      × (current.generation ≡ a.generation)
      × (now < a.valid_until)
      × (now < current.expires_at)
unfolding authorize
authorize_sound a current now h = ground (arith, text_eq_iff a.holder current.holder)

-- A call made before the lease runs out by somebody other than its holder.
abbrev pub IsIntrusion : Lease → Call → Type 0
IsIntrusion l (acquires holder now ttl) = (holder ≢ l.holder) × (now < l.expires_at)
IsIntrusion l (renews holder generation now ttl) = (holder ≢ l.holder) × (now < l.expires_at)

step_intrusion :
    (l : Lease) (c : Call)
    → is_empty l.holder ≡ false
    → l.generation ≢ 0
    → IsIntrusion l c
    → step l c ≡ l
unfolding step acquire renew
step_intrusion l (acquires h now ttl) e g i = ground (arith, text_eq_iff l.holder h)
step_intrusion l (renews h gen now ttl) e g i = ground (arith, text_eq_iff l.holder h)

-- Exclusion: no sequence of calls by other holders changes a held lease before it runs out.
pub run_intrusions :
    (l : Lease) (cs : List Call)
    → is_empty l.holder ≡ false
    → l.generation ≢ 0
    → All (IsIntrusion l) cs
    → run l cs ≡ l
unfolding run
run_intrusions l [] e g i = refl
run_intrusions l (c ∷ cs) e g i = rw (step_intrusion l c e g i.0) (run_intrusions l cs e g i.1)
