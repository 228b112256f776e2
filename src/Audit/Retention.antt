-- ===== src/Audit/Retention.antt =====
-- internal/domain/audit/retention.go: whether an audit record may be deleted. An instant is the number
-- of nanoseconds since the zero Time, which Round(0) and UTC leave as it is.
use kube_queue.Common.{
  ℕ, ◌+◌, ◌*◌, ◌≤◌, ◌<◌, ◌≡◌, ◌⊎◌, ◌↔◌, refl, subst, inl, inr, Bool-cases, ok-injective, negsuc,
  Bool, true, false, ◌&&◌, ◌||◌, ltb, ◌==◌, if◌then◌else◌, ℤ, pos, ltb_ℤ, eq_ℤ, add_duration,
  Result, ok, err, arith,
}

-- 24 hours and ten years of 365 days, in nanoseconds.
abbrev pub minimum_retention : ℤ
minimum_retention = pos (24 * 3600 * 1000000000)

abbrev pub maximum_retention : ℤ
maximum_retention = pos (10 * 365 * 24 * 3600 * 1000000000)

pub record RetentionPolicy : Type 0 where
  pub period : ℤ

pub record LegalHold : Type 0 where
  pub enabled : Bool
  pub indefinite : Bool
  pub until : ℕ

-- The validation errors of this file, by field.
pub data RetentionError : Type 0 where
  invalid_period until_required policy_required : RetentionError
  occurred_at_required evaluated_at_required invalid_evaluated_at : RetentionError

pub data RetentionDecision : Type 0 where
  retain_for_policy retain_for_legal_hold eligible_for_delete : RetentionDecision

-- NewRetentionPolicy
unfoldable pub new_retention_policy : ℤ → Result RetentionError RetentionPolicy
new_retention_policy period =
    if ltb_ℤ period minimum_retention || ltb_ℤ maximum_retention period
    then err invalid_period
    else ok (record { period = period })

-- NoLegalHold, NewIndefiniteLegalHold and NewLegalHoldUntil.
abbrev pub no_legal_hold : LegalHold
no_legal_hold = record { enabled = false; indefinite = false; until = 0 }

abbrev pub new_indefinite_legal_hold : LegalHold
new_indefinite_legal_hold = record { enabled = true; indefinite = true; until = 0 }

abbrev pub new_legal_hold_until : ℕ → Result RetentionError LegalHold
new_legal_hold_until until =
    if until == 0
    then err until_required
    else ok (record { enabled = true; indefinite = false; until = until })

-- LegalHold.activeAt
abbrev pub active_at : LegalHold → ℕ → Bool
active_at hold now = hold.enabled && (hold.indefinite || ltb now hold.until)

-- DecideRetention
unfoldable pub decide_retention :
    RetentionPolicy → ℕ → ℕ → LegalHold → Result RetentionError RetentionDecision
decide_retention policy occurred evaluated hold =
    if eq_ℤ policy.period (pos 0)
    then err policy_required
    else if occurred == 0
    then err occurred_at_required
    else if evaluated == 0
    then err evaluated_at_required
    else if ltb evaluated occurred
    then err invalid_evaluated_at
    else if active_at hold evaluated
    then ok retain_for_legal_hold
    else if ltb evaluated (add_duration occurred policy.period)
    then ok retain_for_policy
    else ok eligible_for_delete

-- No legal hold covers an instant: it is not enabled, or it has an end, which is not after that instant.
abbrev pub IsUnheld : LegalHold → ℕ → Type 0
IsUnheld hold now = (hold.enabled ≡ false) ⊎ ((hold.indefinite ≡ false) × (hold.until ≤ now))

-- A period between a day and 3,650 days, which an instant lies after the record, with no hold on it.
abbrev pub IsKept : ℤ → RetentionPolicy → ℕ → ℕ → LegalHold → Type 0
IsKept period policy occurred evaluated hold =
    (p : ℕ) × (period ≡ pos p)
    × (policy.period ≡ pos p)
    × (86400000000000 ≤ p)
    × (p ≤ 315360000000000000)
    × ((decide_retention policy occurred evaluated hold ≡ ok eligible_for_delete)
        ↔ ((0 < occurred) × (occurred + p ≤ evaluated) × IsUnheld hold evaluated))

period_bounds :
    (p : ℕ)
    → ltb_ℤ (pos p) minimum_retention || ltb_ℤ maximum_retention (pos p) ≡ false
    → (86400000000000 ≤ p) × (p ≤ 315360000000000000)
period_bounds p e = ground (arith, e)

eligible-IsUnheld :
    (p occurred evaluated : ℕ) (hold : LegalHold)
    → decide_retention (record { period = pos p }) occurred evaluated hold ≡ ok eligible_for_delete
    → (0 < occurred) × (occurred + p ≤ evaluated) × IsUnheld hold evaluated
unfolding decide_retention
eligible-IsUnheld p occurred evaluated hold e = (
  ground (arith, e),
  ground (arith, e),
  elim (Bool-cases hold.enabled) [
    | inl f ↦ inr (ground (arith, e, f), ground (arith, e, f))
    | inr f ↦ inl f
  ],
)

unheld-inactive : (hold : LegalHold) (now : ℕ) → IsUnheld hold now → active_at hold now ≡ false
unheld-inactive hold now (inl f) = ground (arith, f)
unheld-inactive hold now (inr (f, l)) = ground (arith, f, l)

IsUnheld-eligible :
    (p occurred evaluated : ℕ) (hold : LegalHold)
    → 86400000000000 ≤ p
    → (0 < occurred) × (occurred + p ≤ evaluated) × IsUnheld hold evaluated
    → decide_retention (record { period = pos p }) occurred evaluated hold ≡ ok eligible_for_delete
unfolding decide_retention
IsUnheld-eligible p occurred evaluated hold b (o, l, h) =
    ground (arith, b, o, l, unheld-inactive hold evaluated h)

negative : (p : ℕ) (policy : RetentionPolicy) → ¬ (new_retention_policy (negsuc p) ≡ ok policy)
unfolding new_retention_policy
negative p policy n = ground (arith, n)

-- A policy that NewRetentionPolicy accepts has a period of one day at least and of 3,650 days at most.
-- Under it a record may be deleted exactly when its time is set, the whole period has passed since
-- then, and no enabled legal hold is indefinite or ends later.
pub decide_retention-IsKept :
    (period : ℤ) (policy : RetentionPolicy) (occurred evaluated : ℕ) (hold : LegalHold)
    → new_retention_policy period ≡ ok policy
    → IsKept period policy occurred evaluated hold
unfolding new_retention_policy
decide_retention-IsKept (pos p) policy occurred evaluated hold n =
    elim (Bool-cases (ltb_ℤ (pos p) minimum_retention || ltb_ℤ maximum_retention (pos p))) [
      | inl f ↦ cc (rw f at n)
      | inr f ↦
          let same : record { period = pos p } ≡ policy =
            ok-injective (rw (new_retention_policy, f) at n) in
          let (least, most) = period_bounds p f in
          subst (λ q. IsKept (pos p) q occurred evaluated hold) same
            (
              p,
              refl,
              refl,
              least,
              most,
              (
                eligible-IsUnheld p occurred evaluated hold,
                IsUnheld-eligible p occurred evaluated hold least,
              ),
            )
    ]
decide_retention-IsKept (negsuc p) policy occurred evaluated hold n = absurd (negative p policy n)

-- A record that may be deleted may be deleted at any later instant, under the same policy and hold.
pub decide_retention_later :
    (policy : RetentionPolicy) (occurred evaluated later : ℕ) (hold : LegalHold)
    → evaluated ≤ later
    → decide_retention policy occurred evaluated hold ≡ ok eligible_for_delete
    → decide_retention policy occurred later hold ≡ ok eligible_for_delete
unfolding decide_retention
decide_retention_later policy occurred evaluated later hold l d = ground arith
