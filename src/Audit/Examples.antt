-- ===== src/Audit/Examples.antt =====
-- A record of the first second, kept for a day, with a hold that ends at its second day.
use kube_queue.Common.{◌≡◌, refl, true, false, ok}
use kube_queue.Audit.Retention.{
  RetentionPolicy, LegalHold, minimum_retention, IsKept, new_retention_policy,
  decide_retention-IsKept,
}

abbrev one_day : RetentionPolicy
one_day = record { period = minimum_retention }

abbrev hold : LegalHold
hold = record { enabled = true; indefinite = false; until = 100000000000000 }

one_day_allowed : new_retention_policy minimum_retention ≡ ok one_day
unfolding new_retention_policy
one_day_allowed = refl

decide_retention-IsKept_example : IsKept minimum_retention one_day 1000000000 200000000000000 hold
decide_retention-IsKept_example =
    decide_retention-IsKept minimum_retention one_day 1000000000 200000000000000 hold
      one_day_allowed
