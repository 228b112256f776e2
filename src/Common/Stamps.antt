-- ===== src/Common/Stamps.antt =====
-- Instants in text columns, as time.Format(time.RFC3339Nano) writes them in UTC: the order of the texts,
-- which is what a SQL statement compares. The text down to the second is as wide for every instant
-- before the year 10000, so its order is that of the seconds. The fraction has no trailing zeros,
-- so within one second the order is that of "Z", ".5Z" and ".51Z" as texts.
use Prim.Native.Nat.{ℕ, zero, suc, ◌+◌, ◌/◌, ◌%◌, ◌^◌}
use mathlib.Core.Path.{◌≡◌}
use mathlib.Core.Logic.{◌≢◌}
use native.Mathlib.Omega.{arith}
use mathlib.Core.Bool.{Bool, not, ◌&&◌, ◌||◌}
use mathlib.Core.List.{[], ◌∷◌}
use kube_queue.Common.Tests.{ltb, ◌==◌, if◌then◌else◌}
use kube_queue.Common.Strings.{Text, text_lt}

-- The digits of a fraction below 10 ^ width, without trailing zeros, and the `Z` after them.
unfoldable pub fraction_digits : ℕ → ℕ → Text
fraction_digits zero n = b'Z' ∷ []
fraction_digits (suc width) n =
    if n == 0 then b'Z' ∷ [] else (48 + n / 10 ^ width) ∷ fraction_digits width (n % 10 ^ width)

unfoldable pub fraction_text : ℕ → Text
fraction_text n = if n == 0 then b'Z' ∷ [] else b'.' ∷ fraction_digits 9 n

-- `a<b` on the texts of two instants.
unfoldable pub stamp_lt : ℕ → ℕ → Bool
stamp_lt a b =
    ltb (a / 10 ^ 9) (b / 10 ^ 9)
    || (a / 10 ^ 9 == b / 10 ^ 9)
      && text_lt (fraction_text (a % 10 ^ 9)) (fraction_text (b % 10 ^ 9))

-- `a<=b`
unfoldable pub stamp_le : ℕ → ℕ → Bool
stamp_le a b = not (stamp_lt b a)

-- In two different seconds the texts compare as the instants do.
pub stamp_lt-ltb : (a b : ℕ) → a / 10 ^ 9 ≢ b / 10 ^ 9 → stamp_lt a b ≡ ltb a b
unfolding stamp_lt
stamp_lt-ltb a b h = ground arith
