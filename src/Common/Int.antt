-- ===== src/Common/Int.antt =====
-- Signed integers over the native numbers, as Go's int64, int and time.Duration use them.
use Prim.Native.Nat.{ℕ, suc, ◌+◌, ◌-◌, ◌*◌, ◌%◌, ◌^◌, ◌≤◌, ◌<◌}
use mathlib.Core.Path.{◌≡◌, refl}
use mathlib.Core.Bool.{Bool, true, not, ◌||◌}
use native.Mathlib.Omega.{arith}
use kube_queue.Common.Tests.{leb, ltb, ◌==◌, if◌then◌else◌}

-- `negsuc n` is -(n + 1).
pub data ℤ : Type 0 where
  pos : ℕ → ℤ
  negsuc : ℕ → ℤ

abbrev pub pos_part : ℤ → ℕ
pos_part (pos n) = n
pos_part (negsuc n) = 0

abbrev pub neg_part : ℤ → ℕ
neg_part (pos n) = 0
neg_part (negsuc n) = suc n

-- a - b, as an integer.
abbrev pub sub_ℕ : ℕ → ℕ → ℤ
sub_ℕ a b = if leb b a then pos (a - b) else negsuc (b - a - 1)

infixl 65 ◌+ℤ◌ ◌-ℤ◌
infix 50 ◌≤ℤ◌ ◌<ℤ◌
unfoldable pub ◌+ℤ◌ : ℤ → ℤ → ℤ
a +ℤ b = sub_ℕ (pos_part a + pos_part b) (neg_part a + neg_part b)

unfoldable pub ◌-ℤ◌ : ℤ → ℤ → ℤ
a -ℤ b = sub_ℕ (pos_part a + neg_part b) (neg_part a + pos_part b)

abbrev pub ◌≤ℤ◌ : ℤ → ℤ → Type 0
a ≤ℤ b = pos_part a + neg_part b ≤ pos_part b + neg_part a

abbrev pub ◌<ℤ◌ : ℤ → ℤ → Type 0
a <ℤ b = pos_part a + neg_part b < pos_part b + neg_part a

-- The tests `a <= b` and `a < b`.
abbrev pub leb_ℤ : ℤ → ℤ → Bool
leb_ℤ a b = leb (pos_part a + neg_part b) (pos_part b + neg_part a)

abbrev pub ltb_ℤ : ℤ → ℤ → Bool
ltb_ℤ a b = ltb (pos_part a + neg_part b) (pos_part b + neg_part a)

-- t.Add(d): an instant is its distance from the zero Time, which none precedes.
abbrev pub add_duration : ℕ → ℤ → ℕ
add_duration t (pos d) = t + d
add_duration t (negsuc d) = t - suc d

pub +ℤ_parts :
    (a b : ℤ)
    → pos_part (a +ℤ b) + neg_part a + neg_part b ≡ neg_part (a +ℤ b) + pos_part a + pos_part b
unfolding ◌+ℤ◌
+ℤ_parts a b = ground arith

pub -ℤ_parts :
    (a b : ℤ)
    → pos_part (a -ℤ b) + neg_part a + pos_part b ≡ neg_part (a -ℤ b) + pos_part a + neg_part b
unfolding ◌-ℤ◌
-ℤ_parts a b = ground arith

pub eq_of_parts : (a b : ℤ) → pos_part a + neg_part b ≡ pos_part b + neg_part a → a ≡ b
eq_of_parts a b h = ground arith

-- `a == b`.
abbrev pub eq_ℤ : ℤ → ℤ → Bool
eq_ℤ a b = pos_part a + neg_part b == pos_part b + neg_part a

-- An int64 as a uint64 and back, in two's complement.
abbrev pub to_uint64 : ℤ → ℕ
to_uint64 (pos n) = n % 2 ^ 64
to_uint64 (negsuc n) = 2 ^ 64 - 1 - n % 2 ^ 64

abbrev pub to_int64 : ℕ → ℤ
to_int64 n = let low = n % 2 ^ 64 in if ltb low (2 ^ 63) then pos low else negsuc (2 ^ 64 - 1 - low)

-- The operators of int64, which wrap around.
unfoldable pub add_int64 : ℤ → ℤ → ℤ
unfolding ◌+ℤ◌
add_int64 a b = to_int64 (to_uint64 (a +ℤ b))

unfoldable pub sub_int64 : ℤ → ℤ → ℤ
unfolding ◌-ℤ◌
sub_int64 a b = to_int64 (to_uint64 (a -ℤ b))

unfoldable pub mul_int64 : ℤ → ℤ → ℤ
mul_int64 a b = to_int64 (to_uint64 a * to_uint64 b)

abbrev pub IsInt64 : ℤ → Type 0
IsInt64 (pos n) = n < 2 ^ 63
IsInt64 (negsuc n) = n < 2 ^ 63

pub wrap_int64 : (z : ℤ) → IsInt64 z → to_int64 (to_uint64 z) ≡ z
wrap_int64 (pos n) h = ground arith
wrap_int64 (negsuc n) h = ground arith

pub mul_int64-exact :
    (a b : ℕ) → a < 2 ^ 63 → b < 2 ^ 63 → a * b < 2 ^ 63 → mul_int64 (pos a) (pos b) ≡ pos (a * b)
unfolding mul_int64
mul_int64-exact a b h k p =
    let low : (n : ℕ) → n < 2 ^ 63 → n % 2 ^ 64 ≡ n = λ n l. omega arith in
    let e : (a % 2 ^ 64) * (b % 2 ^ 64) ≡ a * b = rw (low a h, low b k) refl in rw e (ground arith)

-- Pieces of a lexicographic order: equal here, or decided here, downwards.
abbrev pub first_above : ℤ → ℤ → Bool → Bool
first_above l r rest = if not (eq_ℤ l r) then ltb_ℤ r l else rest

pub first_above_trans :
    (a b c : ℤ) (p q r : Bool)
    → first_above a b p ≡ true
    → first_above b c q ≡ true
    → (p ≡ true → q ≡ true → r ≡ true)
    → first_above a c r ≡ true
first_above_trans a b c p q r h k both = ground arith

pub add_int64-exact : (a b : ℤ) → IsInt64 (a +ℤ b) → add_int64 a b ≡ a +ℤ b
unfolding add_int64
add_int64-exact a b h = wrap_int64 (a +ℤ b) h

pub sub_int64-exact : (a b : ℤ) → IsInt64 (a -ℤ b) → sub_int64 a b ≡ a -ℤ b
unfolding sub_int64
sub_int64-exact a b h = wrap_int64 (a -ℤ b) h

pub IsInt64-of_parts : (z : ℤ) → pos_part z < 2 ^ 63 → neg_part z ≤ 2 ^ 63 → IsInt64 z
IsInt64-of_parts (pos n) h k = h
IsInt64-of_parts (negsuc n) h k = omega arith

pub IsInt64-parts : (z : ℤ) → IsInt64 z → (pos_part z < 2 ^ 63) × (neg_part z ≤ 2 ^ 63)
IsInt64-parts (pos n) h = ground arith
IsInt64-parts (negsuc n) h = ground arith

pub first_above_split :
    (a b c : ℤ) (p q r : Bool)
    → first_above a c r ≡ true
    → (r ≡ true → (p || q) ≡ true)
    → (first_above a b p || first_above b c q) ≡ true
first_above_split a b c p q r h split = ground arith
