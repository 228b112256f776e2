-- ===== src/Common/Substrings.antt =====
-- Tests and cuts of strings, as the package strings has them. Letters are folded in ASCII only.
use Prim.Native.Nat.{ℕ, ◌+◌}
use mathlib.Core.Bool.{Bool, true, false, ◌&&◌, ◌||◌}
use mathlib.Core.List.{[], ◌∷◌, reverse, map}
use kube_queue.Common.Tests.{◌==◌, leb, if◌then◌else◌}
use kube_queue.Common.Strings.{Text}

-- strings.HasPrefix(s, prefix)
unfoldable pub has_prefix : Text → Text → Bool
has_prefix s [] = true
has_prefix [] (p ∷ ps) = false
has_prefix (c ∷ s) (p ∷ ps) = c == p && has_prefix s ps

-- strings.HasSuffix(s, suffix)
unfoldable pub has_suffix : Text → Text → Bool
unfolding has_prefix
has_suffix s suffix = has_prefix (reverse s) (reverse suffix)

-- strings.Contains(s, sub)
unfoldable pub contains_text : Text → Text → Bool
unfolding has_prefix
contains_text [] sub = has_prefix [] sub
contains_text (c ∷ s) sub = has_prefix (c ∷ s) sub || contains_text s sub

-- Whether a code point is one of a text.
unfoldable pub is_one_of : ℕ → Text → Bool
is_one_of c [] = false
is_one_of c (d ∷ chars) = c == d || is_one_of c chars

-- strings.ContainsAny(s, chars)
unfoldable pub contains_any : Text → Text → Bool
unfolding is_one_of
contains_any [] chars = false
contains_any (c ∷ s) chars = is_one_of c chars || contains_any s chars

-- strings.TrimSuffix(s, suffix), for a suffix of one code point.
abbrev pub trim_last : ℕ → Text → Text
trim_last c [] = []
trim_last c (d ∷ s) = if d == c then s else d ∷ s

unfoldable pub trim_suffix : Text → ℕ → Text
trim_suffix s c = reverse (trim_last c (reverse s))

-- strings.ToLower
unfoldable pub to_lower : Text → Text
to_lower = map (λ c. if leb b'A' c && leb c b'Z' then c + 32 else c)

-- strings.SplitN(s, sep, 2)[0], for a separator of one code point.
unfoldable pub before : Text → ℕ → Text
before [] sep = []
before (c ∷ s) sep = let rest = before s sep in if c == sep then [] else c ∷ rest
