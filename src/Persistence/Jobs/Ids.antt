-- ===== src/Persistence/Jobs/Ids.antt =====
-- Lists of ids: that they are distinct, and when they have the same members.
use kube_queue.Common.{
  suc, ◌≡◌, ◌⊎◌, inl, inr, refl, sym, ap, subst, true, false, Bool-cases, if◌then◌else◌, Text,
  text_eq, text_eq_iff, is_listed, length, List, [], ◌∷◌, arith,
}

abbrev pub Among : Text → List Text → Type 0
Among id [] = ⊥
Among id (other ∷ ids) = (id ≡ other) ⊎ Among id ids

abbrev pub IsDistinct : List Text → Type 0
IsDistinct [] = Unit
IsDistinct (id ∷ ids) = (¬ Among id ids) × IsDistinct ids

pub is_listed-Among : (id : Text) (ids : List Text) → is_listed id ids ≡ true → Among id ids
unfolding is_listed
is_listed-Among id [] e = cc e
is_listed-Among id (other ∷ ids) e = elim (Bool-cases (text_eq id other)) [
  | inl f ↦ inl ((text_eq_iff id other).0 f)
  | inr f ↦ inr (is_listed-Among id ids (ground (arith, e, f)))
]

pub Among-is_listed : (id : Text) (ids : List Text) → Among id ids → is_listed id ids ≡ true
unfolding is_listed
Among-is_listed id [] m = elim m [ ]
Among-is_listed id (other ∷ ids) (inl e) = ground (arith, (text_eq_iff id other).1 e)
Among-is_listed id (other ∷ ids) (inr m) = ground (arith, Among-is_listed id ids m)

unlisted : (id : Text) (ids : List Text) → ¬ Among id ids → is_listed id ids ≡ false
unlisted id ids n = elim (Bool-cases (is_listed id ids)) [
  | inl f ↦ absurd (n (is_listed-Among id ids f))
  | inr f ↦ f
]

-- The list without the first place of an id.
unfoldable without : Text → List Text → List Text
without id [] = []
without id (other ∷ ids) = if text_eq id other then ids else other ∷ without id ids

length-without :
    (id : Text) (ids : List Text)
    → is_listed id ids ≡ true
    → suc (length (without id ids)) ≡ length ids
unfolding is_listed without
length-without id [] e = cc e
length-without id (other ∷ ids) e = elim (Bool-cases (text_eq id other)) [
  | inl f ↦ rw f refl
  | inr f ↦ rw f (ap suc (length-without id ids (ground (arith, e, f))))
]

is_listed-without :
    (name id : Text) (ids : List Text)
    → text_eq name id ≡ false
    → is_listed name ids ≡ true
    → is_listed name (without id ids) ≡ true
unfolding is_listed without
is_listed-without name id [] n e = cc e
is_listed-without name id (other ∷ ids) n e = elim (Bool-cases (text_eq id other)) [
  | inl f ↦
      let differs : text_eq name other ≡ false =
        subst (λ t. text_eq name t ≡ false) ((text_eq_iff id other).0 f) n in
      rw f (ground (arith, e, differs))
  | inr f ↦ elim (Bool-cases (text_eq name other)) [
    | inl g ↦ rw (f, g) refl
    | inr g ↦ rw (f, g) (is_listed-without name id ids n (ground (arith, e, g)))
  ]
]

abbrev pub AllListed : List Text → List Text → Type 0
AllListed [] ids = Unit
AllListed (name ∷ names) ids = (is_listed name ids ≡ true) × AllListed names ids

pub AllListed-is_listed :
    (id : Text) (names ids : List Text)
    → AllListed names ids
    → Among id names
    → is_listed id ids ≡ true
AllListed-is_listed id [] ids a m = elim m [ ]
AllListed-is_listed id (name ∷ names) ids (l, a) (inl e) =
    subst (λ t. is_listed t ids ≡ true) (sym e) l
AllListed-is_listed id (name ∷ names) ids (l, a) (inr m) = AllListed-is_listed id names ids a m

AllListed-without :
    (id : Text) (names ids : List Text)
    → is_listed id names ≡ false
    → AllListed names ids
    → AllListed names (without id ids)
unfolding is_listed
AllListed-without id [] ids n a = tt
AllListed-without id (name ∷ names) ids n (l, a) =
    let parts : (text_eq name id ≡ false) × (is_listed id names ≡ false) =
      ground (arith, n, text_eq_iff id name, text_eq_iff name id) in
    (is_listed-without name id ids parts.0 l, AllListed-without id names ids parts.1 a)

-- Where distinct ids are all in a list that is not longer, the list has no other members.
pub covered :
    (name : Text) (names ids : List Text)
    → IsDistinct names
    → AllListed names ids
    → length names ≡ length ids
    → is_listed name ids ≡ true
    → is_listed name names ≡ true
unfolding is_listed
covered name [] [] d a s m = m
covered name [] (id ∷ ids) d a s m = absurd (omega (arith, s))
covered name (id ∷ names) ids (n, d) (l, a) s m = elim (Bool-cases (text_eq name id)) [
  | inl f ↦ rw f refl
  | inr f ↦
      let short = length-without id ids l in
      rw f (
        covered name names (without id ids) d
          (AllListed-without id names ids (unlisted id names n) a) (omega (arith, s, short))
          (is_listed-without name id ids f m))
]
