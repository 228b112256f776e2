-- ===== src/Scheduler/Fairness/Turn.antt =====
-- The order of the projects in the loop of Select: a rotation of the sorted list, found again from the
-- identifier of its first project.
use mathlib.Core.List.{append-nil, append_assoc}
use kube_queue.Common.{
  ℕ, zero, suc, ◌+◌, ◌≡◌, ◌∙◌, refl, sym, ap, true, false, ◌==◌, text_eq, text_eq_iff, text_lt,
  text_lt_irrefl, text_lt_trans, text_lt_total, length, take, List, [], ◌∷◌, ◌++◌, All, All-map,
  arith, ◌⊎◌, inl, inr, Bool-cases,
}
use kube_queue.Scheduler.Input.{Project}
use kube_queue.Scheduler.Select.{
  insert_project, sort_projects, position, start_index, drop, rotated,
}
use kube_queue.Scheduler.Select.Carried.{sort_projects-All, insert_project-All}

module _ {ℓ} {A : Type ℓ} where
  -- Two ways to split a list: one cut is not after the other.
  split_twice :
      (u v a b : List A)
      → u ++ v ≡ a ++ b
      → ((w : List A) × (u ≡ a ++ w) × (b ≡ w ++ v)) ⊎ ((w : List A) × (a ≡ u ++ w) × (v ≡ w ++ b))
  split_twice u v [] b h = inl (u, refl, sym h)
  split_twice [] v (x ∷ a) b h = inr (x ∷ a, refl, h)
  split_twice (y ∷ u) v (x ∷ a) b h = elim (split_twice u v a b cc) [
    | inl (w, e, f) ↦ inl (w, cc, f)
    | inr (w, e, f) ↦ inr (w, cc, f)
  ]

  -- A rotation of a list.
  abbrev pub IsTurn : List A → List A → Type ℓ
  IsTurn ordered turn = (u : List A) × (v : List A) × (ordered ≡ u ++ v) × (turn ≡ v ++ u)

  pub IsTurn-refl : (xs : List A) → IsTurn xs xs
  IsTurn-refl xs = ([], xs, refl, sym (append-nil xs))

  pub IsTurn-next : (ordered a b : List A) → IsTurn ordered (a ++ b) → IsTurn ordered (b ++ a)
  IsTurn-next ordered a b (u, v, o, t) = elim (split_twice v u a b (sym t)) [
    | inl (w, e, f) ↦ (
      u ++ a,
      w,
      o ∙ ap (λ r. u ++ r) e ∙ sym (append_assoc u a w),
      ap (λ r. r ++ a) f ∙ append_assoc w u a,
    )
    | inr (w, e, f) ↦ (
      w,
      b ++ v,
      o ∙ ap (λ r. r ++ v) f ∙ append_assoc w b v,
      ap (λ r. b ++ r) e ∙ sym (append_assoc b v w),
    )
  ]

  drop-length : (u v : List A) → drop (length u) (u ++ v) ≡ v
  drop-length [] v = refl
  drop-length (x ∷ u) v = drop-length u v

  take-length : (u v : List A) → take (length u) (u ++ v) ≡ u
  take-length [] v = refl
  take-length (x ∷ u) v = ap (λ r. x ∷ r) (take-length u v)

  pub rotated-length : (u v : List A) → rotated (length u) (u ++ v) ≡ v ++ u
  rotated-length u v = rw (drop-length u v, take-length u v) refl

  pub rotated-IsTurn : (n : ℕ) (xs : List A) → IsTurn xs (rotated n xs)
  rotated-IsTurn n xs = (take n xs, drop n xs, take-drop n xs, refl)
    where
      take-drop : (n : ℕ) (xs : List A) → xs ≡ take n xs ++ drop n xs
      take-drop zero xs = refl
      take-drop (suc n) [] = refl
      take-drop (suc n) (x ∷ xs) = ap (λ r. x ∷ r) (take-drop n xs)

  length-append : (u v : List A) → length (u ++ v) ≡ length u + length v
  length-append [] v = ground arith
  length-append (x ∷ u) v = ground (arith, length-append u v)

-- Each identifier is below the later ones.
abbrev pub IsAscending : List Project → Type 0
IsAscending [] = Unit
IsAscending (p ∷ ps) = All (λ q. text_lt p.id q.id ≡ true) ps × IsAscending ps

-- No identifier stands twice.
abbrev pub IsDistinct : List Project → Type 0
IsDistinct [] = Unit
IsDistinct (p ∷ ps) = All (λ q. text_eq q.id p.id ≡ false) ps × IsDistinct ps

insert_project-IsAscending :
    (p : Project) (ps : List Project)
    → All (λ q. text_eq q.id p.id ≡ false) ps
    → IsAscending ps
    → IsAscending (insert_project p ps)
unfolding insert_project
insert_project-IsAscending p [] d h = (tt, tt)
insert_project-IsAscending p (q ∷ ps) (d, ds) (h, hs) = elim (Bool-cases (text_lt q.id p.id)) [
  | inl e ↦ rw e (
    insert_project-All (λ r. text_lt q.id r.id ≡ true) p ps e h,
    insert_project-IsAscending p ps ds hs,
  )
  | inr e ↦
      let below : text_lt p.id q.id ≡ true = elim (Bool-cases (text_lt p.id q.id)) [
        | inl f ↦ f
        | inr f ↦ ground (arith, text_lt_total p.id q.id f e, text_eq_iff q.id p.id, d)
      ] in
      rw e ((below, All-map ps (λ r f. text_lt_trans p.id q.id r.id below f) h), (h, hs))
]

pub sort_projects-IsAscending : (ps : List Project) → IsDistinct ps → IsAscending (sort_projects ps)
unfolding sort_projects
sort_projects-IsAscending [] d = tt
sort_projects-IsAscending (p ∷ ps) (d, ds) =
    insert_project-IsAscending p (sort_projects ps)
      (sort_projects-All (λ q. text_eq q.id p.id ≡ false) ps d) (sort_projects-IsAscending ps ds)

position_split :
    (u v : List Project) (x : Project)
    → IsAscending (u ++ (x ∷ v))
    → position (u ++ (x ∷ v)) x.id ≡ length u
unfolding position
position_split [] v x h = rw (text_lt_irrefl x.id) refl
position_split (y ∷ u) v x (h, hs) =
    let below = mid_of u h in rw (below, position_split u v x hs) refl
  where
    mid_of :
        (u : List Project)
        → All (λ q. text_lt y.id q.id ≡ true) (u ++ (x ∷ v))
        → text_lt y.id x.id ≡ true
    mid_of [] h = h.0
    mid_of (z ∷ u) h = mid_of u h.1

start_at :
    (u v : List Project) (x : Project)
    → IsAscending (u ++ (x ∷ v))
    → rotated (start_index (u ++ (x ∷ v)) x.id) (u ++ (x ∷ v)) ≡ (x ∷ v) ++ u
unfolding start_index
start_at u v x h =
    let within : (length u == length (u ++ (x ∷ v))) ≡ false =
      rw (length-append u (x ∷ v)) (ground arith) in
    rw (position_split u v x h, within) (rotated-length u (x ∷ v))

-- The rotation that starts at a project is found from the project's identifier.
pub rotated-start_index :
    (ordered rest : List Project) (x : Project)
    → IsAscending ordered
    → IsTurn ordered (x ∷ rest)
    → rotated (start_index ordered x.id) ordered ≡ x ∷ rest
rotated-start_index ordered rest x asc (u, [], o, t) =
    let same : ordered ≡ x ∷ rest = o ∙ append-nil u ∙ sym t in
    rw same (start_at [] rest x (rw same at asc) ∙ append-nil (x ∷ rest))
rotated-start_index ordered rest x asc (u, z ∷ v, o, t) =
    let first : x ≡ z = cc t in
    let same : ordered ≡ u ++ (x ∷ v) = rw first o in
    rw same (start_at u v x (rw same at asc) ∙ cc t)

IsDistinct-of_ascending : (ps : List Project) → IsAscending ps → IsDistinct ps
IsDistinct-of_ascending [] h = tt
IsDistinct-of_ascending (p ∷ ps) (h, hs) = (
  All-map ps (λ q f. ground (arith, f, text_lt_irrefl p.id, text_eq_iff q.id p.id)) h,
  IsDistinct-of_ascending ps hs,
)

-- No project of one list has the identifier of one of the other.
abbrev IsApart : List Project → List Project → Type 0
IsApart ps qs = All (λ p. All (λ q. text_eq q.id p.id ≡ false) qs) ps

IsDistinct-parts :
    (u v : List Project) → IsDistinct (u ++ v) → IsDistinct u × IsDistinct v × IsApart v u
IsDistinct-parts [] v d = (tt, d, apart v)
  where
    apart : (v : List Project) → IsApart v []
    apart [] = tt
    apart (q ∷ v) = (tt, apart v)
IsDistinct-parts (p ∷ u) v (d, ds) =
    let (du, dv, a) = IsDistinct-parts u v ds in
    let (here, there) = All-cut (λ q. text_eq q.id p.id ≡ false) u v d in
    ((here, du), dv, facing v there a)
  where
    All-cut : (P : Project → Type 0) (u v : List Project) → All P (u ++ v) → All P u × All P v
    All-cut P [] v h = (tt, h)
    All-cut P (q ∷ u) v h = let (a, b) = All-cut P u v h.1 in ((h.0, a), b)

    facing :
        (v : List Project)
        → All (λ q. text_eq q.id p.id ≡ false) v
        → IsApart v u
        → IsApart v (p ∷ u)
    facing [] h a = tt
    facing (q ∷ v) (h, hs) (a, rest) =
        ((ground (arith, h, text_eq_iff q.id p.id, text_eq_iff p.id q.id), a), facing v hs rest)

IsDistinct-append :
    (u v : List Project) → IsDistinct u → IsDistinct v → IsApart u v → IsDistinct (u ++ v)
IsDistinct-append [] v du dv a = dv
IsDistinct-append (p ∷ u) v (d, du) dv (a, rest) =
    (All-parts u v d a, IsDistinct-append u v du dv rest)
  where
    All-parts :
        (u v : List Project)
        → All (λ q. text_eq q.id p.id ≡ false) u
        → All (λ q. text_eq q.id p.id ≡ false) v
        → All (λ q. text_eq q.id p.id ≡ false) (u ++ v)
    All-parts [] v h k = k
    All-parts (q ∷ u) v h k = (h.0, All-parts u v h.1 k)

pub IsTurn-IsDistinct :
    (ordered turn : List Project) → IsAscending ordered → IsTurn ordered turn → IsDistinct turn
IsTurn-IsDistinct ordered turn asc (u, v, o, t) =
    let (du, dv, a) = IsDistinct-parts u v (rw o at (IsDistinct-of_ascending ordered asc)) in
    rw t (IsDistinct-append v u dv du a)
