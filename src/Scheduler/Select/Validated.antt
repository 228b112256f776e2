-- ===== src/Scheduler/Select/Validated.antt =====
-- What a validated list of projects has: positive weights, one for each identifier.
use mathlib.Core.List.{Memᴰ}
use mathlib.Core.List.Memᴰ.{head, tail}
use kube_queue.Common.{
  ℕ, ◌-◌, ◌≤◌, ◌≡◌, ◌≢◌, refl, true, false, List, [], ◌∷◌, All, All-map, arith, Text, text_eq,
  text_eq_iff, is_listed, ok,
}
use kube_queue.Scheduler.Input.{Project, validate_projects, exceeds_weight}
use kube_queue.Scheduler.Select.Carried.{All-of_member}

pub exceeds_weight_mono :
    (id : Text) (m n : ℕ) (projects : List Project)
    → m ≤ n
    → exceeds_weight (id, n) projects ≡ false
    → exceeds_weight (id, m) projects ≡ false
unfolding exceeds_weight
exceeds_weight_mono id m n [] l h = refl
exceeds_weight_mono id m n (p ∷ ps) l h = ground (arith, exceeds_weight_mono id m n ps l)

-- A project's own weight, less one, does not exceed what is given to its identifier.
pub exceeds_weight_own :
    (p : Project) (projects : List Project)
    → p.weight ≢ 0
    → All (λ q. text_eq q.id p.id ≡ true → q.weight ≡ p.weight) projects
    → exceeds_weight (p.id, p.weight - 1) projects ≡ false
unfolding exceeds_weight
exceeds_weight_own p [] w u = refl
exceeds_weight_own p (q ∷ ps) w (u, us) = ground (arith, exceeds_weight_own p ps w us)

pub validate_projects-parts :
    (seen : List Text) (p : Project) (ps : List Project)
    → validate_projects seen (p ∷ ps) ≡ ok tt
    → (p.weight ≢ 0) × (is_listed p.id seen ≡ false) × (validate_projects (p.id ∷ seen) ps ≡ ok tt)
unfolding validate_projects
validate_projects-parts seen p ps h = ground arith

pub validate_projects-fresh :
    (seen : List Text) (ps : List Project)
    → validate_projects seen ps ≡ ok tt
    → All (λ p. is_listed p.id seen ≡ false) ps
unfolding is_listed
validate_projects-fresh seen [] h = tt
validate_projects-fresh seen (p ∷ ps) h =
    let (_, here, rest) = validate_projects-parts seen p ps h in
    (here, All-map ps (λ q f. ground (arith, f)) (validate_projects-fresh (p.id ∷ seen) ps rest))

pub validate_projects-weights :
    (seen : List Text) (ps : List Project)
    → validate_projects seen ps ≡ ok tt
    → All (λ p. p.weight ≢ 0) ps
validate_projects-weights seen [] h = tt
validate_projects-weights seen (p ∷ ps) h =
    let (w, _, rest) = validate_projects-parts seen p ps h in
    (w, validate_projects-weights (p.id ∷ seen) ps rest)

-- Two validated projects of one identifier have one weight.
pub unique :
    (seen : List Text) (ps : List Project) (p q : Project)
    → validate_projects seen ps ≡ ok tt
    → Memᴰ p ps
    → Memᴰ q ps
    → text_eq q.id p.id ≡ true
    → q.weight ≡ p.weight
unfolding is_listed
unique seen [] p q h m n e = elim m [ ]
unique seen (r ∷ ps) p q h (head a) (head b) e = cc
unique seen (r ∷ ps) p q h (tail m) (tail n) e =
    unique (r.id ∷ seen) ps p q (validate_projects-parts seen r ps h).2 m n e
unique seen (r ∷ ps) p q h (head a) (tail n) e =
    let f =
      All-of_member (λ s. is_listed s.id (r.id ∷ seen) ≡ false) q ps n
        (validate_projects-fresh (r.id ∷ seen) ps (validate_projects-parts seen r ps h).2) in
    ground (arith, f, text_eq_iff q.id r.id, a)
unique seen (r ∷ ps) p q h (tail m) (head b) e =
    let f =
      All-of_member (λ s. is_listed s.id (r.id ∷ seen) ≡ false) p ps m
        (validate_projects-fresh (r.id ∷ seen) ps (validate_projects-parts seen r ps h).2) in
    ground (arith, f, text_eq_iff p.id r.id, text_eq_iff q.id p.id, b)
