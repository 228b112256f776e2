-- ===== src/Common/Lists.antt =====
-- Lists measured by native numbers, and predicates over all elements.
use Prim.Native.Nat.{ℕ, zero, suc}
use mathlib.Core.List.{List, [], ◌∷◌}
use mathlib.Core.Option.{Option, none, some}

abbrev pub length {ℓ} : {A : Type ℓ} → List A → ℕ
length [] = 0
length (x ∷ xs) = suc (length xs)

-- Every element satisfies P, as a tuple of proofs.
abbrev pub All {ℓ κ} : {Item : Type ℓ} → (Item → Type κ) → List Item → Type κ
All P [] = Unit
All P (first ∷ others) = P first × All P others

-- The last element.
abbrev pub get_last? {ℓ} : {A : Type ℓ} → List A → Option A
get_last? [] = none
get_last? (x ∷ []) = some x
get_last? (x ∷ y ∷ ys) = get_last? (y ∷ ys)

abbrev pub take {ℓ} : {A : Type ℓ} → ℕ → List A → List A
take zero xs = []
take (suc n) [] = []
take (suc n) (x ∷ xs) = x ∷ take n xs

pub All-map {ℓ κ μ} :
    {Item : Type ℓ} {P : Item → Type κ} {Q : Item → Type μ} (items : List Item)
    → ((item : Item) → P item → Q item)
    → All P items
    → All Q items
All-map [] f p = tt
All-map (first ∷ others) f p = (f first p.0, All-map others f p.1)

pub All-both {ℓ κ μ} :
    {Item : Type ℓ} (P : Item → Type κ) (Q : Item → Type μ) (items : List Item)
    → All P items
    → All Q items
    → All (λ item. P item × Q item) items
All-both P Q [] p q = tt
All-both P Q (first ∷ others) p q = ((p.0, q.0), All-both P Q others p.1 q.1)
