-- ===== src/Quota/Policy/Refines/Sets.antt =====
-- The subset tests are orders, and the maps of roles obey the laws of a map.
use kube_queue.Common.{
  is_listed, ◌≡◌, refl, ap, true, if◌then◌else◌, Text, text_eq, text_eq_iff, text_eq_refl, none,
  some, List, [], ◌∷◌, arith,
}
use kube_queue.Quota.Rules.{LifecycleAction, unknown_action, RoleActions}
use kube_queue.Quota.Policy.Normalize.{action_eq, has_action, assign, actions_of}
use kube_queue.Quota.Policy.Narrowing.{is_action_subset, is_string_subset, assign_all, over}

pub is_listed_of_subset :
    (s : Text) (xs ys : List Text)
    → is_listed s xs ≡ true
    → is_string_subset xs ys ≡ true
    → is_listed s ys ≡ true
unfolding is_listed is_string_subset
is_listed_of_subset s [] ys h k = cc
is_listed_of_subset s (x ∷ xs) ys h k = ground (arith, text_eq_iff s x, is_listed_of_subset s xs ys)

pub is_string_subset_trans :
    (xs ys zs : List Text)
    → is_string_subset xs ys ≡ true
    → is_string_subset ys zs ≡ true
    → is_string_subset xs zs ≡ true
unfolding is_string_subset
is_string_subset_trans [] ys zs h k = refl
is_string_subset_trans (x ∷ xs) ys zs h k =
    ground (arith, is_listed_of_subset x ys zs, is_string_subset_trans xs ys zs)

is_string_subset_weaken :
    (x : Text) (xs ys : List Text)
    → is_string_subset xs ys ≡ true
    → is_string_subset xs (x ∷ ys) ≡ true
unfolding is_string_subset is_listed
is_string_subset_weaken x [] ys h = refl
is_string_subset_weaken x (y ∷ xs) ys h = ground (arith, is_string_subset_weaken x xs ys)

pub is_string_subset_refl : (xs : List Text) → is_string_subset xs xs ≡ true
unfolding is_string_subset is_listed
is_string_subset_refl [] = refl
is_string_subset_refl (x ∷ xs) =
    ground (arith, text_eq_refl x, is_string_subset_weaken x xs xs, is_string_subset_refl xs)

action_eq_refl : (a : LifecycleAction) → action_eq a a ≡ true
unfolding action_eq
action_eq_refl (unknown_action s) = text_eq_refl s
action_eq_refl _ = refl

action_eq→eq : (a b : LifecycleAction) → action_eq a b ≡ true → a ≡ b
unfolding action_eq
action_eq→eq (unknown_action s) (unknown_action t) h = ap unknown_action ((text_eq_iff s t).0 h)
action_eq→eq a b h = ground arith

has_action_of_subset :
    (a : LifecycleAction) (xs ys : List LifecycleAction)
    → has_action a xs ≡ true
    → is_action_subset xs ys ≡ true
    → has_action a ys ≡ true
unfolding has_action is_action_subset
has_action_of_subset a [] ys h k = cc
has_action_of_subset a (x ∷ xs) ys h k =
    ground (arith, action_eq→eq a x, has_action_of_subset a xs ys)

pub is_action_subset_trans :
    (xs ys zs : List LifecycleAction)
    → is_action_subset xs ys ≡ true
    → is_action_subset ys zs ≡ true
    → is_action_subset xs zs ≡ true
unfolding is_action_subset
is_action_subset_trans [] ys zs h k = refl
is_action_subset_trans (x ∷ xs) ys zs h k =
    ground (arith, has_action_of_subset x ys zs, is_action_subset_trans xs ys zs)

is_action_subset_weaken :
    (x : LifecycleAction) (xs ys : List LifecycleAction)
    → is_action_subset xs ys ≡ true
    → is_action_subset xs (x ∷ ys) ≡ true
unfolding is_action_subset has_action
is_action_subset_weaken x [] ys h = refl
is_action_subset_weaken x (y ∷ xs) ys h = ground (arith, is_action_subset_weaken x xs ys)

pub is_action_subset_refl : (xs : List LifecycleAction) → is_action_subset xs xs ≡ true
unfolding is_action_subset has_action
is_action_subset_refl [] = refl
is_action_subset_refl (x ∷ xs) =
    ground (arith, action_eq_refl x, is_action_subset_weaken x xs xs, is_action_subset_refl xs)

pub actions_of-assign :
    (role name : Text) (actions : List LifecycleAction) (m : RoleActions)
    → actions_of name (assign role actions m)
      ≡ (if text_eq role name then some actions else actions_of name m)
unfolding actions_of assign
actions_of-assign role name actions [] = refl
actions_of-assign role name actions ((r, old) ∷ m) = ground (
  arith,
  text_eq_iff r role,
  text_eq_iff r name,
  text_eq_iff role name,
  actions_of-assign role name actions m,
)

-- Each role is named once.
abbrev pub IsMap : RoleActions → Type 0
IsMap [] = Unit {0}
IsMap ((role, actions) ∷ m) = (actions_of role m ≡ none) × IsMap m

pub assign-IsMap :
    (role : Text) (actions : List LifecycleAction) (m : RoleActions)
    → IsMap m
    → IsMap (assign role actions m)
unfolding assign actions_of
assign-IsMap role actions [] h = (refl, tt)
assign-IsMap role actions ((r, old) ∷ m) h = ground (
  arith,
  actions_of-assign role r actions m,
  text_eq_iff r role,
  text_eq_iff role r,
  assign-IsMap role actions m h.1,
)

pub actions_of-assign_all :
    (name : Text) (m child : RoleActions)
    → IsMap child
    → actions_of name (assign_all m child) ≡ over (actions_of name m) (actions_of name child)
unfolding assign_all actions_of
actions_of-assign_all name m [] h = refl
actions_of-assign_all name m ((r, actions) ∷ child) h = ground (
  arith,
  text_eq_iff r name,
  actions_of-assign r name actions m,
  actions_of-assign_all name (assign r actions m) child h.1,
)
