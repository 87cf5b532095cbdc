-- ===== src/Prelude/Sets.antt =====
-- Sets of strings as lists: lists without repetitions, membership, and what holds of all members.
use Prim.Native.Nat.{◌≤◌}
use Prim.Native.String.{String}
use mathlib.Core.Path.{◌≡◌, refl, sym, subst}
use mathlib.Core.Logic.{inl, inr}
use mathlib.Core.Bool.{Bool, true, false, not}
use mathlib.Core.List.{List, [], ◌∷◌}
use native.Mathlib.Omega.{arith}
use text.Mathlib.TextEquality.{eq_iff}
use mundusx.Prelude.Tests.{Bool-cases}
use mundusx.Prelude.Text.{str_eq}
use mundusx.Prelude.Lists.{length, distinct, contains, any, all, All, All-map, In}

abbrev pub Unique : List String → Type 0
Unique [] = Unit
Unique (x ∷ xs) = (contains xs x ≡ false) × Unique xs

length-distinct-le : (xs : List String) → length (distinct xs) ≤ length xs
unfolding distinct
length-distinct-le [] = omega arith
length-distinct-le (x ∷ xs) = ground (arith, length-distinct-le xs)

pub length-distinct-Unique : (xs : List String) → length (distinct xs) ≡ length xs → Unique xs
unfolding distinct
length-distinct-Unique [] h = tt
length-distinct-Unique (x ∷ xs) h = elim (Bool-cases (contains xs x)) [
  | inl hit ↦ absurd (ground (arith, length-distinct-le xs))
  | inr miss ↦ (miss, length-distinct-Unique xs (ground arith))
]

pub contains-distinct : (xs : List String) (k : String) → contains (distinct xs) k ≡ contains xs k
unfolding contains distinct
contains-distinct [] k = refl
contains-distinct (x ∷ xs) k = ground (arith, contains-distinct xs k, eq_iff x k)

pub length-Unique : (xs : List String) → Unique xs → length (distinct xs) ≡ length xs
unfolding distinct
length-Unique [] u = refl
length-Unique (x ∷ xs) u = rw u.0 (omega (arith, length-Unique xs u.1))

pub any-not : (p : String → Bool) (xs : List String) → any (λ x. not (p x)) xs ≡ not (all p xs)
unfolding any all
any-not p [] = refl
any-not p (x ∷ xs) = ground (arith, any-not p xs)

pub all-map :
    {A : Type 0} (p q : A → Bool) (xs : List A)
    → ((x : A) → p x ≡ true → q x ≡ true)
    → all p xs ≡ true
    → all q xs ≡ true
unfolding all
all-map p q [] f h = refl
all-map p q (x ∷ xs) f h = ground (arith, f x, all-map p q xs f)

pub All-In : {A : Type 0} (P : A → Type 0) (xs : List A) (x : A) → All P xs → In x xs → P x
All-In P [] x a i = absurd i
All-In P (y ∷ xs) x a (inl p) = subst P (sym p) a.0
All-In P (y ∷ xs) x a (inr i) = All-In P xs x a.1 i

pub contained :
    (P : String → Type 0) (ids : List String) (id : String)
    → All P ids
    → contains ids id ≡ true
    → P id
unfolding contains
contained P [] id a h = cc
contained P (x ∷ ids) id a h = elim (Bool-cases (str_eq x id)) [
  | inl hit ↦ subst P ((eq_iff x id).0 hit) a.0
  | inr miss ↦ contained P ids id a.1 (ground arith)
]

pub All-within : {A : Type 0} (xs : List A) → All (λ x. In x xs) xs
All-within [] = tt
All-within (x ∷ xs) = (inl refl, All-map _ _ xs (λ y i. inr i) (All-within xs))
