-- ===== src/Orchestration/Maps.antt =====
-- The maps and lists of packages/agent-orchestration/src/lib.rs under the operations of a round.
use mundusx.Prelude.{
  ◌≤◌, ◌<◌, ◌≡◌, refl, ◌⊎◌, inl, inr, String, List, [], ◌∷◌, true, false, arith, length, All,
  All-map, Bool-cases, is_some, str_eq, eq_iff, any,
}
use text.Mathlib.TextPositions.{eq_refl}
use mundusx.Prelude.Maps.{Map, get, remove, values, get-remove}
use mundusx.Orchestration.{AgentTask, remove_all}

pub str_eq-false_sym : (a b : String) → str_eq a b ≡ false → str_eq b a ≡ false
str_eq-false_sym a b h = ground (arith, eq_iff a b, eq_iff b a)

module _ {A : Type 0} where
  length-remove-le : (m : Map A) (k : String) → length (remove m k) ≤ length m
  unfolding remove
  length-remove-le [] k = omega arith
  length-remove-le ((j, a) ∷ m) k = ground (arith, length-remove-le m k)

  pub length-remove-lt :
      (m : Map A) (k : String) → is_some (get m k) ≡ true → length (remove m k) < length m
  unfolding remove get
  length-remove-lt [] k h = cc
  length-remove-lt ((j, a) ∷ m) k h = ground (arith, length-remove-le m k, length-remove-lt m k)

  pub All-remove :
      (P : String × A → Type 0) (m : Map A) (k : String)
      → All P m
      → All (λ e. P e × (str_eq e.0 k ≡ false)) (remove m k)
  unfolding remove
  All-remove P [] k a = tt
  All-remove P ((j, x) ∷ m) k a = elim (Bool-cases (str_eq j k)) [
    | inl hit ↦ rw hit (All-remove P m k a.1)
    | inr miss ↦ rw miss ((a.0, miss), All-remove P m k a.1)
  ]

  pub All-values :
      (P : A → Type 0) (m : Map A) → All (λ (e : String × A). P e.1) m → All P (values m)
  unfolding values
  All-values P [] a = tt
  All-values P (e ∷ m) a = (a.0, All-values P m a.1)

  -- Each entry's key is found.
  found_in :
      (m whole : Map A)
      → ((k : String) → is_some (get m k) ≡ true → is_some (get whole k) ≡ true)
      → All (λ (e : String × A). is_some (get whole e.0) ≡ true) m
  unfolding get
  found_in [] whole f = tt
  found_in ((j, a) ∷ m) whole f =
      (f j (rw eq_refl refl), found_in m whole (λ k h. f k (ground arith)))

  pub entries_found : (m : Map A) → All (λ (e : String × A). is_some (get m e.0) ≡ true) m
  entries_found m = found_in m m (λ k h. h)

pub length-remove_all-le :
    (pending : Map AgentTask) (ready : List AgentTask)
    → length (remove_all pending ready) ≤ length pending
unfolding remove_all
length-remove_all-le pending [] = omega arith
length-remove_all-le pending (t ∷ ready) =
    omega (arith, length-remove_all-le (remove pending t.id) ready, length-remove-le pending t.id)

-- What is left has none of the removed ids.
pub All-remove_all :
    (P : String × AgentTask → Type 0) (pending : Map AgentTask) (ready : List AgentTask)
    → All P pending
    → All (λ e. P e × All (λ t. str_eq e.0 t.id ≡ false) ready) (remove_all pending ready)
unfolding remove_all
All-remove_all P pending [] a = All-map _ _ pending (λ e p. (p, tt)) a
All-remove_all P pending (t ∷ ready) a =
    All-map _ _ _ (λ e p. (p.0.0, (p.0.1, p.1)))
      (All-remove_all (λ e. P e × (str_eq e.0 t.id ≡ false)) (remove pending t.id) ready
        (All-remove P pending t.id a))

-- A key is found after the removals, or it was one of the removed ids.
pub get-remove_all :
    (pending : Map AgentTask) (ready : List AgentTask) (k : String)
    → (any (λ t. str_eq t.id k) ready ≡ true) ⊎ (get (remove_all pending ready) k ≡ get pending k)
unfolding remove_all any
get-remove_all pending [] k = inr refl
get-remove_all pending (t ∷ ready) k = elim (Bool-cases (str_eq t.id k)) [
  | inl hit ↦ inl (rw hit refl)
  | inr miss ↦ elim (get-remove_all (remove pending t.id) ready k) [
    | inl later ↦ inl (ground arith)
    | inr same ↦ inr (ground (arith, get-remove pending t.id k))
  ]
]
