-- ===== src/Prelude/Maps.antt =====
-- `BTreeMap<String, A>`: an association list that `insert` keeps in the order of its keys.
use Prim.Native.Nat.{Ordering}
use Prim.Native.String.{String, compare}
use mathlib.Core.Path.{◌≡◌, refl, sym, ◌∙◌}
use mathlib.Core.Logic.{inl, inr}
use mathlib.Core.Option.{Option, none, some}
use mathlib.Core.List.{List, [], ◌∷◌, map}
use native.Mathlib.Omega.{arith}
use text.Mathlib.TextEquality.{eq_iff, path_by_compare}
use text.Mathlib.TextPositions.{compare_refl}
use mundusx.Prelude.Tests.{Bool-cases, if◌then◌else◌}
use mundusx.Prelude.Text.{str_eq}

abbrev pub Map {ℓ} : Type ℓ → Type ℓ
Map A = List (String × A)

module _ {ℓ} {A : Type ℓ} where
  unfoldable pub get : Map A → String → Option A
  get [] k = none
  get ((j, a) ∷ m) k = if str_eq j k then some a else get m k

  abbrev pub place : Ordering → String → A → String × A → Map A → Map A → Map A
  place Ordering.lt k a e m rest = (k, a) ∷ e ∷ m
  place Ordering.eq k a e m rest = (k, a) ∷ m
  place Ordering.gt k a e m rest = e ∷ rest

  unfoldable pub insert : Map A → String → A → Map A
  insert [] k a = (k, a) ∷ []
  insert (e ∷ m) k a = place (compare k e.0) k a e m (insert m k a)

  unfoldable pub remove : Map A → String → Map A
  remove [] k = []
  remove ((j, a) ∷ m) k = let rest = remove m k in if str_eq j k then rest else (j, a) ∷ rest

  unfoldable pub values : Map A → List A
  values = map (λ e. e.1)

  place-get :
      (o : Ordering) (k j : String) (a : A) (e : String × A) (m rest : Map A)
      → (o ≡ Ordering.eq → e.0 ≡ k)
      → get rest j ≡ (if str_eq k j then some a else get m j)
      → (e.0 ≡ k → o ≡ Ordering.eq)
      → get (place o k a e m rest) j ≡ (if str_eq k j then some a else get (e ∷ m) j)
  unfolding get
  place-get Ordering.lt k j a e m rest same r diff = refl
  place-get Ordering.eq k j a e m rest same r diff = rw (same refl) (ground arith)
  place-get Ordering.gt k j a e m rest same r diff = elim (Bool-cases (str_eq k j)) [
    | inl hit ↦ elim (Bool-cases (str_eq e.0 j)) [
      | inl clash ↦ cc (diff ((eq_iff e.0 j).0 clash ∙ sym ((eq_iff k j).0 hit)))
      | inr other ↦ rw other r
    ]
    | inr miss ↦ rw (r, miss)
  ]

  pub get-insert :
      (m : Map A) (k j : String) (a : A)
      → get (insert m k a) j ≡ (if str_eq k j then some a else get m j)
  unfolding get insert
  get-insert [] k j a = refl
  get-insert (e ∷ m) k j a =
      place-get (compare k e.0) k j a e m (insert m k a) (λ o. sym (path_by_compare k e.0 o))
        (get-insert m k j a) (λ p. rw p (compare_refl k))

  pub get-remove :
      (m : Map A) (k j : String) → get (remove m k) j ≡ (if str_eq k j then none else get m j)
  unfolding get remove
  get-remove [] k j = ground arith
  get-remove ((i, a) ∷ m) k j = ground (arith, eq_iff k j, eq_iff i k, eq_iff i j, get-remove m k j)
