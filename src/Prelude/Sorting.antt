-- ===== src/Prelude/Sorting.antt =====
-- `sort_by_key` with a text as the key, and `dedup`.
use Prim.Native.Nat.{Ordering}
use Prim.Native.String.{String, compare}
use mathlib.Core.Logic.{inl, inr}
use mundusx.Prelude.TextOrder.{str_leb, not_gt, str_leb_total}
use text.Mathlib.TextEquality.{eq_iff}
use text.Mathlib.Text.{is_eq}
use mathlib.Core.Path.{◌≡◌, refl, sym, ap, ◌∙◌, subst}
use mathlib.Core.Bool.{Bool, true, false, ◌||◌, ◌&&◌, false≢true}
use mathlib.Core.List.{List, [], ◌∷◌}
use native.Mathlib.Omega.{arith}
use mundusx.Prelude.Tests.{Bool-cases, if◌then◌else◌}
use mundusx.Prelude.Text.{str_eq}
use mundusx.Prelude.Lists.{any, all}

module _ {ℓ} {A : Type ℓ} (key : A → String) where
  unfoldable pub insert_by_key : A → List A → List A
  insert_by_key x [] = x ∷ []
  insert_by_key x (y ∷ ys) =
      let rest = insert_by_key x ys in if str_leb (key x) (key y) then x ∷ y ∷ ys else y ∷ rest

  -- `sort_by_key`: a stable sort
  unfoldable pub sort_by_key : List A → List A
  sort_by_key [] = []
  sort_by_key (x ∷ xs) = insert_by_key x (sort_by_key xs)

module _ {ℓ} {A : Type ℓ} (same : A → A → Bool) where
  abbrev pub push_new : A → List A → List A
  push_new x [] = x ∷ []
  push_new x (y ∷ ys) = if same x y then x ∷ ys else x ∷ y ∷ ys

  -- `dedup`
  unfoldable pub dedup : List A → List A
  dedup [] = []
  dedup (x ∷ xs) = push_new x (dedup xs)

module _ {ℓ} {A : Type ℓ} (p : A → Bool) where
  module _ (key : A → String) where
    any-insert_by_key : (x : A) (xs : List A) → any p (insert_by_key key x xs) ≡ (p x || any p xs)
    unfolding any insert_by_key
    any-insert_by_key x [] = refl
    any-insert_by_key x (y ∷ ys) = ground (arith, any-insert_by_key x ys)

    pub any-sort_by_key : (xs : List A) → any p (sort_by_key key xs) ≡ any p xs
    unfolding any sort_by_key
    any-sort_by_key [] = refl
    any-sort_by_key (x ∷ xs) =
        any-insert_by_key x (sort_by_key key xs) ∙ ap (λ b. p x || b) (any-sort_by_key xs)

    all-insert_by_key : (x : A) (xs : List A) → all p (insert_by_key key x xs) ≡ (p x && all p xs)
    unfolding all insert_by_key
    all-insert_by_key x [] = refl
    all-insert_by_key x (y ∷ ys) = ground (arith, all-insert_by_key x ys)

    pub all-sort_by_key : (xs : List A) → all p (sort_by_key key xs) ≡ all p xs
    unfolding all sort_by_key
    all-sort_by_key [] = refl
    all-sort_by_key (x ∷ xs) =
        all-insert_by_key x (sort_by_key key xs) ∙ ap (λ b. p x && b) (all-sort_by_key xs)

  module _ (same : A → A → Bool) (agrees : (x y : A) → same x y ≡ true → p x ≡ p y) where
    any-push_new : (x : A) (xs : List A) → any p (push_new same x xs) ≡ (p x || any p xs)
    unfolding any
    any-push_new x [] = refl
    any-push_new x (y ∷ ys) = elim (Bool-cases (same x y)) [
      | inl hit ↦ rw hit (ground (arith, agrees x y hit))
      | inr miss ↦ rw miss refl
    ]

    pub any-dedup : (xs : List A) → any p (dedup same xs) ≡ any p xs
    unfolding any dedup
    any-dedup [] = refl
    any-dedup (x ∷ xs) = any-push_new x (dedup same xs) ∙ ap (λ b. p x || b) (any-dedup xs)

-- Every element's key comes strictly before the next one's.
abbrev pub Ascending {ℓ} : {A : Type ℓ} → (A → String) → List A → Type 0
Ascending key [] = Unit
Ascending key (x ∷ []) = Unit
Ascending key (x ∷ y ∷ ys) = (compare (key x) (key y) ≡ Ordering.lt) × Ascending key (y ∷ ys)

-- No element's key comes after the next one's.
abbrev Sorted {ℓ} : {A : Type ℓ} → (A → String) → List A → Type 0
Sorted key [] = Unit
Sorted key (x ∷ []) = Unit
Sorted key (x ∷ y ∷ ys) = (str_leb (key x) (key y) ≡ true) × Sorted key (y ∷ ys)

module _ {ℓ} {A : Type ℓ} (key : A → String) where
  insert_after-Sorted :
      (x y : A) (ys : List A)
      → str_leb (key y) (key x) ≡ true
      → Sorted key (y ∷ ys)
      → Sorted key (insert_by_key key x ys)
      → Sorted key (y ∷ insert_by_key key x ys)
  unfolding insert_by_key
  insert_after-Sorted x y [] le s t = (le, tt)
  insert_after-Sorted x y (z ∷ zs) le s t = elim (Bool-cases (str_leb (key x) (key z))) [
    | inl hit ↦ rw hit (le, (hit, s.1))
    | inr miss ↦
        rw miss (
          s.0,
          subst (λ b. Sorted key (if b then x ∷ z ∷ zs else z ∷ insert_by_key key x zs)) miss t,
        )
  ]

  tail-Sorted : (y : A) (ys : List A) → Sorted key (y ∷ ys) → Sorted key ys
  tail-Sorted y [] s = tt
  tail-Sorted y (z ∷ zs) s = s.1

  insert_by_key-Sorted : (x : A) (xs : List A) → Sorted key xs → Sorted key (insert_by_key key x xs)
  unfolding insert_by_key
  insert_by_key-Sorted x [] s = tt
  insert_by_key-Sorted x (y ∷ ys) s = elim (Bool-cases (str_leb (key x) (key y))) [
    | inl hit ↦ rw hit (hit, s)
    | inr miss ↦ rw miss (
        insert_after-Sorted x y ys (str_leb_total (key x) (key y) miss) s
          (insert_by_key-Sorted x ys (tail-Sorted y ys s)))
  ]

  pub sort_by_key-Sorted : (xs : List A) → Sorted key (sort_by_key key xs)
  unfolding sort_by_key
  sort_by_key-Sorted [] = tt
  sort_by_key-Sorted (x ∷ xs) = insert_by_key-Sorted x (sort_by_key key xs) (sort_by_key-Sorted xs)

  module _ (same : A → A → Bool) (same_key : (x y : A) → same x y ≡ str_eq (key x) (key y)) where
    not_same-lt : (o : Ordering) → not_gt o ≡ true → is_eq o ≡ false → o ≡ Ordering.lt
    not_same-lt Ordering.lt le ne = refl
    not_same-lt Ordering.eq le ne = absurd (false≢true (sym ne))
    not_same-lt Ordering.gt le ne = absurd (false≢true le)

    push_same-Ascending :
        (x y : A) (ys : List A) → key x ≡ key y → Ascending key (y ∷ ys) → Ascending key (x ∷ ys)
    push_same-Ascending x y [] e s = tt
    push_same-Ascending x y (z ∷ zs) e s = (ap (λ k. compare k (key z)) e ∙ s.0, s.1)

    push_new-Ascending :
        (x y : A) (ys : List A)
        → str_leb (key x) (key y) ≡ true
        → Ascending key (y ∷ ys)
        → Ascending key (push_new same x (y ∷ ys))
    push_new-Ascending x y ys le s = elim (Bool-cases (same x y)) [
      | inl hit ↦
          rw hit
            (push_same-Ascending x y ys ((eq_iff (key x) (key y)).0 (sym (same_key x y) ∙ hit)) s)
      | inr miss ↦ rw miss (not_same-lt (compare (key x) (key y)) le (sym (same_key x y) ∙ miss), s)
    ]

    -- What `push_new` puts first, so that it is known what a list without repetitions begins with.
    rest_of : A → List A → List A
    rest_of x [] = []
    rest_of x (y ∷ ys) = if same x y then ys else y ∷ ys

    push_new-rest_of : (x : A) (ys : List A) → push_new same x ys ≡ x ∷ rest_of x ys
    unfolding rest_of
    push_new-rest_of x [] = refl
    push_new-rest_of x (y ∷ ys) = elim (Bool-cases (same x y)) [
      | inl hit ↦ rw hit refl
      | inr miss ↦ rw miss refl
    ]

    pub dedup-Ascending : (xs : List A) → Sorted key xs → Ascending key (dedup same xs)
    unfolding dedup
    dedup-Ascending [] s = tt
    dedup-Ascending (x ∷ []) s = tt
    dedup-Ascending (x ∷ y ∷ ys) s =
        let rest = push_new-rest_of y (dedup same ys) in
        subst (λ l. Ascending key (push_new same x l)) (sym rest)
          (push_new-Ascending x y _ s.0 (subst (Ascending key) rest (dedup-Ascending (y ∷ ys) s.1)))
