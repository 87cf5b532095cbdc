-- ===== src/Swarm/Plan/Owners.antt =====
-- The owned paths of `validate_plan`, apps/cli/src/project_swarm.rs: the checks accept exactly the tasks
-- whose paths are safe and do not overlap.
use mundusx.Prelude.{
  arith, ◌≡◌, ◌↔◌, refl, sym, ap, subst, ◌∙◌, inl, inr, String, List, [], ◌∷◌, ◌++◌, false, ok,
  Result-cases, All, Bool-cases,
}
use mathlib.Core.List.{append_assoc, append-nil}
use mundusx.Swarm.Paths.{path_is_owned, normalize_owned_path}
use mundusx.Swarm.Plan.{Owner, overlap, check_overlap, claim_path, claim_paths, and_then}

-- Neither path owns the other.
abbrev pub Apart : String → String → Type 0
Apart a b = (path_is_owned a b ≡ false) × (path_is_owned b a ≡ false)

overlap-Apart : (a b : String) → (overlap a b ≡ false) ↔ Apart a b
overlap-Apart a b =
    ((λ h. (ground arith, ground arith)), (λ h. let p = h.0 in let q = h.1 in ground arith))

-- No path of the list owns another of it.
abbrev pub Disjoint : List Owner → Type 0
Disjoint [] = Unit
Disjoint (o ∷ os) = All (λ (p : Owner). Apart p.1 o.1) os × Disjoint os

All-append : (P : Owner → Type 0) (xs ys : List Owner) → All P xs → All P ys → All P (xs ++ ys)
All-append P [] ys a b = b
All-append P (x ∷ xs) ys a b = (a.0, All-append P xs ys a.1 b)

Disjoint-add :
    (os : List Owner) (n : Owner)
    → All (λ (o : Owner). Apart n.1 o.1) os
    → Disjoint os
    → Disjoint (os ++ n ∷ [])
Disjoint-add [] n a d = (tt, tt)
Disjoint-add (o ∷ os) n a d = (All-append _ os (n ∷ []) d.0 (a.0, tt), Disjoint-add os n a.1 d.1)

last_All : (P : Owner → Type 0) (xs ys : List Owner) (n : Owner) → All P (xs ++ n ∷ ys) → P n
last_All P [] ys n a = a.0
last_All P (x ∷ xs) ys n a = last_All P xs ys n a.1

Disjoint-before :
    (os later : List Owner) (n : Owner)
    → Disjoint (os ++ n ∷ later)
    → All (λ (o : Owner). Apart n.1 o.1) os
Disjoint-before [] later n d = tt
Disjoint-before (o ∷ os) later n d = (last_All _ os later n d.0, Disjoint-before os later n d.1)

pub Disjoint-start : (os later : List Owner) → Disjoint (os ++ later) → Disjoint os
Disjoint-start [] later d = tt
Disjoint-start (o ∷ os) later d = (All-start _ os later d.0, Disjoint-start os later d.1)
  where
    All-start : (P : Owner → Type 0) (xs ys : List Owner) → All P (xs ++ ys) → All P xs
    All-start P [] ys a = tt
    All-start P (x ∷ xs) ys a = (a.0, All-start P xs ys a.1)

check_overlap-ok_iff :
    (id path normalized : String) (owners : List Owner)
    → (check_overlap id path normalized owners ≡ ok tt)
      ↔ All (λ (o : Owner). Apart normalized o.1) owners
unfolding check_overlap
check_overlap-ok_iff id path normalized [] = ((λ h. tt), (λ h. refl))
check_overlap-ok_iff id path normalized ((o, existing) ∷ owners) =
    elim (Bool-cases (overlap normalized existing)) [
      | inl hit ↦ rw hit (
        (λ h. cc),
        (λ a. absurd (ground (arith, hit, (overlap-Apart normalized existing).1 a.0))),
      )
      | inr miss ↦ rw miss (
        (λ h. (
          (overlap-Apart normalized existing).0 miss,
          (check_overlap-ok_iff id path normalized owners).0 h,
        )),
        (λ a. (check_overlap-ok_iff id path normalized owners).1 a.1),
      )
    ]

-- The owners that a task's paths add, one for each path, in its normal form.
abbrev pub Owns : String → List String → List Owner → Type 0
Owns id [] [] = Unit
Owns id [] (o ∷ os) = ⊥
Owns id (path ∷ paths) [] = ⊥
Owns id (path ∷ paths) ((owner, normalized) ∷ os) =
    (owner ≡ id) × (normalize_owned_path path ≡ ok normalized) × Owns id paths os

-- `after` adds to `before` what `Adds` allows and stays disjoint.
abbrev pub Adds : (List Owner → Type 0) → List Owner → List Owner → Type 0
Adds P before after = (os : List Owner) × (after ≡ before ++ os) × P os × Disjoint after

claim_path-ok :
    (id path : String) (before after : List Owner)
    → Disjoint before
    → claim_path id path before ≡ ok after
    → (normalized : String) × (normalize_owned_path path ≡ ok normalized)
      × (after ≡ before ++ (id, normalized) ∷ [])
      × Disjoint after
claim_path-ok id path before after d h = elim (Result-cases (normalize_owned_path path)) [
  | inl (e, p) ↦ cc
  | inr (normalized, p) ↦ elim (Result-cases (check_overlap id path normalized before)) [
    | inl (e, q) ↦ cc
    | inr (u, q) ↦
        let same : after ≡ before ++ (id, normalized) ∷ [] = cc in
        (
          normalized,
          p,
          same,
          subst Disjoint (sym same) (
              Disjoint-add before (id, normalized)
                ((check_overlap-ok_iff id path normalized before).0 q) d),
        )
  ]
]

pub claim_paths-ok :
    (id : String) (paths : List String) (before after : List Owner)
    → Disjoint before
    → claim_paths id paths before ≡ ok after
    → Adds (Owns id paths) before after
unfolding claim_paths
claim_paths-ok id [] before after d h =
    let same : before ≡ after = cc in
    ([], sym same ∙ sym (append-nil before), tt, subst Disjoint same d)
claim_paths-ok id (path ∷ paths) before after d h =
    elim (Result-cases (claim_path id path before)) [
      | inl (e, p) ↦ cc
      | inr (mid, p) ↦
          let one = claim_path-ok id path before mid d p in
          let more =
            claim_paths-ok id paths mid after one.3
              (subst (λ r. and_then r (claim_paths id paths) ≡ ok after) p h) in
          (
            (id, one.0) ∷ more.0,
            more.1 ∙ ap (λ l. l ++ more.0) one.2 ∙ append_assoc before ((id, one.0) ∷ []) more.0,
            (refl, one.1, more.2),
            more.3,
          )
    ]

claim_path-accepts :
    (id path normalized : String) (before : List Owner)
    → normalize_owned_path path ≡ ok normalized
    → All (λ (o : Owner). Apart normalized o.1) before
    → claim_path id path before ≡ ok (before ++ (id, normalized) ∷ [])
claim_path-accepts id path normalized before p a =
    rw (p, (check_overlap-ok_iff id path normalized before).1 a) refl

pub claim_paths-accepts :
    (id : String) (paths : List String) (before os : List Owner)
    → Owns id paths os
    → Disjoint (before ++ os)
    → claim_paths id paths before ≡ ok (before ++ os)
unfolding claim_paths
claim_paths-accepts id [] before [] o d = ap ok (sym (append-nil before))
claim_paths-accepts id [] before (x ∷ os) o d = absurd o
claim_paths-accepts id (path ∷ paths) before [] o d = absurd o
claim_paths-accepts id (path ∷ paths) before ((owner, normalized) ∷ os) o d =
    rw
      (claim_path-accepts id path normalized before o.1
        (Disjoint-before before os (owner, normalized) d))
      (claim_paths-accepts id paths (before ++ (id, normalized) ∷ []) os o.2 (subst Disjoint same d)
        ∙ ap ok (sym same))
  where
    same : before ++ (owner, normalized) ∷ os ≡ (before ++ (id, normalized) ∷ []) ++ os
    same =
        ap (λ k. before ++ (k, normalized) ∷ os) o.0
        ∙ sym (append_assoc before ((id, normalized) ∷ []) os)
