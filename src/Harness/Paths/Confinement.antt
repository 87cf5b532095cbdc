-- ===== src/Harness/Paths/Confinement.antt =====
-- The paths that `resolve_for_write` gives, agents/node/src/harness.rs, stay inside the workspace.
use mundusx.Prelude.{
  ◌≡◌, refl, ap, ◌∙◌, ◌⊎◌, inl, inr, String, List, [], ◌∷◌, ◌++◌, map, true, false, arith, Result,
  ok, err, Result-cases, Bool-cases, In, any, is_nil, eq_iff,
}
use mundusx.Harness.Paths.{
  Component, root_dir, cur_dir, parent_dir, normal, FilePath, PreparedWorkspace, Disk, Metadata,
  found, missing, failed, HarnessError, normal_components, normalize_relative_path, same_component,
  path_starts_with, require_allowed_prefix, resolved_inside, component_checked, reject_from,
  reject_symlink_components, resolve_for_write,
}

-- The path is the prefix, or lies below it.
abbrev pub Under : FilePath → FilePath → Type 0
Under prefix path = (rest : FilePath) × (path ≡ prefix ++ rest)

same_component-eq : (a b : Component) → same_component a b ≡ true → a ≡ b
same_component-eq (normal a) (normal b) h = ap normal ((eq_iff a b).0 h)
same_component-eq (normal a) root_dir h = cc
same_component-eq (normal a) cur_dir h = cc
same_component-eq (normal a) parent_dir h = cc
same_component-eq root_dir root_dir h = refl
same_component-eq root_dir cur_dir h = cc
same_component-eq root_dir parent_dir h = cc
same_component-eq root_dir (normal b) h = cc
same_component-eq cur_dir cur_dir h = refl
same_component-eq cur_dir root_dir h = cc
same_component-eq cur_dir parent_dir h = cc
same_component-eq cur_dir (normal b) h = cc
same_component-eq parent_dir parent_dir h = refl
same_component-eq parent_dir root_dir h = cc
same_component-eq parent_dir cur_dir h = cc
same_component-eq parent_dir (normal b) h = cc

path_starts_with-Under :
    (path prefix : FilePath) → path_starts_with path prefix ≡ true → Under prefix path
unfolding path_starts_with
path_starts_with-Under path [] h = (path, refl)
path_starts_with-Under [] (p ∷ prefix) h = cc
path_starts_with-Under (c ∷ path) (p ∷ prefix) h =
    let r = path_starts_with-Under path prefix (ground arith) in
    let same : c ≡ p = same_component-eq c p (ground arith) in (r.0, rw (same, r.1) refl)

any-Under :
    (path : FilePath) (prefixes : List FilePath)
    → any (path_starts_with path) prefixes ≡ true
    → (prefix : FilePath) × In prefix prefixes × Under prefix path
unfolding any
any-Under path [] h = cc
any-Under path (p ∷ prefixes) h = elim (Bool-cases (path_starts_with path p)) [
  | inl hit ↦ (p, inl refl, path_starts_with-Under path p hit)
  | inr miss ↦ let r = any-Under path prefixes (ground arith) in (r.0, inr r.1, r.2)
]

normal_components-ok :
    (path cs : FilePath)
    → normal_components path ≡ ok cs
    → (cs ≡ path) × ((names : List String) × (path ≡ map normal names))
unfolding normal_components
normal_components-ok [] cs h = (let same : cs ≡ [] = cc in same, ([], refl))
normal_components-ok (root_dir ∷ path) cs h = cc
normal_components-ok (cur_dir ∷ path) cs h = cc
normal_components-ok (parent_dir ∷ path) cs h = cc
normal_components-ok (normal name ∷ path) cs h = elim (Result-cases (normal_components path)) [
  | inl (e, p) ↦ cc
  | inr (rest, p) ↦
      let r = normal_components-ok path rest p in
      let same : cs ≡ normal name ∷ rest = cc in
      (same ∙ ap (λ l. normal name ∷ l) r.0, (name ∷ r.1.0, ap (λ l. normal name ∷ l) r.1.1))
]

module _ (disk : Disk) where
  -- Every ancestor down to the first that is missing is no symbolic link and resolves below the root.
  abbrev pub Unlinked : FilePath → FilePath → FilePath → Type 0
  Unlinked root current [] = Unit
  Unlinked root current (c ∷ cs) =
      (disk.symlink_metadata (current ++ c ∷ []) ≡ missing)
      ⊎ ((disk.symlink_metadata (current ++ c ∷ []) ≡ found false)
          × ((resolved : FilePath) × (disk.canonicalize (current ++ c ∷ []) ≡ ok resolved)
              × Under root resolved)
          × Unlinked root (current ++ c ∷ []) cs)

  inside-ok :
      (root : FilePath) (r : Result String FilePath) (rest : Result HarnessError (Unit {0}))
      → resolved_inside disk root r rest ≡ ok tt
      → ((resolved : FilePath) × (r ≡ ok resolved) × Under root resolved) × (rest ≡ ok tt)
  inside-ok root (err e) rest h = cc
  inside-ok root (ok resolved) rest h = elim (Bool-cases (path_starts_with resolved root)) [
    | inl hit ↦ ((resolved, refl, path_starts_with-Under resolved root hit), ground arith)
    | inr miss ↦ ground arith
  ]

  checked-ok :
      (root current : FilePath) (m : Metadata) (rest : Result HarnessError (Unit {0}))
      → component_checked disk root current m rest ≡ ok tt
      → (m ≡ missing)
        ⊎ ((m ≡ found false)
            × ((resolved : FilePath) × (disk.canonicalize current ≡ ok resolved)
                × Under root resolved)
            × (rest ≡ ok tt))
  checked-ok root current (found true) rest h = cc
  checked-ok root current (found false) rest h =
      let r = inside-ok root (disk.canonicalize current) rest h in inr (refl, r.0, r.1)
  checked-ok root current missing rest h = inl refl
  checked-ok root current (failed message) rest h = cc

  reject_from-Unlinked :
      (root current relative : FilePath)
      → reject_from disk root current relative ≡ ok tt
      → Unlinked root current relative
  unfolding reject_from
  reject_from-Unlinked root current [] h = tt
  reject_from-Unlinked root current (c ∷ cs) h =
      elim (checked-ok root (current ++ c ∷ []) (disk.symlink_metadata (current ++ c ∷ [])) _ h) [
        | inl gone ↦ inl gone
        | inr there ↦
            inr (there.0, there.1, reject_from-Unlinked root (current ++ c ∷ []) cs there.2)
      ]

  -- What a path to write to satisfies.
  pub record Confined (workspace : PreparedWorkspace) (relative path : FilePath) : Type 0 where
    pub some_component : is_nil relative ≡ false
    pub plain : (names : List String) × (relative ≡ map normal names)
    pub below : path ≡ workspace.path ++ relative
    pub allowed :
        (is_nil workspace.allowed_path_prefixes ≡ true)
        ⊎ ((prefix : FilePath) × In prefix workspace.allowed_path_prefixes × Under prefix relative)
    pub unlinked : Unlinked workspace.path workspace.path relative

  normalize-ok :
      (relative cs : FilePath)
      → normalize_relative_path relative ≡ ok cs
      → (is_nil relative ≡ false)
        × (cs ≡ relative)
        × ((names : List String) × (relative ≡ map normal names))
  unfolding normalize_relative_path
  normalize-ok [] cs h = cc
  normalize-ok (root_dir ∷ relative) cs h = cc
  normalize-ok (cur_dir ∷ relative) cs h =
      let r = normal_components-ok (cur_dir ∷ relative) cs h in (refl, r.0, r.1)
  normalize-ok (parent_dir ∷ relative) cs h =
      let r = normal_components-ok (parent_dir ∷ relative) cs h in (refl, r.0, r.1)
  normalize-ok (normal name ∷ relative) cs h =
      let r = normal_components-ok (normal name ∷ relative) cs h in (refl, r.0, r.1)

  allowed-ok :
      (workspace : PreparedWorkspace) (relative : FilePath)
      → require_allowed_prefix workspace relative ≡ ok tt
      → (is_nil workspace.allowed_path_prefixes ≡ true)
        ⊎ ((prefix : FilePath) × In prefix workspace.allowed_path_prefixes × Under prefix relative)
  unfolding require_allowed_prefix
  allowed-ok workspace relative h = elim (Bool-cases (is_nil workspace.allowed_path_prefixes)) [
    | inl free ↦ inl free
    | inr some_prefix ↦ inr (any-Under relative workspace.allowed_path_prefixes (ground arith))
  ]

  -- A path that may be written to lies in the workspace: its components are plain names, it is under an
  -- allowed prefix where there are any, and no ancestor down to the first that is missing is a
  -- symbolic link or resolves outside the workspace.
  pub resolve_for_write-Confined :
      (workspace : PreparedWorkspace) (relative path : FilePath)
      → resolve_for_write disk workspace relative ≡ ok path
      → Confined workspace relative path
  unfolding resolve_for_write reject_symlink_components
  resolve_for_write-Confined workspace relative path h =
      elim (Result-cases (normalize_relative_path relative)) [
        | inl (e, p) ↦ cc
        | inr (cs, p) ↦
            let n = normalize-ok relative cs p in
            let p' : normalize_relative_path relative ≡ ok relative = p ∙ ap ok n.1 in
            elim (Result-cases (require_allowed_prefix workspace relative)) [
              | inl (e, q) ↦ cc
              | inr (u, q) ↦
                  elim (Result-cases (reject_from disk workspace.path workspace.path relative)) [
                    | inl (e, r) ↦ cc
                    | inr (v, r) ↦ record {
                      some_component = n.0;
                      plain = n.2;
                      below = cc;
                      allowed = allowed-ok workspace relative q;
                      unlinked = reject_from-Unlinked workspace.path workspace.path relative r;
                    }
                  ]
            ]
      ]
