-- ===== src/Harness/Edits/Laws.antt =====
-- What the runner of edits keeps: a repeated edit, and an edit at the top of the workspace,
-- agents/node/src/harness_tools.rs.
use Prim.Native.Char.{Char}
use text.Mathlib.TextPositions.{eq_refl}
use mundusx.Prelude.{
  ◌≡◌, refl, sym, ap, ◌∙◌, subst, String, none, some, [], ◌∷◌, ◌++◌, true, Result, ok, err,
  ok-injective,
}
use mundusx.Prelude.Maps.{get}
use mundusx.Agent.Effect.{Ends, returns, stops, and_then}
use mundusx.Harness.Paths.{
  FilePath, Component, normal, root_dir, cur_dir, parent_dir, HarnessError, PreparedWorkspace, Disk,
  same_component, normalize_relative_path, resolve_for_write,
}
use mundusx.Harness.Paths.Confinement.{resolve_for_write-Confined}
use mundusx.Harness.Edits.{
  FileReplacement, Applied, FileRead, bytes, not_found, unreadable, Host, validate_idempotency_key,
  validate_content, check_previous, parent, strip_path, relative_parent, checked, lifted,
  read_result, prepare_parent, apply_new, recall, apply_replacement,
}

parent-append : (path : FilePath) (c : Component) → parent (path ++ c ∷ []) ≡ path
parent-append [] c = refl
parent-append (p ∷ []) c = refl
parent-append (p ∷ q ∷ path) c = ap (λ l. p ∷ l) (parent-append (q ∷ path) c)

same_component_self : (c : Component) → same_component c c ≡ true
same_component_self (normal name) = eq_refl name
same_component_self root_dir = refl
same_component_self cur_dir = refl
same_component_self parent_dir = refl

strip_path_self : (path : FilePath) → strip_path path path ≡ some []
unfolding strip_path
strip_path_self [] = refl
strip_path_self (c ∷ path) = rw (same_component_self c, strip_path_self path) refl

IsErr : {A : Type 0} → Result HarnessError A → Type 0
IsErr (ok a) = ⊥
IsErr (err e) = Unit

resolve-empty :
    (disk : Disk) (workspace : PreparedWorkspace) → IsErr (resolve_for_write disk workspace [])
unfolding IsErr resolve_for_write normalize_relative_path
resolve-empty disk workspace = tt

module _ {W : Type 0} (host : Host W) (nul : Char) where
  -- The runner's record of the edits is `applied`, after an error and after a value.
  abbrev pub Kept :
      {A : Type 0} → Applied → (A → Type 0) → Result HarnessError A × (Applied × W) → Type 0
  Kept applied Q x = Ends (λ e s. s.0 ≡ applied) (λ a s. (s.0 ≡ applied) × Q a) x

  checked-Kept :
      {A : Type 0} (r : Result HarnessError A) (s : Applied × W)
      → Kept s.0 (λ a. r ≡ ok a) (checked host nul r s)
  checked-Kept (ok a) s = returns (refl, refl)
  checked-Kept (err e) s = stops refl

  lifted-Kept :
      {A : Type 0} (applied : Applied) (r : Result String A × W)
      → Kept applied (λ a. Unit {0}) (lifted host nul applied r)
  lifted-Kept applied (ok a, w) = returns (refl, tt)
  lifted-Kept applied (err e, w) = stops refl

  read_result-Kept :
      (applied : Applied) (r : FileRead × W)
      → Kept applied (λ a. Unit {0}) (read_result host nul applied r)
  read_result-Kept applied (bytes sha256, w) = returns (refl, tt)
  read_result-Kept applied (not_found, w) = returns (refl, tt)
  read_result-Kept applied (unreadable e, w) = stops refl

  refused-Kept :
      {A : Type 0} (r : Result HarnessError A) (s : Applied × W)
      → IsErr r
      → Kept s.0 (λ a. ⊥) (checked host nul r s)
  unfolding IsErr
  refused-Kept (ok a) s h = absurd h
  refused-Kept (err e) s h = stops refl

  -- With what was kept before: the record `applied`.
  Kept-from :
      {A : Type 0} (Q : A → Type 0) (applied : Applied) (s : Applied × W)
      (x : Result HarnessError A × (Applied × W))
      → s.0 ≡ applied
      → Kept s.0 Q x
      → Kept applied Q x
  Kept-from Q applied s x same = subst (λ a. Kept a Q x) same

  prepare_parent-top :
      (workspace : PreparedWorkspace) (name : String) (s : Applied × W)
      → Kept s.0 (λ a. ⊥) (prepare_parent host nul workspace (workspace.path ++ normal name ∷ []) s)
  unfolding prepare_parent
  prepare_parent-top workspace name s =
      let up = parent (workspace.path ++ normal name ∷ []) in
      let top : strip_path workspace.path up ≡ some [] =
        ap (strip_path workspace.path) (parent-append workspace.path (normal name))
        ∙ strip_path_self workspace.path in
      and_then (lifted-Kept s.0 (host.create_dir_all up s.1)) λ u s1 q1.
        and_then
          (Kept-from _ s.0 s1 _ q1.0
            (checked-Kept (relative_parent host nul (strip_path workspace.path up)) s1))
          λ relative s2 q2.
            let empty = ok-injective [] relative (sym (ap (relative_parent host nul) top) ∙ q2.1) in
            Kept-from (λ a. ⊥) s.0 s2 _ q2.0
              (refused-Kept (resolve_for_write (host.disk s2.1) workspace relative) s2 (
                subst (λ r. IsErr (resolve_for_write (host.disk s2.1) workspace r)) empty
                  (resolve-empty (host.disk s2.1) workspace)))

  apply_new-top :
      (workspace : PreparedWorkspace) (key name : String) (replacement : FileReplacement)
      (path : FilePath) (s : Applied × W)
      → path ≡ workspace.path ++ normal name ∷ []
      → Kept s.0 (λ a. ⊥) (apply_new host nul workspace key replacement path s)
  unfolding apply_new
  apply_new-top workspace key name replacement path s top =
      and_then (read_result-Kept s.0 (host.read path s.1)) λ previous s1 q1.
        and_then
          (Kept-from _ s.0 s1 _ q1.0
            (checked-Kept (check_previous previous replacement.expected_sha256) s1))
          λ u s2 q2.
            and_then
              (Kept-from (λ a. ⊥) s.0 s2 _ q2.0
                (subst (λ p. Kept s2.0 (λ a. ⊥) (prepare_parent host nul workspace p s2)) (sym top)
                  (prepare_parent-top workspace name s2)))
              λ r s3 q3. absurd q3.1

  -- A replacement of a file that lies directly in the workspace, under a key that was not used
  -- before, ends with an error, whatever the file system does; the edit is not recorded.
  pub apply_replacement-top :
      (workspace : PreparedWorkspace) (key name : String) (replacement : FileReplacement)
      (s : Applied × W)
      → host.components replacement.path ≡ normal name ∷ []
      → get s.0 key ≡ none
      → Kept s.0 (λ result. ⊥) (apply_replacement host nul workspace key replacement s)
  unfolding apply_replacement
  apply_replacement-top workspace key name replacement s top unused =
      and_then (checked-Kept (validate_idempotency_key key) s) λ u s1 q1.
        and_then (Kept-from _ s.0 s1 _ q1.0 (checked-Kept (validate_content nul replacement) s1))
          λ v s2 q2.
            and_then
              (Kept-from _ s.0 s2 _ q2.0 (
                checked-Kept
                  (resolve_for_write (host.disk s2.1) workspace (host.components replacement.path))
                  s2))
              λ path s3 q3.
                let below =
                  (resolve_for_write-Confined (host.disk s2.1) workspace
                    (host.components replacement.path) path q3.1).below in
                let free = ap (λ a. get a key) q3.0 ∙ unused in
                Kept-from (λ a. ⊥) s.0 s3 _ q3.0
                  (subst
                    (λ o. Kept s3.0 (λ a. ⊥) (recall host nul workspace key replacement path o s3))
                    (sym free)
                    (apply_new-top workspace key name replacement path s3
                      (below ∙ ap (λ r. workspace.path ++ r) top)))
