-- ===== src/Harness/Paths/Tests.antt =====
-- Evaluations of agents/node/src/harness.rs and the theorems at concrete inputs.
use mundusx.Prelude.{◌≡◌, refl, [], ◌∷◌, false, ok, err, any, all_chars}
use mundusx.Harness.Paths.{
  root_dir, parent_dir, normal, FilePath, PreparedWorkspace, Disk, Metadata, found, missing,
  default_limits, validate_limits, validate_revision, normal_components, normalize_relative_path,
  path_starts_with, require_allowed_prefix, reject_from, reject_symlink_components,
  resolve_for_write,
}
use mundusx.Harness.Paths.Confinement.{Confined, resolve_for_write-Confined}

abbrev work : FilePath
work = root_dir ∷ normal "work" ∷ []

-- `src` exists and `src/new.rs` does not.
abbrev metadata : FilePath → Metadata
metadata (a ∷ b ∷ c ∷ []) = found false
metadata (a ∷ b ∷ []) = found false
metadata (a ∷ []) = found false
metadata [] = found false
metadata (a ∷ b ∷ c ∷ d ∷ path) = missing

abbrev disk : Disk
disk = record { symlink_metadata = metadata; canonicalize = λ path. ok path }

abbrev workspace : PreparedWorkspace
workspace = record {
  attempt_id = "attempt_one";
  path = work;
  base_revision = "0123456789012345678901234567890123456789";
  allowed_path_prefixes = (normal "src" ∷ []) ∷ [];
  limits = default_limits;
}

accepts_limits :
    (validate_limits workspace.limits ≡ ok tt) × (validate_revision workspace.base_revision ≡ ok tt)
unfolding validate_limits validate_revision all_chars
accepts_limits = (refl, refl)

resolves_a_new_file :
    resolve_for_write disk workspace (normal "src" ∷ normal "new.rs" ∷ [])
    ≡ ok (root_dir ∷ normal "work" ∷ normal "src" ∷ normal "new.rs" ∷ [])
unfolding resolve_for_write normalize_relative_path normal_components require_allowed_prefix any
    path_starts_with reject_symlink_components reject_from
resolves_a_new_file = refl

rejects_traversal :
    resolve_for_write disk workspace (normal "src" ∷ parent_dir ∷ normal "secret" ∷ [])
    ≡ err (record {
      code = "HARNESS_PATH_DENIED";
      message = "workspace path contains traversal, root, or platform prefix components";
    })
unfolding resolve_for_write normalize_relative_path normal_components
rejects_traversal = refl

resolve_for_write-Confined_example :
    Confined disk workspace
      (normal "src" ∷ normal "new.rs" ∷ [])
      (root_dir ∷ normal "work" ∷ normal "src" ∷ normal "new.rs" ∷ [])
resolve_for_write-Confined_example =
    resolve_for_write-Confined disk workspace (normal "src" ∷ normal "new.rs" ∷ [])
      (root_dir ∷ normal "work" ∷ normal "src" ∷ normal "new.rs" ∷ []) resolves_a_new_file
