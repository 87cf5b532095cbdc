-- ===== src/Harness/Paths.antt =====
-- The paths and limits of a workspace, agents/node/src/harness.rs.
--
-- A path is the list of its components, as `Path::components` gives them on Unix: it is absolute when it
-- begins with the root. The file system is the parameter `Disk`.
pub mod Confinement
pub mod Tests
use Prim.Native.Char.{Char, code}
use mundusx.Prelude.{
  ℕ, String, len, List, [], ◌∷◌, ◌++◌, Bool, true, false, not, ◌&&◌, ◌||◌, Result, ok, err,
  is_empty, is_nil, push_str, str_eq, any, all_chars, leb, ltb, ◌==◌, if◌then◌else◌,
}

pub data Component : Type 0 where
  root_dir cur_dir parent_dir : Component
  normal : (name : String) → Component

abbrev pub FilePath : Type 0
FilePath = List Component

pub record WorkspaceLimits : Type 0 where
  pub max_disk_mb : ℕ
  pub max_memory_mb : ℕ
  pub max_cpu_time_ms : ℕ
  pub max_wall_time_ms : ℕ

abbrev pub default_limits : WorkspaceLimits
default_limits = record {
  max_disk_mb = 4096;
  max_memory_mb = 8192;
  max_cpu_time_ms = 600000;
  max_wall_time_ms = 900000;
}

pub record HarnessError : Type 0 where
  pub code : String
  pub message : String

pub record PreparedWorkspace : Type 0 where
  pub attempt_id : String
  pub path : FilePath
  pub base_revision : String
  pub allowed_path_prefixes : List FilePath
  pub limits : WorkspaceLimits

-- What `fs::symlink_metadata` says of a path.
pub data Metadata : Type 0 where
  found : (is_symlink : Bool) → Metadata
  missing : Metadata
  failed : (message : String) → Metadata

pub record Disk : Type 0 where
  pub symlink_metadata : FilePath → Metadata
  pub canonicalize : FilePath → Result String FilePath

abbrev refuse : {A : Type 0} → String → String → Result HarnessError A
refuse c text = err (record { code = c; message = text })

abbrev pub path_denied : String
path_denied = "HARNESS_PATH_DENIED"

abbrev is_absolute : FilePath → Bool
is_absolute [] = false
is_absolute (root_dir ∷ cs) = true
is_absolute (cur_dir ∷ cs) = false
is_absolute (parent_dir ∷ cs) = false
is_absolute (normal name ∷ cs) = false

abbrev onto_path : Component → Result HarnessError FilePath → Result HarnessError FilePath
onto_path c (ok cs) = ok (c ∷ cs)
onto_path c (err e) = err e

abbrev not_normal : Result HarnessError FilePath
not_normal =
    refuse path_denied "workspace path contains traversal, root, or platform prefix components"

unfoldable pub normal_components : FilePath → Result HarnessError FilePath
normal_components [] = ok []
normal_components (root_dir ∷ cs) = not_normal
normal_components (cur_dir ∷ cs) = not_normal
normal_components (parent_dir ∷ cs) = not_normal
normal_components (normal name ∷ cs) = onto_path (normal name) (normal_components cs)

unfoldable pub normalize_relative_path : FilePath → Result HarnessError FilePath
normalize_relative_path path =
    if is_nil path || is_absolute path
    then refuse path_denied "workspace paths must be non-empty and relative"
    else normal_components path

abbrev pub same_component : Component → Component → Bool
same_component (normal a) c = elim c [ normal b ↦ str_eq a b | _ ↦ false ]
same_component root_dir c = elim c [ root_dir ↦ true | _ ↦ false ]
same_component cur_dir c = elim c [ cur_dir ↦ true | _ ↦ false ]
same_component parent_dir c = elim c [ parent_dir ↦ true | _ ↦ false ]

-- `path.starts_with(prefix)`
unfoldable pub path_starts_with : FilePath → FilePath → Bool
path_starts_with path [] = true
path_starts_with [] (p ∷ prefix) = false
path_starts_with (c ∷ path) (p ∷ prefix) = same_component c p && path_starts_with path prefix

unfoldable pub require_allowed_prefix :
    PreparedWorkspace → FilePath → Result HarnessError (Unit {0})
require_allowed_prefix workspace relative =
    if is_nil workspace.allowed_path_prefixes
      || any (path_starts_with relative) workspace.allowed_path_prefixes
    then ok tt
    else refuse path_denied "path is outside the assignment's allowed prefixes"

abbrev is_attempt_char : Char → Bool
is_attempt_char c =
    leb b'0' (code c) && leb (code c) b'9'
    || leb b'a' (code c) && leb (code c) b'z'
    || leb b'A' (code c) && leb (code c) b'Z'
    || code c == b'-'
    || code c == b'_'

unfoldable pub validate_attempt_id : String → Result HarnessError (Unit {0})
validate_attempt_id value =
    if is_empty value || ltb 96 (len value) || not (all_chars is_attempt_char value)
    then refuse "HARNESS_POLICY_DENIED"
        "attempt id must contain only ASCII letters, digits, '-' or '_'"
    else ok tt

abbrev is_hex_char : Char → Bool
is_hex_char c =
    leb b'0' (code c) && leb (code c) b'9'
    || leb b'a' (code c) && leb (code c) b'f'
    || leb b'A' (code c) && leb (code c) b'F'

unfoldable pub validate_revision : String → Result HarnessError (Unit {0})
validate_revision value =
    if not (len value == 40) || not (all_chars is_hex_char value)
    then refuse "HARNESS_BASE_REVISION_INVALID"
        "base revision must be a full 40-character Git commit id"
    else ok tt

unfoldable pub validate_limits : WorkspaceLimits → Result HarnessError (Unit {0})
validate_limits limits =
    if limits.max_disk_mb == 0
      || limits.max_memory_mb == 0
      || limits.max_cpu_time_ms == 0
      || limits.max_wall_time_ms == 0
      || ltb limits.max_wall_time_ms limits.max_cpu_time_ms
    then refuse "HARNESS_POLICY_DENIED"
        "workspace resource limits must be positive and CPU time cannot exceed wall time"
    else ok tt

module _ (disk : Disk) where
  abbrev resolved_inside :
      FilePath
      → Result String FilePath
      → Result HarnessError (Unit {0})
      → Result HarnessError (Unit {0})
  resolved_inside root (err e) rest =
      refuse path_denied (push_str "workspace path could not be resolved: " e)
  resolved_inside root (ok resolved) rest =
      if not (path_starts_with resolved root)
      then refuse "HARNESS_SYMLINK_ESCAPE"
          "workspace path traverses a junction or reparse point outside the workspace"
      else rest

  abbrev component_checked :
      FilePath
      → FilePath
      → Metadata
      → Result HarnessError (Unit {0})
      → Result HarnessError (Unit {0})
  component_checked root current (found true) rest =
      refuse "HARNESS_SYMLINK_ESCAPE" "workspace path traverses a symlink"
  component_checked root current (found false) rest =
      resolved_inside root (disk.canonicalize current) rest
  component_checked root current missing rest = ok tt
  component_checked root current (failed message) rest =
      refuse path_denied (push_str "workspace path metadata failed: " message)

  -- The loop of `reject_symlink_components` from the path `current` on.
  unfoldable pub reject_from : FilePath → FilePath → FilePath → Result HarnessError (Unit {0})
  reject_from root current [] = ok tt
  reject_from root current (c ∷ cs) =
      let next = current ++ c ∷ [] in
      component_checked root next (disk.symlink_metadata next) (reject_from root next cs)

  unfoldable pub reject_symlink_components : FilePath → FilePath → Result HarnessError (Unit {0})
  reject_symlink_components root relative = reject_from root root relative

  abbrev joined :
      FilePath → FilePath → Result HarnessError (Unit {0}) → Result HarnessError FilePath
  joined root relative (err e) = err e
  joined root relative (ok u) = ok (root ++ relative)

  abbrev allowed_then :
      PreparedWorkspace → FilePath → Result HarnessError (Unit {0}) → Result HarnessError FilePath
  allowed_then workspace relative (err e) = err e
  allowed_then workspace relative (ok u) =
      joined workspace.path relative (reject_symlink_components workspace.path relative)

  abbrev normalized_then :
      PreparedWorkspace → Result HarnessError FilePath → Result HarnessError FilePath
  normalized_then workspace (err e) = err e
  normalized_then workspace (ok relative) =
      allowed_then workspace relative (require_allowed_prefix workspace relative)

  unfoldable pub resolve_for_write : PreparedWorkspace → FilePath → Result HarnessError FilePath
  resolve_for_write workspace relative =
      normalized_then workspace (normalize_relative_path relative)
