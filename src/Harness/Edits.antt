-- ===== src/Harness/Edits.antt =====
-- The replacement of a file in a workspace, agents/node/src/harness_tools.rs.
--
-- The file system, the digest and the ids are the record `Host` over a world `W`; the state is what the
-- runner has applied and the world. The mutex is never poisoned: nothing panics while it is held.
pub mod Laws
pub mod Matched
pub mod Replay
pub mod Tests
use Prim.Native.Char.{Char, code}
use mundusx.Prelude.{
  ℕ, zero, suc, String, len, push_str, Option, none, some, List, [], ◌∷◌, Bool, true, false, not,
  ◌&&◌, ◌||◌, Result, ok, err, is_empty, str_eq, all_chars, contains_char, to_ascii_lowercase, leb,
  ltb, ◌==◌, if◌then◌else◌,
}
use mundusx.Prelude.Maps.{Map, get, insert}
use mundusx.Agent.Effect.{M, pure, throw, bound, ◌>>=◌}
use mundusx.Harness.Paths.{
  FilePath, HarnessError, PreparedWorkspace, Disk, same_component, path_denied, resolve_for_write,
}

abbrev pub max_file_bytes : ℕ
max_file_bytes = 2097152

pub record FileReplacement : Type 0 where
  pub path : String
  pub expected_sha256 : Option String
  pub content : String

pub record PatchResult : Type 0 where
  pub path : String
  pub previous_sha256 : Option String
  pub sha256 : String
  pub bytes_written : ℕ
  pub idempotent_replay : Bool

abbrev pub Applied : Type 0
Applied = Map (String × PatchResult)

-- What `fs::read` returns; of the bytes only the digest is used.
pub data FileRead : Type 0 where
  bytes : (sha256 : String) → FileRead
  not_found : FileRead
  unreadable : (message : String) → FileRead

pub record Host (W : Type 0) : Type 0 where
  pub components : String → FilePath
  pub sha256_hex : List String → String  -- of the texts, one after the other
  pub disk : W → Disk
  pub read : FilePath → W → FileRead × W
  pub create_dir_all : FilePath → M W String (Unit {0})
  pub temporary_for : FilePath → W → FilePath × W
  pub create_new : FilePath → M W String (Unit {0})
  pub write_all : FilePath → String → M W String (Unit {0})
  pub sync_all : FilePath → M W String (Unit {0})
  pub exists : FilePath → W → Bool
  pub remove_file : FilePath → M W String (Unit {0})
  pub rename : FilePath → FilePath → M W String (Unit {0})

abbrev is_key_char : Char → Bool
is_key_char c =
    leb b'0' (code c) && leb (code c) b'9'
    || leb b'a' (code c) && leb (code c) b'z'
    || leb b'A' (code c) && leb (code c) b'Z'
    || code c == b'-'
    || code c == b'_'
    || code c == b'.'

abbrev pub failure : {A : Type 0} → String → String → Result HarnessError A
failure c message = err (record { code = c; message = message })

unfoldable pub validate_idempotency_key : String → Result HarnessError (Unit {0})
validate_idempotency_key value =
    if is_empty value || ltb 128 (len value) || not (all_chars is_key_char value)
    then failure "HARNESS_IDEMPOTENCY_REQUIRED" "patch operation requires a bounded idempotency key"
    else ok tt

-- The test on the content; `nul` is the character of the byte 0.
unfoldable pub validate_content : Char → FileReplacement → Result HarnessError (Unit {0})
validate_content nul replacement =
    if ltb max_file_bytes (len replacement.content) || contains_char replacement.content nul
    then failure "HARNESS_ARTIFACT_INVALID" "replacement must be bounded UTF-8 source text"
    else ok tt

abbrev pub expected_text : Option String → String
expected_text none = ""
expected_text (some expected) = expected

-- What the file was and what the model expects it to be.
abbrev pub check_previous : Option String → Option String → Result HarnessError (Unit {0})
check_previous (some actual) (some expected) =
    if str_eq (to_ascii_lowercase actual) (to_ascii_lowercase expected)
    then ok tt
    else failure "HARNESS_ARTIFACT_INVALID" "file changed since the model read it"
check_previous none none = ok tt
check_previous (some actual) none =
    failure "HARNESS_ARTIFACT_INVALID" "editing an existing file requires its expected SHA-256"
check_previous none (some expected) =
    failure "HARNESS_ARTIFACT_INVALID" "file changed since the model read it"

-- `path.parent()` of a path that is not the root, and `path.strip_prefix(prefix)`
abbrev pub parent : FilePath → FilePath
parent [] = []
parent (c ∷ []) = []
parent (c ∷ d ∷ cs) = c ∷ parent (d ∷ cs)

unfoldable pub strip_path : FilePath → FilePath → Option FilePath
strip_path [] path = some path
strip_path (p ∷ prefix) [] = none
strip_path (p ∷ prefix) (c ∷ path) =
    let rest = strip_path prefix path in if same_component c p then rest else none

abbrev pub replayed : PatchResult → PatchResult
replayed result = record result { idempotent_replay = true }

module _ {W : Type 0} (host : Host W) (nul : Char) where
  abbrev pub State : Type 0
  State = Applied × W

  abbrev pub Tool : Type 0 → Type 0
  Tool A = M State HarnessError A

  abbrev pub checked : {A : Type 0} → Result HarnessError A → Tool A
  checked r s = (r, s)

  abbrev pub lifted : {A : Type 0} → Applied → Result String A × W → Result HarnessError A × State
  lifted applied (ok a, w) = (ok a, (applied, w))
  lifted applied (err e, w) =
      (failure path_denied (push_str "repository operation failed: " e), (applied, w))

  -- `.map_err(path_error)?`
  abbrev pub io : {A : Type 0} → M W String A → Tool A
  io call s = lifted s.0 (call s.1)

  abbrev pub replacement_digest : FileReplacement → String
  replacement_digest replacement = host.sha256_hex (
      replacement.path
      ∷ String.◌∷◌ nul String.[]
      ∷ expected_text replacement.expected_sha256
      ∷ String.◌∷◌ nul String.[]
      ∷ replacement.content
      ∷ [])

  abbrev pub read_result : Applied → FileRead × W → Result HarnessError (Option String) × State
  read_result applied (bytes sha256, w) = (ok (some sha256), (applied, w))
  read_result applied (not_found, w) = (ok none, (applied, w))
  read_result applied (unreadable e, w) =
      (failure path_denied (push_str "repository operation failed: " e), (applied, w))

  abbrev pub read_previous : FilePath → Tool (Option String)
  read_previous path s = read_result s.0 (host.read path s.1)

  abbrev pub relative_parent : Option FilePath → Result HarnessError FilePath
  relative_parent none = failure path_denied "patch parent escaped the workspace"
  relative_parent (some relative) = ok relative

  unfoldable pub prepare_parent : PreparedWorkspace → FilePath → Tool FilePath
  prepare_parent workspace path = do
    _ ← io (host.create_dir_all (parent path))
    relative ← checked (relative_parent (strip_path workspace.path (parent path)))
    (λ s. (resolve_for_write (host.disk s.1) workspace relative, s))

  abbrev pub remove_existing : FilePath → Tool (Unit {0})
  remove_existing path s = if host.exists path s.1 then io (host.remove_file path) s else (ok tt, s)

  abbrev pub temporary : FilePath → Tool FilePath
  temporary path s = let drawn = host.temporary_for path s.1 in (ok drawn.0, (s.0, drawn.1))

  abbrev pub remember : String → String → PatchResult → Tool PatchResult
  remember key digest result s = (ok result, (insert s.0 key (digest, result), s.1))

  unfoldable pub write_replacement : FilePath → FileReplacement → Tool (Unit {0})
  write_replacement path replacement = do
    partial ← temporary path
    _ ← io (host.create_new partial)
    _ ← io (host.write_all partial replacement.content)
    _ ← io (host.sync_all partial)
    _ ← remove_existing path
    io (host.rename partial path)

  abbrev pub result_of : FileReplacement → Option String → PatchResult
  result_of replacement previous = record {
    path = replacement.path;
    previous_sha256 = previous;
    sha256 = host.sha256_hex (replacement.content ∷ []);
    bytes_written = len replacement.content;
    idempotent_replay = false;
  }

  -- A key that was not used yet.
  unfoldable pub apply_new :
      PreparedWorkspace → String → FileReplacement → FilePath → Tool PatchResult
  apply_new workspace key replacement path = do
    previous ← read_previous path
    _ ← checked (check_previous previous replacement.expected_sha256)
    _ ← prepare_parent workspace path
    _ ← write_replacement path replacement
    remember key (replacement_digest replacement) (result_of replacement previous)

  abbrev pub recall :
      PreparedWorkspace
      → String
      → FileReplacement
      → FilePath
      → Option (String × PatchResult)
      → Tool PatchResult
  recall workspace key replacement path none = apply_new workspace key replacement path
  recall workspace key replacement path (some (previous_input, previous_result)) =
      if not (str_eq previous_input (replacement_digest replacement))
      then checked (
          failure "HARNESS_IDEMPOTENCY_CONFLICT"
            "idempotency key was reused with different patch input")
      else pure (replayed previous_result)

  unfoldable pub apply_replacement : PreparedWorkspace → String → FileReplacement → Tool PatchResult
  apply_replacement workspace key replacement = do
    _ ← checked (validate_idempotency_key key)
    _ ← checked (validate_content nul replacement)
    path ←
        (λ s. (resolve_for_write (host.disk s.1) workspace (host.components replacement.path), s))
    (λ s. recall workspace key replacement path (get s.0 key) s)
