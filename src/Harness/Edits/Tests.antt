-- ===== src/Harness/Edits/Tests.antt =====
-- Edits at a concrete file system, whose files are kept by name and whose digest of a text is the
-- text, agents/node/src/harness_tools.rs.
use mundusx.Prelude.{
  ◌≡◌, refl, String, push_str, Option, none, some, List, [], ◌∷◌, false, ok, str_eq, if◌then◌else◌,
  is_some, all_chars, contains_char, to_ascii_lowercase, map_chars, any,
}
use mundusx.Prelude.Maps.{Map, get, insert, remove}
use mundusx.Agent.Effect.{bound, Ends}
use mundusx.Harness.Paths.{
  FilePath, normal, root_dir, missing, PreparedWorkspace, default_limits, normal_components,
  normalize_relative_path, path_starts_with, require_allowed_prefix, reject_from,
  reject_symlink_components, resolve_for_write,
}
use mundusx.Harness.Edits.{
  FileReplacement, PatchResult, FileRead, bytes, not_found, Host, validate_idempotency_key,
  validate_content, strip_path, replayed, prepare_parent, write_replacement, apply_new,
  apply_replacement,
}
use mundusx.Harness.Edits.Laws.{Kept, apply_replacement-top}
use mundusx.Harness.Edits.Matched.{Matched, apply_replacement-Matched}
use mundusx.Harness.Edits.Replay.{apply_replacement_again}

abbrev Files : Type 0
Files = Map String

abbrev name_of : FilePath → String
name_of [] = ""
name_of (root_dir ∷ path) = name_of path
name_of (normal name ∷ []) = name
name_of (c ∷ d ∷ path) = name_of (d ∷ path)
name_of (c ∷ []) = ""

abbrev read_option : Option String → FileRead
read_option none = not_found
read_option (some content) = bytes content

abbrev text_of : Option String → String
text_of none = ""
text_of (some content) = content

abbrev joined : List String → String
joined [] = ""
joined (t ∷ ts) = push_str t (joined ts)

abbrev split_path : String → FilePath
split_path path =
    if str_eq path "src/lib.rs" then normal "src" ∷ normal "lib.rs" ∷ [] else normal path ∷ []

abbrev host : Host Files
host = record {
  components = split_path;
  sha256_hex = joined;
  disk = λ w. record { symlink_metadata = λ p. missing; canonicalize = λ p. ok p };
  read = λ path w. (read_option (get w (name_of path)), w);
  create_dir_all = λ path w. (ok tt, w);
  temporary_for = λ path w. (normal "partial" ∷ [], w);
  create_new = λ path w. (ok tt, insert w (name_of path) "");
  write_all = λ path content w. (ok tt, insert w (name_of path) content);
  sync_all = λ path w. (ok tt, w);
  exists = λ path w. is_some (get w (name_of path));
  remove_file = λ path w. (ok tt, remove w (name_of path));
  rename = λ from into w.
      (ok tt, insert (remove w (name_of from)) (name_of into) (text_of (get w (name_of from))));
}

abbrev workspace : PreparedWorkspace
workspace = record {
  attempt_id = "a1";
  path = root_dir ∷ normal "work" ∷ [];
  base_revision = "0123456789012345678901234567890123456789";
  allowed_path_prefixes = [];
  limits = default_limits;
}

abbrev edit : FileReplacement
edit = record { path = "src/lib.rs"; expected_sha256 = some "OLD"; content = "new" }

abbrev files : Files
files = ("lib.rs", "old") ∷ []

abbrev done : PatchResult
done = record {
  path = "src/lib.rs";
  previous_sha256 = some "old";
  sha256 = "new";
  bytes_written = 3;
  idempotent_replay = false;
}

apply_replacement_test :
    apply_replacement host "\0" workspace "patch_1" edit ([], files)
    ≡ (ok done, (("patch_1", ("src/lib.rs\0OLD\0new", done)) ∷ [], ("lib.rs", "new") ∷ []))
unfolding apply_replacement bound validate_idempotency_key all_chars validate_content contains_char
    resolve_for_write normalize_relative_path normal_components require_allowed_prefix
    reject_symlink_components reject_from get apply_new to_ascii_lowercase prepare_parent strip_path
    write_replacement path_starts_with map_chars any insert remove
apply_replacement_test = refl

apply_replacement_again_example :
    apply_replacement host "\0" workspace "patch_1" edit
      (("patch_1", ("src/lib.rs\0OLD\0new", done)) ∷ [], ("lib.rs", "changed") ∷ [])
    ≡ (
      ok (replayed done),
      (("patch_1", ("src/lib.rs\0OLD\0new", done)) ∷ [], ("lib.rs", "changed") ∷ []),
    )
unfolding resolve_for_write normalize_relative_path normal_components require_allowed_prefix
    reject_symlink_components reject_from
apply_replacement_again_example =
    apply_replacement_again host "\0" workspace "patch_1" edit ([], files) _
      (("lib.rs", "changed") ∷ []) done _ apply_replacement_test refl

abbrev top_edit : FileReplacement
top_edit = record { path = "README.md"; expected_sha256 = none; content = "new" }

apply_replacement-top_example :
    Kept host "\0" []
      (λ result. ⊥)
      (apply_replacement host "\0" workspace "patch_1" top_edit ([], []))
unfolding get
apply_replacement-top_example =
    apply_replacement-top host "\0" workspace "patch_1" "README.md" top_edit ([], []) refl refl

apply_replacement-Matched_example :
    Ends
      (λ e s. Unit {0})
      (λ result s. Matched host "\0" workspace "patch_1" edit files result)
      (apply_replacement host "\0" workspace "patch_1" edit ([], files))
unfolding get
apply_replacement-Matched_example =
    apply_replacement-Matched host "\0" workspace "patch_1" edit ([], files) refl
