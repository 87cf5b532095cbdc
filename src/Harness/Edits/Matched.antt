-- ===== src/Harness/Edits/Matched.antt =====
-- A new edit is made on the file that the model read, agents/node/src/harness_tools.rs.
use Prim.Native.Char.{Char}
use mundusx.Prelude.{
  ◌≡◌, refl, sym, ap, ◌∙◌, subst, String, Option, none, some, ok, str_eq, eq_iff, Bool-cases, inl,
  inr, to_ascii_lowercase,
}
use mundusx.Prelude.Maps.{get}
use mundusx.Agent.Effect.{Ends, returns, stops, and_then}
use mundusx.Harness.Paths.{FilePath, PreparedWorkspace, resolve_for_write}
use mundusx.Harness.Edits.{
  FileReplacement, PatchResult, Applied, FileRead, bytes, not_found, unreadable, Host,
  validate_idempotency_key, validate_content, check_previous, read_result, prepare_parent,
  write_replacement, apply_new, recall, apply_replacement,
}
use mundusx.Harness.Edits.Replay.{anything, same_state}

-- What was read, what the model expects of it and what the result says that it was: a file with the
-- digest that the model gave, in capitals or not, or no file where the model gave none.
abbrev pub Unchanged : FileRead → Option String → Option String → Type 0
Unchanged (bytes sha256) (some expected) previous =
    (to_ascii_lowercase sha256 ≡ to_ascii_lowercase expected) × (previous ≡ some sha256)
Unchanged (bytes sha256) none previous = ⊥
Unchanged not_found (some expected) previous = ⊥
Unchanged not_found none previous = previous ≡ none
Unchanged (unreadable message) expected previous = ⊥

-- The same, before the model's digest was looked at.
Saw : FileRead → Option String → Type 0
Saw (bytes sha256) previous = previous ≡ some sha256
Saw not_found previous = previous ≡ none
Saw (unreadable message) previous = ⊥

check_previous-Unchanged :
    (r : FileRead) (previous expected : Option String)
    → Saw r previous
    → check_previous previous expected ≡ ok tt
    → Unchanged r expected previous
unfolding Saw
check_previous-Unchanged (bytes sha256) none expected saw c = cc
check_previous-Unchanged (bytes sha256) (some actual) none saw c = cc
check_previous-Unchanged (bytes sha256) (some actual) (some expected) saw c =
    let same : actual ≡ sha256 = cc in
    elim (Bool-cases (str_eq (to_ascii_lowercase actual) (to_ascii_lowercase expected))) [
      | inl equal ↦ (ap to_ascii_lowercase (sym same) ∙ (eq_iff _ _).0 equal, saw)
      | inr different ↦ cc
    ]
check_previous-Unchanged not_found none none saw c = refl
check_previous-Unchanged not_found none (some expected) saw c = cc
check_previous-Unchanged not_found (some actual) expected saw c = cc
check_previous-Unchanged (unreadable message) previous expected saw c = saw

module _ {W : Type 0} (host : Host W) (nul : Char) (workspace : PreparedWorkspace) (key : String)
    (replacement : FileReplacement) where
  -- The result of an edit that was made in the world `w`, on what the model read.
  abbrev pub Matched : W → PatchResult → Type 0
  Matched w result =
      (path : FilePath) × (resolve_for_write (host.disk w) workspace
          (host.components replacement.path)
        ≡ ok path)
      × Unchanged (host.read path w).0 replacement.expected_sha256 result.previous_sha256

  read_result-Saw :
      (applied : Applied) (r : FileRead × W)
      → Ends (λ e s'. Unit {0}) (λ previous s'. Saw r.0 previous) (read_result host nul applied r)
  unfolding Saw
  read_result-Saw applied (bytes sha256, w) = returns refl
  read_result-Saw applied (not_found, w) = returns refl
  read_result-Saw applied (unreadable e, w) = stops tt

  apply_new-Matched :
      (path : FilePath) (s : Applied × W)
      → resolve_for_write (host.disk s.1) workspace (host.components replacement.path) ≡ ok path
      → Ends
          (λ e s'. Unit {0})
          (λ result s'. Matched s.1 result)
          (apply_new host nul workspace key replacement path s)
  unfolding apply_new
  apply_new-Matched path s resolved =
      and_then (read_result-Saw s.0 (host.read path s.1)) λ previous s1 saw.
        and_then (same_state (check_previous previous replacement.expected_sha256) s1) λ u s2 match.
          and_then (anything (prepare_parent host nul workspace path s2)) λ r s3 q3.
            and_then (anything (write_replacement host nul path replacement s3)) λ v s4 q4.
              returns (
                path,
                resolved,
                check_previous-Unchanged (host.read path s.1).0 previous _ saw match.1,
              )

  -- An edit under a new key that returns a result was made on the file that it was meant for: what
  -- was read at its path was a file with the digest that the model gave, up to the case of its
  -- letters, or no file, and then the model gave no digest. The result has the digest that was read.
  pub apply_replacement-Matched :
      (s : Applied × W)
      → get s.0 key ≡ none
      → Ends
          (λ e s'. Unit {0})
          (λ result s'. Matched s.1 result)
          (apply_replacement host nul workspace key replacement s)
  unfolding apply_replacement
  apply_replacement-Matched s unused =
      and_then (same_state (validate_idempotency_key key) s) λ u s1 q1.
        and_then (same_state (validate_content nul replacement) s1) λ v s2 q2.
          and_then
            (same_state
              (resolve_for_write (host.disk s2.1) workspace (host.components replacement.path)) s2)
            λ path s3 q3.
              let same = q3.0 ∙ q2.0 ∙ q1.0 in
              let resolved =
                subst
                  (λ t.
                    resolve_for_write (host.disk t.1) workspace (host.components replacement.path)
                    ≡ ok path)
                  (sym q3.0) q3.1 in
              subst
                (λ t.
                  Ends (λ e s'. Unit {0}) (λ result s'. Matched t.1 result)
                    (recall host nul workspace key replacement path (get s3.0 key) s3))
                same
                (subst
                  (λ o.
                    Ends (λ e s'. Unit {0}) (λ result s'. Matched s3.1 result)
                      (recall host nul workspace key replacement path o s3))
                  (sym (ap (λ t. get t.0 key) same ∙ unused)) (apply_new-Matched path s3 resolved))
