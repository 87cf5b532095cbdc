-- ===== src/Harness/Edits/Replay.antt =====
-- An edit that is sent again under its key, agents/node/src/harness_tools.rs.
use Prim.Native.Char.{Char}
use text.Mathlib.TextPositions.{eq_refl}
use mundusx.Prelude.{
  ◌≡◌, refl, ap, ◌∙◌, subst, String, Option, none, some, Result, ok, err, str_eq, eq_iff,
  Bool-cases, inl, inr,
}
use mundusx.Prelude.Maps.{get, get-insert}
use mundusx.Agent.Effect.{bound, Ends, returns, stops, and_then}
use mundusx.Harness.Paths.{FilePath, HarnessError, PreparedWorkspace, resolve_for_write}
use mundusx.Harness.Edits.{
  FileReplacement, PatchResult, Applied, Host, validate_idempotency_key, validate_content,
  check_previous, replayed, checked, replacement_digest, read_previous, prepare_parent,
  write_replacement, remember, result_of, apply_new, recall, apply_replacement,
}

module _ {W : Type 0} where
  -- What a call that returned a value satisfies.
  Returned :
      {A : Type 0} → (A → Applied × W → Type 0) → Result HarnessError A × (Applied × W) → Type 0
  Returned Q (ok a, s) = Q a s
  Returned Q (err e, s) = Unit

  Ends-Returned :
      {A : Type 0} (Q : A → Applied × W → Type 0) (x : Result HarnessError A × (Applied × W))
      → Ends (λ e s. Unit {0}) Q x
      → Returned Q x
  unfolding Returned
  Ends-Returned Q (ok a, s) (returns q) = q
  Ends-Returned Q (err e, s) (stops u) = tt

  pub anything :
      {A : Type 0} (x : Result HarnessError A × (Applied × W))
      → Ends (λ e s. Unit {0}) (λ a s. Unit {0}) x
  anything (ok a, s) = returns tt
  anything (err e, s) = stops tt

  pub same_state :
      {A : Type 0} (r : Result HarnessError A) (s : Applied × W)
      → Ends (λ e s'. Unit {0}) (λ a s'. (s' ≡ s) × (r ≡ ok a)) (r, s)
  same_state (ok a) s = returns (refl, refl)
  same_state (err e) s = stops tt

module _ {W : Type 0} (host : Host W) (nul : Char) (workspace : PreparedWorkspace) (key : String)
    (replacement : FileReplacement) where
  -- The edit is recorded under its key, with this result but for its flag.
  abbrev Recorded : PatchResult → Applied × W → Type 0
  Recorded result s =
      (stored : PatchResult) × (get s.0 key
        ≡ some (replacement_digest host nul replacement, stored))
      × (replayed stored ≡ replayed result)

  remember-Recorded :
      (result : PatchResult) (s : Applied × W)
      → Ends
          (λ e s'. Unit {0})
          Recorded
          (remember host nul key (replacement_digest host nul replacement) result s)
  remember-Recorded result s =
      returns (result, get-insert s.0 key key _ ∙ rw (eq_refl key) refl, refl)

  apply_new-Recorded :
      (path : FilePath) (s : Applied × W)
      → Ends (λ e s'. Unit {0}) Recorded (apply_new host nul workspace key replacement path s)
  unfolding apply_new
  apply_new-Recorded path s = and_then (anything (read_previous host nul path s)) λ previous s1 q1.
      and_then
        (anything (checked host nul (check_previous previous replacement.expected_sha256) s1))
        λ u s2 q2. and_then (anything (prepare_parent host nul workspace path s2)) λ r s3 q3.
          and_then (anything (write_replacement host nul path replacement s3))
            λ v s4 q4. remember-Recorded (result_of host nul replacement previous) s4

  recall-Recorded :
      (path : FilePath) (entry : Option (String × PatchResult)) (s : Applied × W)
      → get s.0 key ≡ entry
      → Ends (λ e s'. Unit {0}) Recorded (recall host nul workspace key replacement path entry s)
  recall-Recorded path none s e = apply_new-Recorded path s
  recall-Recorded path (some (input, stored)) s e =
      elim (Bool-cases (str_eq input (replacement_digest host nul replacement))) [
        | inl same ↦ rw same (
            returns (
              stored,
              e
                  ∙ ap (λ d. some (d, stored))
                      ((eq_iff input (replacement_digest host nul replacement)).0 same),
              refl,
            ))
        | inr different ↦ rw different (stops tt)
      ]

  abbrev Accepted : PatchResult → Applied × W → Type 0
  Accepted result s =
      (validate_idempotency_key key ≡ ok tt)
      × (validate_content nul replacement ≡ ok tt)
      × Recorded result s

  with_checks :
      (validate_idempotency_key key ≡ ok tt)
      → (validate_content nul replacement ≡ ok tt)
      → {x : Result HarnessError PatchResult × (Applied × W)} → Ends (λ e s'. Unit {0}) Recorded x
      → Ends (λ e s'. Unit {0}) Accepted x
  with_checks k c (returns r) = returns (k, c, r)
  with_checks k c (stops u) = stops u

  apply_replacement-Accepted :
      (s : Applied × W)
      → Ends (λ e s'. Unit {0}) Accepted (apply_replacement host nul workspace key replacement s)
  unfolding apply_replacement
  apply_replacement-Accepted s = and_then (same_state (validate_idempotency_key key) s) λ u s1 q1.
      and_then (same_state (validate_content nul replacement) s1) λ v s2 q2.
        and_then
          (anything
            (resolve_for_write (host.disk s2.1) workspace (host.components replacement.path), s2))
          λ path s3 q3. with_checks q1.1 q2.1 (recall-Recorded path (get s3.0 key) s3 refl)

  -- An edit that succeeded is sent again under its key, in any later state of the file system in which
  -- its path may still be written to: it returns the result of the first time, marked as a replay, and
  -- changes neither the runner's record nor the files.
  pub apply_replacement_again :
      (s s' : Applied × W) (later : W) (result : PatchResult) (path : FilePath)
      → apply_replacement host nul workspace key replacement s ≡ (ok result, s')
      → resolve_for_write (host.disk later) workspace (host.components replacement.path) ≡ ok path
      → apply_replacement host nul workspace key replacement (s'.0, later)
        ≡ (ok (replayed result), (s'.0, later))
  unfolding apply_replacement bound Returned
  apply_replacement_again s s' later result path e resolved =
      let (k, c, (stored, found, same)) =
        subst (Returned Accepted) e (Ends-Returned Accepted _ (apply_replacement-Accepted s)) in
      rw (k, c, resolved, found, eq_refl (replacement_digest host nul replacement))
        (ap (λ r. (ok r, (s'.0, later))) same)
