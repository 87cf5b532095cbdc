-- ===== src/Harness/Loop/Repeats.antt =====
-- What accepting a result does to the record of repeated digests, harness_loop.rs.
use mundusx.Prelude.{
  ℕ, ◌+◌, ◌≤◌, ◌<◌, ◌≡◌, refl, sym, ap, ◌∙◌, subst, ◌⊎◌, inl, inr, String, Option, none, some, List,
  [], ◌∷◌, true, false, arith, u64_max, add_u32, add_u64, str_eq, eq_iff, some-injective, leb, ltb,
  Bool-cases, if◌then◌else◌, All,
}
use mundusx.Harness.Loop.{
  LoopBudgets, LoopState, LoopOutcome, ToolRequest, ToolResult, Next, stop, again, terminal,
  same_progress, is_sha256, result_invalid, note_progress, validation_failed, count_repair,
  accept_result,
}
use mundusx.Harness.Loop.Calls.{counted, Stalled, Accepted, failed-Stalled, code-Stalled}

module _ {V : Type 0} where
  -- How many results before the last one, without a gap, have its digest.
  abbrev pub repeats : List (ToolResult V) → ℕ
  repeats [] = 0
  repeats (t ∷ []) = 0
  repeats (t ∷ u ∷ ts) =
      let before = repeats (u ∷ ts) in
      if str_eq u.progress_sha256 t.progress_sha256 then before + 1 else 0

  repeats-step : (t : ToolResult V) (ts : List (ToolResult V)) → repeats (t ∷ ts) ≤ repeats ts + 1
  repeats-step t [] = omega arith
  repeats-step t (u ∷ ts) = ground arith

  abbrev pub newest : List (ToolResult V) → Option String
  newest [] = none
  newest (t ∷ ts) = some t.progress_sha256

  abbrev pub total_bytes : List (ToolResult V) → ℕ
  total_bytes [] = 0
  total_bytes (t ∷ ts) = total_bytes ts + t.output_bytes

  -- What the state has of the results.
  pub record Counted (b : LoopBudgets) (ts : List (ToolResult V)) (s : LoopState V) : Type 0 where
    pub progress_noted : s.last_progress ≡ newest ts
    pub repeats_counted : s.repeated_progress ≡ repeats ts
    pub not_stalled : repeats ts < 3
    pub digests : All (λ t. is_sha256 t.progress_sha256 ≡ true) ts
    pub bytes_counted : s.outcome.output_bytes ≡ total_bytes ts
    pub bytes_le : total_bytes ts ≤ b.max_output_bytes

same_progress-eq : (o : Option String) (d : String) → same_progress o d ≡ true → o ≡ some d
same_progress-eq none d h = cc
same_progress-eq (some last) d h = ap some ((eq_iff last d).0 h)

module _ {V : Type 0} (b : LoopBudgets) (s : LoopState V) (t : ToolResult V) where
  note_progress-last : (note_progress s t).last_progress ≡ some t.progress_sha256
  unfolding note_progress
  note_progress-last = ground (arith, same_progress-eq s.last_progress t.progress_sha256)

  note_progress-repeats :
      (ts : List (ToolResult V))
      → s.last_progress ≡ newest ts
      → s.repeated_progress ≡ repeats ts
      → repeats ts < 3
      → (note_progress s t).repeated_progress ≡ repeats (t ∷ ts)
  unfolding note_progress
  note_progress-repeats [] last n small = rw last refl
  note_progress-repeats (u ∷ ts) last n small =
      elim (Bool-cases (str_eq u.progress_sha256 t.progress_sha256)) [
        | inl same ↦ rw (last, same) (ground arith)
        | inr other ↦ rw (last, other) refl
      ]

module _ {V : Type 0} (b : LoopBudgets) (s : LoopState V) (r : ToolRequest V)
    (t : ToolResult V) where
  result_invalid-false :
      result_invalid b s.outcome r t ≡ false
      → (is_sha256 t.progress_sha256 ≡ true)
        × (s.outcome.output_bytes + t.output_bytes ≤ b.max_output_bytes
            ⊎ (u64_max ≤ b.max_output_bytes))
  unfolding result_invalid
  result_invalid-false h = (ground arith, ground arith)

  pub accept_result-again :
      (s' : LoopState V)
      → accept_result b s r t ≡ again s'
      → (result_invalid b s.outcome r t ≡ false)
        × (s'.outcome.output_bytes ≡ add_u64 s.outcome.output_bytes t.output_bytes)
        × (s'.last_progress ≡ (note_progress s t).last_progress)
        × (s'.repeated_progress ≡ (note_progress s t).repeated_progress)
        × (s'.repeated_progress < 3)
        × (s'.outcome.last_result ≡ some t)
  unfolding accept_result count_repair
  accept_result-again s' e =
      (ground arith, ground arith, ground arith, ground arith, ground arith, ground arith)

  -- What an outcome that stopped for want of progress says.
  abbrev StalledBy : Next V → Type 0
  StalledBy (again s') = Unit
  StalledBy (stop o) =
      Stalled o → (o.last_result ≡ some t) × (2 < (note_progress s t).repeated_progress)

  count_repair-StalledBy : (k : LoopState V) → StalledBy (count_repair b k r t)
  unfolding count_repair
  count_repair-StalledBy k = elim (Bool-cases (validation_failed r t)) [
    | inr passed ↦ rw passed tt
    | inl failed ↦
        rw failed
          (elim (Bool-cases (ltb b.max_repair_attempts (add_u32 k.outcome.repair_attempts 1))) [
            | inl over ↦ rw over (λ q. absurd (
                code-Stalled
                  (record (k.outcome) {
                    repair_attempts = add_u32 k.outcome.repair_attempts 1;
                    last_result = some t;
                  })
                  "HARNESS_RETRY_EXHAUSTED" refl q))
            | inr left ↦ rw left tt
          ])
  ]

  accept_result-StalledBy : StalledBy (accept_result b s r t)
  unfolding accept_result
  accept_result-StalledBy = elim (Bool-cases (result_invalid b s.outcome r t)) [
    | inl invalid ↦
        rw invalid (λ q. absurd (failed-Stalled s.outcome "HARNESS_TOOL_RESULT_INVALID" q))
    | inr valid ↦ rw valid (elim (Bool-cases (leb 3 (note_progress s t).repeated_progress)) [
      | inl stalled ↦ rw stalled (unfold terminal in λ q. (refl, ground (arith, stalled)))
      | inr moving ↦ rw moving (count_repair-StalledBy _)
    ])
  ]

module _ {V : Type 0} (b : LoopBudgets) (s : LoopState V) (ts : List (ToolResult V))
    (known : Counted b ts s) where
  pub again-Counted :
      (s' : LoopState V) (t : ToolResult V)
      → b.max_output_bytes < u64_max
      → Accepted b s (again s')
      → s'.outcome.last_result ≡ some t
      → Counted b (t ∷ ts) s'
  again-Counted s' t small (r, u, e, lt) last =
      let (valid, bytes, progress, count, few, kept) = accept_result-again b (counted s) r u s' e in
      let same : u ≡ t = some-injective u t (sym kept ∙ last) in
      subst (λ v. Counted b (v ∷ ts) s') same
        (let checked = result_invalid-false b (counted s) r u valid in
          let repeated =
            note_progress-repeats b (counted s) u ts known.progress_noted known.repeats_counted
              known.not_stalled in
          let before = known.bytes_counted in
          record {
            progress_noted = progress ∙ note_progress-last b (counted s) u;
            repeats_counted = count ∙ repeated;
            not_stalled = subst (λ n. n < 3) (count ∙ repeated) few;
            digests = (checked.0, known.digests);
            bytes_counted = ground (arith, bytes, before, checked.1, small);
            bytes_le = ground (arith, before, checked.1, small);
          })

  pub stop-repeats :
      (o : LoopOutcome V)
      → Accepted b s (stop o)
      → Stalled o
      → (t : ToolResult V) × (o.last_result ≡ some t) × (repeats (t ∷ ts) ≡ 3)
  stop-repeats o (r, u, e, lt) stalled =
      let (last, most) =
        subst (StalledBy b (counted s) r u) e (accept_result-StalledBy b (counted s) r u) stalled in
      let repeated =
        note_progress-repeats b (counted s) u ts known.progress_noted known.repeats_counted
          known.not_stalled in
      (u, last, three u (subst (λ n. 2 < n) repeated most))
    where
      three : (u : ToolResult V) → 2 < repeats (u ∷ ts) → repeats (u ∷ ts) ≡ 3
      three u most = omega (arith, repeats-step u ts, known.not_stalled)
