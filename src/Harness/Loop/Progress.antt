-- ===== src/Harness/Loop/Progress.antt =====
-- The results that the rounds of harness_loop.rs accepted, and what the loop knows of them.
use mundusx.Prelude.{
  ℕ, zero, suc, ◌<◌, ◌≡◌, refl, subst, String, Option, none, some, List, [], ◌∷◌, arith, u64_max,
}
use mundusx.Harness.Loop.{
  LoopBudgets, Harness, LoopState, LoopOutcome, ToolResult, Next, stop, again, initial, iteration,
  continue_loop, run_loop, run_bounded_loop_observed,
}
use mundusx.Harness.Loop.Calls.{counted, Stalled, Explained, iteration-Explained}
use mundusx.Harness.Loop.Repeats.{
  repeats, Counted, accept_result-again, again-Counted, stop-repeats,
}

-- The loop, which began in the world `start`, is in the state `s` after rounds whose calls gave these
-- results, the last one first.
pub data Reached {V W : Type 0} (h : Harness V W) (b : LoopBudgets) (allowed : List String)
    (start : W) : List (ToolResult V) → LoopState V → W → Type 0 where
  begun : Reached h b allowed start [] initial start
  went_on :
      {ts : List (ToolResult V)} {s s' : LoopState V} {w w' : W} {t : ToolResult V}
      → Reached h b allowed start ts s w
      → iteration h b allowed s w ≡ (again s', w')
      → s'.outcome.last_result ≡ some t
      → Reached h b allowed start (t ∷ ts) s' w'

module _ {V W : Type 0} (h : Harness V W) (b : LoopBudgets) (allowed : List String)
    (start : W) where
  -- The outcome is that of a round after results of which, with its own, the last four have one digest.
  abbrev pub FourAlike : LoopOutcome V → W → Type 0
  FourAlike o w' =
      (ts : List (ToolResult V)) × (s : LoopState V) × (w : W) × (t : ToolResult V) × Reached h b
        allowed start ts s w
      × (iteration h b allowed s w ≡ (stop o, w'))
      × (o.last_result ≡ some t)
      × (repeats (t ∷ ts) ≡ 3)

module _ {V W : Type 0} (h : Harness V W) (b : LoopBudgets) (allowed : List String) (start : W)
    (small : b.max_output_bytes < u64_max) where
  -- In every round, when the byte budget is below `u64::MAX`, the loop knows of the results that it
  -- has accepted: the digest of the last one, and how many before it, without a gap, have the same
  -- digest, which are fewer than three; and its output bytes are the sum of the results', which is
  -- within the budget. Every digest is one of SHA-256.
  pub Reached-Counted :
      {ts : List (ToolResult V)} {s : LoopState V} {w : W}
      → Reached h b allowed start ts s w
      → Counted b ts s
  Reached-Counted begun = record {
    progress_noted = refl;
    repeats_counted = refl;
    not_stalled = omega arith;
    digests = tt;
    bytes_counted = refl;
    bytes_le = omega arith;
  }
  Reached-Counted (went_on {ts} {s} {s'} {w} {w'} {t} before e last) =
      again-Counted b s ts (Reached-Counted before) s' t small
        (subst (λ x. Explained b s x.0) e (iteration-Explained h b s allowed w)) last

  -- What the rounds from here on give, if they stop for want of progress.
  abbrev IfStalled : Option (LoopOutcome V × W) → Type 0
  IfStalled none = Unit
  IfStalled (some (o, w')) = Stalled o → FourAlike h b allowed start o w'

  run_loop-IfStalled :
      (fuel : ℕ) (ts : List (ToolResult V)) (s : LoopState V) (w : W)
      → Reached h b allowed start ts s w
      → IfStalled (run_loop h b allowed fuel s w)
  unfolding run_loop continue_loop
  run_loop-IfStalled zero ts s w before = tt
  run_loop-IfStalled (suc fuel) ts s w before =
      go (iteration h b allowed s w) refl (iteration-Explained h b s allowed w)
        (λ t s' w' later. run_loop-IfStalled fuel (t ∷ ts) s' w' later)
    where
      go :
          (x : Next V × W)
          → iteration h b allowed s w ≡ x
          → Explained b s x.0
          → ((t : ToolResult V) (s' : LoopState V) (w' : W)
              → Reached h b allowed start (t ∷ ts) s' w'
              → IfStalled (run_loop h b allowed fuel s' w'))
          → IfStalled (continue_loop h b allowed (run_loop h b allowed fuel) x)
      go (stop o, w') e explained rest = λ stalled.
          let (t, last, three) =
            stop-repeats b s ts (Reached-Counted before) o (explained stalled) stalled in
          (ts, s, w, t, before, e, last, three)
      go (again s', w') e (r, u, accepted, lt) rest =
          let kept = accept_result-again b (counted s) r u s' accepted in
          rest u s' w' (went_on before e kept.5)

  -- When the loop returns with the status "partial" and the code HARNESS_NO_PROGRESS, its last round's
  -- result, which the outcome keeps, is the fourth with one digest without a gap, of the results of
  -- its rounds from the start. The byte budget is below `u64::MAX`.
  pub loop-FourAlike :
      (o : LoopOutcome V) (w' : W)
      → run_bounded_loop_observed h b allowed start ≡ some (o, w')
      → o.status ≡ "partial"
      → o.code ≡ some "HARNESS_NO_PROGRESS"
      → FourAlike h b allowed start o w'
  unfolding run_bounded_loop_observed
  loop-FourAlike o w' e partial code =
      subst IfStalled e (run_loop-IfStalled (suc b.max_model_turns) [] initial start begun)
        (partial, code)
