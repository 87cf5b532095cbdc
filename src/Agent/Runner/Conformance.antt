-- ===== src/Agent/Runner/Conformance.antt =====
-- `AgentRunner::run` of packages/agent-core/src/runtime.rs keeps to the event protocol: one lemma for
-- each part of a turn, then the turns and the run.
use mundusx.Prelude.{
  ℕ, suc, ◌≡◌, refl, String, Option, none, some, Bool, true, false, Result, ok, err, add_u64,
  Bool-cases, inl, inr,
}
use mundusx.Agent.Effect.{map_err, Ends, returns, stops, and_then}
use mundusx.Agent.Event.{
  AgentEventKind, StoreError, session_cancelled, tool_started, tool_completed,
}
use mundusx.Agent.Tool.{
  ToolRegistry, ApprovalRequest, ApprovalDecision, definition, mutating, static_decide,
}
use mundusx.Agent.Context.{compact_transcript}
use mundusx.Agent.Runner.{
  Json, Host, AgentRunner, RunState, model, store, parse_error, protocol_error, log, stop_if, poll,
  compact, ask_model, complete_tool, run_tool, decide, resolve, ask_approval, propose,
}
use mundusx.Agent.Runner.Protocol.{
  Phase, idle, requested, responded, proposed, asked, decided, granted, denied, started, closed,
  Follows, compacts, cancels, requests, responds, proposes, asks, grants, denies, starts_free,
  starts_granted, refuses, completes, Monitors, CheckKeeps, DecideKeeps, Appended,
}
use mundusx.Agent.Runner.States.{Stops, At, FlowAt}

module _ {V F C W : Type 0} (json : Json V) (host : Host V F W) (tools : ToolRegistry V C W)
    (runner : AgentRunner F) (context : C) (session_id : String) (P : Phase → ℕ → W → Type 0)
    (mon : Monitors host tools context session_id (λ t. mutating (definition tools t)) P) where
  abbrev pub mutates : String → Bool
  mutates t = mutating (definition tools t)

  appended :
      (p q : Phase) (n : ℕ) (x : Result StoreError (Unit {0}) × W)
      → Appended P p q n x
      → Ends (Stops runner P) (λ (_ : Unit {0}) w. P q (add_u64 n 1) w) (map_err store x)
  unfolding map_err
  appended p q n (ok u, w) a = returns a
  appended p q n (err e, w) a = stops (p, n, a, tt)

  pub log-At :
      (p q : Phase) (c : ℕ) (s : RunState) (kind : AgentEventKind V) (w : W)
      → Follows mutates p kind q
      → At runner P p c s w
      → Ends
          (Stops runner P)
          (At runner P q c)
          (log json host tools runner context session_id s kind w)
  unfolding log
  log-At p q c s kind w f (h, below, within) =
      and_then
        (appended p q s.sequence _ (
          mon.append_moves p q _ _
            (mon.clock_keeps p s.sequence _ (mon.new_id_keeps p s.sequence w h)) refl f))
        (λ _ w' h'. returns (h', below, within))

  stop_if-At :
      (c : ℕ) (s : RunState) (b : Bool) (w : W)
      → At runner P idle c s w
      → Ends
          (Stops runner P)
          (At runner P idle c)
          (stop_if json host tools runner context session_id s b w)
  unfolding stop_if
  stop_if-At c s true w a =
      and_then (log-At idle closed c s session_cancelled w cancels a)
        (λ s' w' a'. stops (closed, s'.sequence, a'.0, refl))
  stop_if-At c s false w a = returns a

  pub poll-At :
      (c : ℕ) (s : RunState) (check : Option (W → Bool × W)) (w : W)
      → CheckKeeps P check
      → At runner P idle c s w
      → Ends
          (Stops runner P)
          (At runner P idle c)
          (poll json host tools runner context session_id s check w)
  unfolding poll
  poll-At c s none w keeps a = returns a
  poll-At c s (some check) w keeps a =
      stop_if-At c s (check w).0 (check w).1 (keeps s.sequence w a.0, a.1, a.2)

  pub compact-At :
      (c : ℕ) (s : RunState) (w : W)
      → At runner P idle c s w
      → Ends
          (Stops runner P)
          (At runner P idle c)
          (compact json host tools runner context session_id s w)
  unfolding compact
  compact-At c s w a =
      elim (Bool-cases (compact_transcript s.transcript runner.max_context_chars).compacted) [
        | inl long ↦
            rw long (and_then (log-At idle idle c s _ w (compacts _ _) a) (λ s' w' a'. returns a'))
        | inr short ↦ rw short (returns a)
      ]

  replied :
      (n : ℕ) (x : Result String String × W)
      → P requested n x.1
      → Ends (Stops runner P) (λ (_ : String) w. P requested n w) (map_err model x)
  unfolding map_err
  replied n (ok a, w) h = returns h
  replied n (err e, w) h = stops (requested, n, h, tt)

  pub ask_model-At :
      (prompt : String) (c : ℕ) (s : RunState) (w : W)
      → At runner P idle c s w
      → Ends
          (Stops runner P)
          (λ (s', raw) w'. At runner P responded c s' w')
          (ask_model json host tools runner context session_id prompt s w)
  unfolding ask_model
  ask_model-At prompt c s w a =
      and_then (log-At idle requested c s _ w (requests _ _) a) λ s1 w1 a1.
        and_then (replied s1.sequence _ (mon.complete_keeps _ s1.sequence w1 a1.0)) λ raw w2 h2.
          and_then (log-At requested responded c s1 _ w2 (responds _) (h2, a1.1, a1.2))
            λ s2 w3 a3. returns a3

  pub converted :
      {A : Type 0} (p : Phase) (n : ℕ) (x : Result String A) (w : W)
      → P p n w
      → Ends (Stops runner P) (λ (_ : A) w'. P p n w') (protocol_error x, w)
  converted p n (ok a) w h = returns h
  converted p n (err e) w h = stops (p, n, h, tt)

  pub parsed :
      {A : Type 0} (p : Phase) (n : ℕ) (t : String) (x : Result String A) (w : W)
      → P p n w
      → Ends (Stops runner P) (λ (_ : A) w'. P p n w') (parse_error t x, w)
  parsed p n t (ok a) w h = returns h
  parsed p n t (err e) w h = stops (p, n, h, tt)

  complete_tool-At :
      (p : Phase) (n : ℕ) (s : RunState) (raw c : String) (v : V) (e : Bool) (w : W)
      → Follows mutates p (tool_completed c v e) idle
      → At runner P p (suc n) s w
      → Ends
          (Stops runner P)
          (FlowAt runner P n)
          (complete_tool json host tools runner context session_id s raw c v e w)
  unfolding complete_tool
  complete_tool-At p n s raw c v e w f a = and_then (log-At p idle (suc n) s _ w f a) λ s1 w1 a1.
      and_then (converted idle s1.sequence (json.to_string v) w1 a1.0)
        λ text w2 h2. returns (h2, a1.1, a1.2)

  run_tool-At :
      (p : Phase) (n : ℕ) (s : RunState) (raw c t : String) (v : V) (w : W)
      → Follows {V = V} mutates p (tool_started c) (started c t)
      → At runner P p (suc n) s w
      → Ends
          (Stops runner P)
          (FlowAt runner P n)
          (run_tool json host tools runner context session_id s raw c t v w)
  unfolding run_tool
  run_tool-At p n s raw c t v w f a =
      and_then (log-At p (started c t) (suc n) s _ w f a) λ s1 w1 a1.
        and_then {Q = λ _ w2. P (started c t) s1.sequence w2}
          (returns (mon.execute_keeps c t v s1.sequence w1 a1.0))
          λ (payload, e) w2 h2.
            complete_tool-At (started c t) n s1 raw c payload e w2 (completes c t payload e)
              (h2, a1.1, a1.2)

  resolve-At :
      (n : ℕ) (s : RunState) (raw c t : String) (v : V) (approved : Bool) (reason : String) (w : W)
      → At runner P (decided c t approved) (suc n) s w
      → Ends
          (Stops runner P)
          (FlowAt runner P n)
          (resolve json host tools runner context session_id s raw c t v approved reason w)
  unfolding resolve
  resolve-At n s raw c t v true reason w a =
      and_then (log-At (decided c t true) (granted c t) (suc n) s _ w (grants c t) a)
        λ s1 w1 a1. run_tool-At (granted c t) n s1 raw c t v w1 (starts_granted c t) a1
  resolve-At n s raw c t v false reason w a =
      and_then (log-At (decided c t false) (denied c) (suc n) s _ w (denies c t) a)
        λ s1 w1 a1. complete_tool-At (denied c) n s1 raw c _ true w1 (refuses c _) a1

  -- The provider's answer, or the refusal, is the decision that the session is left with.
  decide-At :
      (approval : Option (ApprovalRequest V → W → ApprovalDecision × W)) (r : ApprovalRequest V)
      (n : ℕ) (w : W)
      → DecideKeeps P approval
      → P (asked r.call_id r.tool) n w
      → Ends
          (Stops runner P)
          (λ d w'. P (decided r.call_id r.tool d.approved) n w')
          (decide json host tools runner context session_id approval r w)
  unfolding decide static_decide
  decide-At none r n w keeps h = returns (keeps r.call_id r.tool n w h)
  decide-At (some provider) r n w keeps h = returns (keeps r n w h)

  ask_approval-At :
      (n : ℕ) (s : RunState) (raw c t : String) (v : V) (w : W)
      → mutates t ≡ true
      → At runner P (proposed c t) (suc n) s w
      → Ends
          (Stops runner P)
          (FlowAt runner P n)
          (ask_approval json host tools runner context session_id s raw c t v w)
  unfolding ask_approval
  ask_approval-At n s raw c t v w m a =
      and_then (log-At (proposed c t) (asked c t) (suc n) s _ w (asks c t _ m) a) λ s1 w1 a1.
        and_then (decide-At host.approval _ s1.sequence w1 mon.decide_keeps a1.0)
          λ d w2 h2. resolve-At n s1 raw c t v d.approved d.reason w2 (h2, a1.1, a1.2)

  pub propose-At :
      (n : ℕ) (s : RunState) (raw c t : String) (v : V) (w : W)
      → At runner P responded (suc n) s w
      → Ends
          (Stops runner P)
          (FlowAt runner P n)
          (propose json host tools runner context session_id s raw c t v w)
  unfolding propose
  propose-At n s raw c t v w a =
      and_then (log-At responded (proposed c t) (suc n) s _ w (proposes c t v) a) λ s1 w1 a1.
        elim (Bool-cases (mutates t)) [
          | inl m ↦ rw m (ask_approval-At n s1 raw c t v w1 m a1)
          | inr m ↦ rw m (run_tool-At (proposed c t) n s1 raw c t v w1 (starts_free c t m) a1)
        ]
