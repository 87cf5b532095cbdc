-- ===== src/Agent/Runner/Tests.antt =====
-- A scripted provider, a store in memory and a tool that changes state: runs of `AgentRunner::run`
-- of packages/agent-core/src/runtime.rs on them, and the theorem at such a run.
use mundusx.Prelude.{
  ℕ, ◌≡◌, refl, String, none, some, List, [], ◌∷◌, Bool, true, false, Result, ok, err, str_eq,
  if◌then◌else◌, add_u64, Bool-cases, inl, inr, eq_iff, subst, sym, trim,
}
use mundusx.Prelude.Maps.{get}
use mundusx.Agent.Effect.{Ends, bound, map_err}
use mundusx.Agent.Event.{AgentEvent}
use mundusx.Agent.Tool.{Tool, ToolRegistry, definition, mutating, execute}
use mundusx.Agent.Runner.{
  Json, Host, AgentRunner, ModelAction, tool_call, final, run, new_runner, turn, act, log, run_tool,
  complete_tool, parse_action, ask_approval, unfenced, first_transcript, with_result,
}
use mundusx.Agent.Context.{compact_transcript}
use mundusx.Agent.Runner.Protocol.{Phase, idle, asked, decided, started, Follows, Monitors}
use mundusx.Agent.Runner.States.{Stops, Finished}
use mundusx.Agent.Runner.Turns.{run-Ends}

-- What the world has seen, the latest first: an event stored, an approval given or refused, a run.
data Entry : Type 0 where
  stored : AgentEvent (Unit {0}) → Entry
  answered : (call_id tool : String) → Bool → Entry
  ran : (tool : String) → Entry

record World : Type 0 where
  replies : List String
  entries : List Entry

abbrev reply : World → List String → Result String String × World
reply w [] = (err "no reply", w)
reply w (r ∷ rest) = (ok r, record w { replies = rest })

abbrev host : Host (Unit {0}) (Unit {0}) World
host = record {
  provider_name = "test";
  model_name = "scripted";
  complete = λ r w. reply w w.replies;
  append = λ e w. (ok tt, record w { entries = stored e ∷ w.entries });
  approval = some (λ r w. (
    record { approved = true; reason = "" },
    record w { entries = answered r.call_id r.tool true ∷ w.entries },
  ));
  cancellation = none;
  new_id = λ w. ("id", w);
  unix_time_ms = λ w. (0, w);
}

abbrev read_action : String → Result String (ModelAction (Unit {0}))
read_action text =
    if str_eq text "edit"
    then ok (tool_call "one" "edit" tt)
    else if str_eq text "done"
    then ok (final "done")
    else err "expected value"

abbrev json : Json (Unit {0})
json = record {
  action_from_str = read_action;
  to_string = λ v. ok "null";
  definitions_to_string_pretty = λ ds. ok "[]";
  error_object = λ m. tt;
}

abbrev edit : Tool (Unit {0}) (Unit {0}) World
edit = record {
  definition = record { name = "edit"; description = "Edit"; input_schema = tt; read_only = false };
  execute = λ v c w. (ok tt, record w { entries = ran "edit" ∷ w.entries });
}

abbrev tools : ToolRegistry (Unit {0}) (Unit {0}) World
tools = ("edit", edit) ∷ []

abbrev script : World
script = record { replies = "edit" ∷ "done" ∷ []; entries = [] }

abbrev mutates : String → Bool
mutates t = mutating (definition tools t)

-- The entries, as the protocol allows them from the sequence number `n0`: an approval is answered when
-- it was asked for, and a tool runs when its call has started.
data Trace (n0 : ℕ) : List Entry → Phase → ℕ → Type 0 where
  begins : Trace n0 [] idle n0
  stores :
      {p q : Phase} {es : List Entry} (e : AgentEvent (Unit {0}))
      → Trace n0 es p e.sequence
      → Follows mutates p e.kind q
      → Trace n0 (stored e ∷ es) q (add_u64 e.sequence 1)
  answers :
      {es : List Entry} {n : ℕ} (c t : String) (b : Bool)
      → Trace n0 es (asked c t) n
      → Trace n0 (answered c t b ∷ es) (decided c t b) n
  runs :
      {es : List Entry} {n : ℕ} (c t : String)
      → Trace n0 es (started c t) n
      → Trace n0 (ran t ∷ es) (started c t) n

abbrev Traced : Phase → ℕ → World → Type 0
Traced p n w = Trace 1 w.entries p n

reply-Traced :
    (p : Phase) (n : ℕ) (w : World) (rs : List String) → Traced p n w → Traced p n (reply w rs).1
reply-Traced p n w [] h = h
reply-Traced p n w (r ∷ rest) h = h

execute-Traced :
    (c t : String) (n : ℕ) (w : World)
    → Traced (started c t) n w
    → Traced (started c t) n (execute tools t tt tt w).1
unfolding execute get
execute-Traced c t n w h = elim (Bool-cases (str_eq "edit" t)) [
  | inl hit ↦ rw hit (
      subst (λ x. Trace 1 (ran x ∷ w.entries) (started c t) n) (sym ((eq_iff "edit" t).0 hit))
        (runs c t h))
  | inr miss ↦ rw miss h
]

monitors : Monitors host tools tt "session" mutates Traced
monitors = record {
  new_id_keeps = λ p n w h. h;
  clock_keeps = λ p n w h. h;
  check_keeps = tt;
  decide_keeps = λ r n w h. answers r.call_id r.tool true h;
  complete_keeps = λ r n w h. reply-Traced _ n w w.replies h;
  append_moves = λ p q e w h s f. stores e h f;
  execute_keeps = λ c t v n w h. execute-Traced c t n w h;
}

abbrev runner : AgentRunner (Unit {0})
runner = new_runner tt

run-Ends_example :
    Ends
      (Stops runner Traced)
      (Finished runner Traced)
      (run json host tools runner tt "session" 1 "do it" "" script)
run-Ends_example =
    run-Ends json host tools runner tt "session" Traced monitors 1 "do it" "" script begins

-- What a run appended, by the numbers of its events.
abbrev numbers : List Entry → List ℕ
numbers [] = []
numbers (stored e ∷ es) = e.sequence ∷ numbers es
numbers (_ ∷ es) = 100 ∷ numbers es

-- The mutating call is proposed (3), approved (4, an answer, 5), started (6), run and completed (7).
approved_call :
    numbers (run json host tools runner tt "session" 1 "do it" "" script).1.entries
    ≡ 10 ∷ 9 ∷ 8 ∷ 7 ∷ 100 ∷ 6 ∷ 5 ∷ 100 ∷ 4 ∷ 3 ∷ 2 ∷ 1 ∷ []
unfolding run turn act ask_approval run_tool complete_tool log parse_action unfenced bound map_err
    compact_transcript first_transcript with_result trim definition get execute
approved_call = refl
