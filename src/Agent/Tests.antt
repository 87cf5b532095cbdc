-- ===== src/Agent/Tests.antt =====
-- Evaluations of packages/agent-core/src/{context,tool,runtime}.rs and the theorems at concrete inputs.
use mundusx.Prelude.{
  ℕ, ◌+◌, ◌≡◌, ◌≢◌, ◌↔◌, refl, String, none, some, [], ◌∷◌, Bool, true, false, ok, is_blank, str_eq,
  if◌then◌else◌,
}
use mundusx.Prelude.Maps.{get}
use mundusx.Agent.Context.{compact_transcript, compact_transcript-IsWindow, IsWindow}
use mundusx.Agent.Event.{
  AgentEvent, AgentEventKind, user_message_received, model_responded, final_response_produced,
}
use mundusx.Agent.Tool.{Tool, ToolRegistry, register, execute}
use mundusx.Agent.Tool.Laws.{register-get, register-ok_iff, register_duplicate}
use mundusx.Agent.Runner.{conversation_transcript}

compact_transcript-IsWindow_example :
    IsWindow "USER:\nhello" 1024 (compact_transcript "USER:\nhello" 100)
compact_transcript-IsWindow_example = compact_transcript-IsWindow "USER:\nhello" 100

abbrev tool : String → Bool → Tool (Unit {0}) (Unit {0}) ℕ
tool name read_only = record {
  definition = record { name = name; description = ""; input_schema = tt; read_only = read_only };
  execute = λ v c n. (ok tt, n + 1);
}

abbrev one_tool : ToolRegistry (Unit {0}) (Unit {0}) ℕ
one_tool = ("echo", tool "echo" true) ∷ []

register-get_example : get (register one_tool (tool "echo" false)).1 "echo" ≡ (
    if is_blank "echo"
    then get one_tool "echo"
    else if str_eq "echo" "echo"
    then some (tool "echo" false)
    else get one_tool "echo")
register-get_example = register-get one_tool (tool "echo" false) "echo"

register-ok_iff_example :
    ((register one_tool (tool "edit" false)).0 ≡ ok tt)
    ↔ ((is_blank "edit" ≡ false) × (get one_tool "edit" ≡ none))
register-ok_iff_example = register-ok_iff one_tool (tool "edit" false)

register_duplicate_example :
    ((register one_tool (tool "echo" false)).0 ≢ ok tt)
    × (execute (register one_tool (tool "echo" false)).1 "echo" tt tt 0 ≡ (ok tt, 1))
unfolding is_blank get
register_duplicate_example =
    register_duplicate one_tool (tool "echo" false) (tool "echo" true) tt tt 0 refl refl

abbrev event : ℕ → AgentEventKind (Unit {0}) → AgentEvent (Unit {0})
event n kind = record { id = "id"; session_id = "s"; sequence = n; recorded_at_ms = 0; kind = kind }

reconstructs_only_durable_conversation :
    conversation_transcript (
      event 1 (user_message_received "first")
      ∷ event 2 (model_responded (some "internal protocol"))
      ∷ event 3 (final_response_produced "answer")
      ∷ [])
    ≡ "USER:\nfirst\n\nASSISTANT:\nanswer"
unfolding conversation_transcript
reconstructs_only_durable_conversation = refl
