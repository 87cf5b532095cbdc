-- ===== src/Agent/Runner/Texts.antt =====
-- The texts that packages/agent-core/src/runtime.rs builds and reads: the prompt, the transcript, the
-- model's reply up to `serde_json`, and the transcript of a stored conversation.
use mundusx.Prelude.{
  String, push_str, Option, none, some, List, [], ◌∷◌, Result, ok, err, is_nil, is_empty,
  starts_with, trim, trim_start_text, trim_end_text, if◌then◌else◌,
}
use mundusx.Agent.Event.{
  AgentEvent, AgentEventKind, user_message_received, final_response_produced, checkpoint_saved,
}
use mundusx.Agent.Runner.Types.{Json, ModelAction, AgentRunError, protocol}

-- `join(separator)`
unfoldable pub join : String → List String → String
join separator [] = ""
join separator (x ∷ []) = x
join separator (x ∷ y ∷ rest) = push_str x (push_str separator (join separator (y ∷ rest)))

abbrev pub instructions : String
instructions =
    "You are the local MundusX agent. Work only through the tools listed below. Return exactly one JSON object and no markdown. To use a tool return {\"type\":\"tool_call\",\"call_id\":\"unique-id\",\"tool\":\"tool.name\",\"arguments\":{}}. When the task is complete return {\"type\":\"final\",\"content\":\"answer\"}.\n\nTools:\n"

unfoldable pub system_prompt : String → List String → String
system_prompt tool_text additional =
    let prompt = push_str instructions tool_text in
    if is_nil additional
    then prompt
    else push_str prompt (push_str "\n\nSelected skills:\n" (join "\n\n" additional))

unfoldable pub first_transcript : String → String → String
first_transcript prior user_input =
    let head = if is_empty prior then prior else push_str prior "\n\n" in
    push_str head (push_str "USER:\n" user_input)

-- What a tool's result adds to the transcript.
unfoldable pub with_result : String → String → String → String → String
with_result transcript raw call_id payload = push_str transcript (
    push_str "\n\nASSISTANT_ACTION:\n"
      (push_str raw (push_str "\n\nTOOL_RESULT " (push_str call_id (push_str ":\n" payload)))))

-- The text between the fences of `parse_action`.
unfoldable pub unfenced : String → String
unfenced trimmed =
    if starts_with trimmed "```"
    then trim (trim_end_text "```" (trim_start_text "```" (trim_start_text "```json" trimmed)))
    else trimmed

abbrev pub parse_error : {A : Type 0} → String → Result String A → Result AgentRunError A
parse_error trimmed (ok a) = ok a
parse_error trimmed (err e) = err (protocol (push_str e (push_str "; response was " trimmed)))

unfoldable pub parse_action : {V : Type 0} → Json V → String → Result AgentRunError (ModelAction V)
parse_action json raw =
    let trimmed = trim raw in parse_error trimmed (json.action_from_str (unfenced trimmed))

abbrev pub protocol_error : {A : Type 0} → Result String A → Result AgentRunError A
protocol_error (ok a) = ok a
protocol_error (err e) = err (protocol e)

-- `conversation_transcript`
abbrev remembered : {V : Type 0} → AgentEventKind V → Option String
remembered (user_message_received content) = some (push_str "USER:\n" content)
remembered (final_response_produced content) = some (push_str "ASSISTANT:\n" content)
remembered (checkpoint_saved summary) = some (push_str "CHECKPOINT:\n" summary)
remembered _ = none

abbrev cons_some : Option String → List String → List String
cons_some none rest = rest
cons_some (some x) rest = x ∷ rest

unfoldable pub conversation_parts : {V : Type 0} → List (AgentEvent V) → List String
conversation_parts [] = []
conversation_parts (event ∷ events) = cons_some (remembered event.kind) (conversation_parts events)

unfoldable pub conversation_transcript : {V : Type 0} → List (AgentEvent V) → String
unfolding conversation_parts join
conversation_transcript events = join "\n\n" (conversation_parts events)
