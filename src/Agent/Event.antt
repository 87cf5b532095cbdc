-- ===== src/Agent/Event.antt =====
-- Sessions, events and the errors of the event store: packages/agent-core/src/event.rs and the
-- type `StoreError` of store.rs. Ids are the text of their UUIDs. `V` is `serde_json::Value`.
use mundusx.Prelude.{ℕ, String, Option, Bool}

pub record AgentSession : Type 0 where
  pub id : String
  pub created_at_ms : ℕ
  pub working_directory : String
  pub title : Option String

pub data AgentEventKind (V : Type 0) : Type 0 where
  session_created : AgentSession → AgentEventKind V
  user_message_received : (content : String) → AgentEventKind V
  model_requested : (provider model : String) → AgentEventKind V
  model_responded : (content : Option String) → AgentEventKind V
  tool_proposed : (call_id tool : String) → (arguments : V) → AgentEventKind V
  approval_requested : (call_id reason : String) → AgentEventKind V
  approval_resolved : (call_id : String) → (approved : Bool) → AgentEventKind V
  tool_started : (call_id : String) → AgentEventKind V
  tool_completed : (call_id : String) → (result : V) → (is_error : Bool) → AgentEventKind V
  checkpoint_saved : (summary : String) → AgentEventKind V
  context_compacted : (original_chars retained_chars : ℕ) → AgentEventKind V
  skill_loaded : (name : String) → AgentEventKind V
  task_delegated : (task_id destination : String) → AgentEventKind V
  task_completed : (task_id : String) → AgentEventKind V
  session_cancelled : AgentEventKind V
  final_response_produced : (content : String) → AgentEventKind V

pub record AgentEvent (V : Type 0) : Type 0 where
  pub id : String
  pub session_id : String
  pub sequence : ℕ
  pub recorded_at_ms : ℕ
  pub kind : AgentEventKind V

pub data StoreError : Type 0 where
  database serialization : (message : String) → StoreError
  duplicate_sequence : (session_id : String) → (sequence : ℕ) → StoreError
