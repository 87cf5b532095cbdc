-- ===== src/Agent/Tool.antt =====
-- Tools, approvals and the registry, packages/agent-core/src/tool.rs. A tool acts on a world `W`.
-- `ToolContext`, which the tools read, is the type `C`.
pub mod Laws
use mundusx.Prelude.{
  ◌≡◌, String, push_str, Option, none, some, List, map, Bool, true, false, not, Result, ok, err,
  is_blank, is_some, if◌then◌else◌,
}
use mundusx.Prelude.Maps.{Map, get, insert, values}

pub record ToolDefinition (V : Type 0) : Type 0 where
  pub name : String
  pub description : String
  pub input_schema : V
  pub read_only : Bool

-- The trait `Tool`. A `ToolError` is its message.
pub record Tool (V C W : Type 0) : Type 0 where
  pub definition : ToolDefinition V
  pub execute : V → C → W → Result String V × W

pub record ApprovalRequest (V : Type 0) : Type 0 where
  pub call_id : String
  pub tool : String
  pub arguments : V
  pub reason : String

pub record ApprovalDecision : Type 0 where
  pub approved : Bool
  pub reason : String

-- `StaticApprovalProvider { allow_mutations }`
unfoldable pub static_decide : {V : Type 0} → Bool → ApprovalRequest V → ApprovalDecision
static_decide allow_mutations request = record {
  approved = allow_mutations;
  reason =
      if allow_mutations
      then push_str request.tool " was explicitly allowed for this request"
      else push_str request.tool " requires explicit mutation approval";
}

-- `ToolRegistry`, by its field.
abbrev pub ToolRegistry : Type 0 → Type 0 → Type 0 → Type 0
ToolRegistry V C W = Map (Tool V C W)

-- The test by `is_some_and` that `AgentRunner::run` makes on a definition.
abbrev pub mutating : {V : Type 0} → Option (ToolDefinition V) → Bool
mutating none = false
mutating (some d) = not d.read_only

module _ {V C W : Type 0} where
  -- A duplicate is reported after `BTreeMap::insert` has replaced the old tool.
  unfoldable pub register :
      ToolRegistry V C W → Tool V C W → Result String (Unit {0}) × ToolRegistry V C W
  register tools tool =
      let name = tool.definition.name in
      if is_blank name
      then (err "tool name cannot be empty", tools)
      else if is_some (get tools name)
      then (err (push_str "tool " (push_str name " is already registered")), insert tools name tool)
      else (ok tt, insert tools name tool)

  unfoldable pub definitions : ToolRegistry V C W → List (ToolDefinition V)
  definitions tools = map (λ tool. tool.definition) (values tools)

  abbrev definition_of : Option (Tool V C W) → Option (ToolDefinition V)
  definition_of none = none
  definition_of (some tool) = some tool.definition

  unfoldable pub definition : ToolRegistry V C W → String → Option (ToolDefinition V)
  definition tools name = definition_of (get tools name)

  abbrev execute_found : String → V → C → Option (Tool V C W) → W → Result String V × W
  execute_found name arguments context none w = (err (push_str "unknown tool: " name), w)
  execute_found name arguments context (some tool) w = tool.execute arguments context w

  unfoldable pub execute : ToolRegistry V C W → String → V → C → W → Result String V × W
  execute tools name arguments context w = execute_found name arguments context (get tools name) w
