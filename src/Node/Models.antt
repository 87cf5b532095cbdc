-- ===== src/Node/Models.antt =====
-- What a node says of a model, for the scheduler: its context, its class, tasks and roles,
-- agents/node/src/main.rs with the types of agents/node/src/contracts.rs.
pub mod Members
pub mod Profile
pub mod Limits
pub mod Tests
use mundusx.Prelude.{
  ℕ, min, String, Option, none, some, List, [], ◌∷◌, ◌++◌, Bool, true, false, not, ◌&&◌, ◌||◌, any,
  contains_text, to_ascii_lowercase, str_eq, ltb, leb, ◌==◌, if◌then◌else◌,
}
use mundusx.Prelude.Sorting.{sort_by_key, dedup}
use mundusx.Node.Capacity.{capacity_rank}

pub data NodeRole : Type 0 where
  chat coding vision embedding tool_use chunk_analysis reducer synthesizer batch : NodeRole

abbrev pub as_str : NodeRole → String
as_str chat = "chat"
as_str coding = "coding"
as_str vision = "vision"
as_str embedding = "embedding"
as_str tool_use = "tool_use"
as_str chunk_analysis = "chunk_analysis"
as_str reducer = "reducer"
as_str synthesizer = "synthesizer"
as_str batch = "batch"

-- The derived equality: the constructors' places.
abbrev pub discriminant : NodeRole → ℕ
discriminant chat = 0
discriminant coding = 1
discriminant vision = 2
discriminant embedding = 3
discriminant tool_use = 4
discriminant chunk_analysis = 5
discriminant reducer = 6
discriminant synthesizer = 7
discriminant batch = 8

abbrev pub role_eq : NodeRole → NodeRole → Bool
role_eq a b = discriminant a == discriminant b

pub record ModelCapability : Type 0 where
  pub name : String
  pub path : Option String
  pub format : Option String
  pub quantization : Option String
  pub size_bytes : Option ℕ
  pub estimated_vram_mb : Option ℕ
  pub compatibility : Option String
  pub compatibility_reason : Option String
  pub active : Bool
  pub warm : Bool
  pub context_tokens : Option ℕ
  pub max_output_tokens : Option ℕ
  pub output_capacity_mode : Option String
  pub capacity_class : String
  pub roles : List NodeRole
  pub task_capabilities : List String
  pub languages : List String
  pub specialties : List String
  pub supports_tools : Bool
  pub supports_structured_output : Bool

-- `a.or(b)`
abbrev pub or_option : {A : Type 0} → Option A → Option A → Option A
or_option none b = b
or_option (some a) b = some a

-- Whether the text has one of the parts.
abbrev pub has_any : String → List String → Bool
has_any text parts = any (contains_text text) parts

unfoldable pub default_context_tokens_for_model : ModelCapability → ℕ
default_context_tokens_for_model model =
    let lower = to_ascii_lowercase model.name in
    if has_any lower ("32b" ∷ "14b" ∷ "coder" ∷ [])
    then 16384
    else if has_any lower ("7b" ∷ "8b" ∷ "3b" ∷ [])
    then 8192
    else 4096

-- The class that the lower-case name gives.
unfoldable pub inferred_class : String → String → String
inferred_class lower node_capacity_class =
    if has_any lower ("70b" ∷ "72b" ∷ "405b" ∷ [])
    then "synthesis"
    else if has_any lower ("30b" ∷ "32b" ∷ "34b" ∷ [])
    then "heavy"
    else if has_any lower ("13b" ∷ "14b" ∷ [])
    then "performance"
    else if has_any lower ("7b" ∷ "8b" ∷ [])
    then "standard"
    else if has_any lower ("3b" ∷ "1b" ∷ "0.5b" ∷ "tiny" ∷ "mini" ∷ [])
    then "micro"
    else node_capacity_class

unfoldable pub model_capacity_class : ModelCapability → String → String
model_capacity_class model node_capacity_class =
    let inferred = inferred_class (to_ascii_lowercase model.name) node_capacity_class in
    if ltb (capacity_rank node_capacity_class) (capacity_rank inferred)
    then node_capacity_class
    else inferred

abbrev pub capacity_limit : String → ℕ
capacity_limit class =
    if str_eq class "synthesis" || str_eq class "server"
    then 16384
    else if str_eq class "heavy"
    then 8192
    else if str_eq class "performance"
    then 4096
    else 2048

abbrev pub limit_of_context : ℕ → Option ℕ → ℕ
limit_of_context limit none = limit
limit_of_context limit (some context) = min limit context

abbrev pub is_context_window : Option String → Bool
is_context_window none = false
is_context_window (some mode) = str_eq mode "context_window"

-- `max_output_tokens`, from the mode, what the model has, its class and its context
abbrev pub output_tokens : Option String → Option ℕ → String → Option ℕ → Option ℕ
output_tokens mode max_output class context =
    if is_context_window mode
    then none
    else or_option max_output (some (limit_of_context (capacity_limit class) context))

-- `declared`
abbrev pub declared : List String → List String → String → Bool
declared cluster_capabilities specialties needle =
    any (λ value. contains_text (to_ascii_lowercase value) needle)
      (cluster_capabilities ++ specialties)

-- `if c { list.push(…) }` and `if c { list.extend(…) }`
unfoldable pub when : {A : Type 0} → Bool → List A → List A
when true xs = xs
when false xs = []

-- The tasks before they are sorted: the rank, whether the name or the capabilities say code, and
-- whether the name says embeddings; the tools, then what is declared or supported.
unfoldable pub tasks_of : ℕ → Bool → Bool → Bool → Bool → Bool → Bool → List String
tasks_of rank codes embed_name tools visual embeds structured =
    ("chat" ∷ "math" ∷ [])
    ++ when (leb (capacity_rank "standard") rank) ("reasoning" ∷ [])
    ++ when (not embed_name || codes) ("small_coding" ∷ [])
    ++ when (leb (capacity_rank "performance") rank) ("medium_coding" ∷ "research" ∷ [])
    ++ when (leb (capacity_rank "heavy") rank) ("large_coding" ∷ "synthesizer" ∷ [])
    ++ when tools ("tool_use" ∷ [])
    ++ when visual ("vision" ∷ [])
    ++ when embeds ("embedding" ∷ [])
    ++ when structured ("structured_output" ∷ [])

unfoldable pub roles_of : ℕ → Bool → Bool → Bool → Bool → Bool → List NodeRole
roles_of rank codes embed_name tools visual embeds =
    (chat ∷ batch ∷ chunk_analysis ∷ [])
    ++ when (not embed_name || codes) (coding ∷ [])
    ++ when (leb (capacity_rank "performance") rank) (reducer ∷ [])
    ++ when (leb (capacity_rank "heavy") rank) (synthesizer ∷ [])
    ++ when tools (tool_use ∷ [])
    ++ when visual (vision ∷ [])
    ++ when embeds (embedding ∷ [])

unfoldable pub enrich_model_capability :
    ModelCapability → String → List String → Option ℕ → Bool → ModelCapability
enrich_model_capability model node_capacity_class cluster_capabilities cluster_context_tokens
      cluster_supports_tools =
    let lower = to_ascii_lowercase model.name in
    let class = model_capacity_class model node_capacity_class in
    let context =
      or_option (or_option cluster_context_tokens model.context_tokens)
        (some (default_context_tokens_for_model model)) in
    let says = declared cluster_capabilities model.specialties in
    let rank = capacity_rank class in
    let codes = contains_text lower "code" || contains_text lower "coder" || says "code" in
    let embed_name = contains_text lower "embed" in
    let tools = model.supports_tools || (cluster_supports_tools || says "tool") in
    let embeds = says "embed" || embed_name in
    let structured = model.supports_structured_output || says "structured" || says "json" in
    record model {
      capacity_class = class;
      context_tokens = context;
      max_output_tokens =
          output_tokens model.output_capacity_mode model.max_output_tokens class context;
      supports_tools = tools;
      supports_structured_output = structured;
      task_capabilities = dedup str_eq (
          sort_by_key (λ t. t)
            (tasks_of rank codes embed_name tools (says "vision") embeds structured));
      roles =
          dedup role_eq
            (sort_by_key as_str (roles_of rank codes embed_name tools (says "vision") embeds));
    }
