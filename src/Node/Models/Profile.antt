-- ===== src/Node/Models/Profile.antt =====
-- What the scheduler can rely on in an enriched model, agents/node/src/main.rs.
use mundusx.Prelude.{
  ℕ, ◌≡◌, refl, sym, ap, ◌∙◌, String, Option, List, Bool, any, str_eq, leb, ◌==◌, if◌then◌else◌,
  arith, Bool-cases, inl, inr, eq_iff,
}
use mundusx.Prelude.Sorting.{sort_by_key, dedup, Ascending, sort_by_key-Sorted, dedup-Ascending}
use mundusx.Node.Capacity.{capacity_rank}
use mundusx.Node.Models.{
  NodeRole, as_str, discriminant, role_eq, chat, coding, vision, embedding, tool_use,
  chunk_analysis, reducer, synthesizer, batch, ModelCapability, enrich_model_capability,
}
use mundusx.Node.Models.Members.{
  in_tasks-tool_use, in_tasks-structured_output, in_tasks-small_coding, in_tasks-research,
  in_tasks-synthesizer, in_tasks-large_coding, in_tasks-vision, in_tasks-embedding,
  in_roles-tool_use, in_roles-coding, in_roles-reducer, in_roles-synthesizer, in_roles-vision,
  in_roles-embedding,
}

abbrev pub has_task : ModelCapability → String → Bool
has_task model task = any (str_eq task) model.task_capabilities

abbrev pub has_role : ModelCapability → NodeRole → Bool
has_role model role = any (role_eq role) model.roles

-- The place of the role with this name.
place : String → ℕ
place name =
    if str_eq name "chat"
    then 0
    else if str_eq name "coding"
    then 1
    else if str_eq name "vision"
    then 2
    else if str_eq name "embedding"
    then 3
    else if str_eq name "tool_use"
    then 4
    else if str_eq name "chunk_analysis"
    then 5
    else if str_eq name "reducer"
    then 6
    else if str_eq name "synthesizer"
    then 7
    else 8

place-as_str : (r : NodeRole) → place (as_str r) ≡ discriminant r
unfolding place
place-as_str chat = refl
place-as_str coding = refl
place-as_str vision = refl
place-as_str embedding = refl
place-as_str tool_use = refl
place-as_str chunk_analysis = refl
place-as_str reducer = refl
place-as_str synthesizer = refl
place-as_str batch = refl

as_str-injective : (x y : NodeRole) → as_str x ≡ as_str y → discriminant x ≡ discriminant y
as_str-injective x y same = sym (place-as_str x) ∙ ap place same ∙ place-as_str y

-- The name at the place.
name_at : ℕ → String
name_at n =
    if n == 0
    then "chat"
    else if n == 1
    then "coding"
    else if n == 2
    then "vision"
    else if n == 3
    then "embedding"
    else if n == 4
    then "tool_use"
    else if n == 5
    then "chunk_analysis"
    else if n == 6
    then "reducer"
    else if n == 7
    then "synthesizer"
    else "batch"

name_at-discriminant : (r : NodeRole) → name_at (discriminant r) ≡ as_str r
unfolding name_at
name_at-discriminant chat = refl
name_at-discriminant coding = refl
name_at-discriminant vision = refl
name_at-discriminant embedding = refl
name_at-discriminant tool_use = refl
name_at-discriminant chunk_analysis = refl
name_at-discriminant reducer = refl
name_at-discriminant synthesizer = refl
name_at-discriminant batch = refl

role_eq-as_str : (x y : NodeRole) → role_eq x y ≡ str_eq (as_str x) (as_str y)
role_eq-as_str x y = elim (Bool-cases (str_eq (as_str x) (as_str y))) [
  | inl same ↦ ground (arith, same, as_str-injective x y ((eq_iff (as_str x) (as_str y)).0 same))
  | inr different ↦ elim (Bool-cases (role_eq x y)) [
    | inl hit ↦ absurd (
        ground (
          arith,
          different,
          (eq_iff (as_str x) (as_str y)).1 (
              sym (name_at-discriminant x)
              ∙ ap name_at (ground (arith, hit))
              ∙ name_at-discriminant y),
        ))
    | inr miss ↦ miss ∙ sym different
  ]
]

-- What an enriched model's tasks and roles say: each of them what the model's class and flags
-- say, roles and tasks the same, and every list in strict order.
abbrev pub Consistent : ModelCapability → Type 0
Consistent m =
    (has_task m "tool_use" ≡ m.supports_tools)
    × (has_role m tool_use ≡ m.supports_tools)
    × (has_task m "structured_output" ≡ m.supports_structured_output)
    × (has_task m "research" ≡ leb 3 (capacity_rank m.capacity_class))
    × (has_role m reducer ≡ leb 3 (capacity_rank m.capacity_class))
    × (has_task m "synthesizer" ≡ leb 4 (capacity_rank m.capacity_class))
    × (has_task m "large_coding" ≡ leb 4 (capacity_rank m.capacity_class))
    × (has_role m synthesizer ≡ leb 4 (capacity_rank m.capacity_class))
    × (has_role m coding ≡ has_task m "small_coding")
    × (has_role m vision ≡ has_task m "vision")
    × (has_role m embedding ≡ has_task m "embedding")
    × Ascending (λ t. t) m.task_capabilities
    × Ascending as_str m.roles

tasks-Ascending :
    (tasks : List String) → Ascending (λ t. t) (dedup str_eq (sort_by_key (λ t. t) tasks))
tasks-Ascending tasks =
    dedup-Ascending (λ t. t) str_eq (λ x y. refl) (sort_by_key (λ t. t) tasks)
      (sort_by_key-Sorted (λ t. t) tasks)

pub roles-Ascending :
    (roles : List NodeRole) → Ascending as_str (dedup role_eq (sort_by_key as_str roles))
roles-Ascending roles =
    dedup-Ascending as_str role_eq role_eq-as_str (sort_by_key as_str roles)
      (sort_by_key-Sorted as_str roles)

-- An enriched model says "tool_use", "structured_output", "research", "synthesizer" and
-- "large_coding" exactly when its flags, or the rank of its class, allow it; it has the role of
-- each task that has one; and its tasks and its roles are in strict order, without repetitions.
pub enrich_model_capability-Consistent :
    (model : ModelCapability) (class : String) (capabilities : List String) (context : Option ℕ)
    (tools : Bool)
    → Consistent (enrich_model_capability model class capabilities context tools)
unfolding enrich_model_capability
enrich_model_capability-Consistent model class capabilities context tools = (
  in_tasks-tool_use _ _ _ _ _ _ _,
  in_roles-tool_use _ _ _ _ _ _,
  in_tasks-structured_output _ _ _ _ _ _ _,
  in_tasks-research _ _ _ _ _ _ _,
  in_roles-reducer _ _ _ _ _ _,
  in_tasks-synthesizer _ _ _ _ _ _ _,
  in_tasks-large_coding _ _ _ _ _ _ _,
  in_roles-synthesizer _ _ _ _ _ _,
  in_roles-coding _ _ _ _ _ _ ∙ sym (in_tasks-small_coding _ _ _ _ _ _ _),
  in_roles-vision _ _ _ _ _ _ ∙ sym (in_tasks-vision _ _ _ _ _ _ _),
  in_roles-embedding _ _ _ _ _ _ ∙ sym (in_tasks-embedding _ _ _ _ _ _ _),
  tasks-Ascending _,
  roles-Ascending _,
)
