-- ===== src/Node/Models/Limits.antt =====
-- The limits of an enriched model, and enriching it twice, agents/node/src/main.rs.
use mundusx.Prelude.{
  is_some, ℕ, ◌≤◌, ◌≡◌, refl, String, Option, none, some, List, Bool, true, false, not, ◌||◌,
  contains_text, to_ascii_lowercase, str_eq, ltb, if◌then◌else◌, arith, Bool-cases, inl, inr,
}
use mundusx.Prelude.Sorting.{sort_by_key, dedup}
use mundusx.Node.Capacity.{capacity_rank}
use mundusx.Node.Models.{
  as_str, role_eq, ModelCapability, or_option, default_context_tokens_for_model, tasks_of, roles_of,
  inferred_class, model_capacity_class, is_context_window, limit_of_context, capacity_limit,
  declared, enrich_model_capability,
}

-- An enriched model, from what may change in it.
abbrev built :
    ModelCapability → String → List String → Option ℕ → Option ℕ → Bool → Bool → ModelCapability
built model class capabilities context output tools structured =
    let lower = to_ascii_lowercase model.name in
    let says = declared capabilities model.specialties in
    let codes = contains_text lower "code" || contains_text lower "coder" || says "code" in
    let embed_name = contains_text lower "embed" in
    let embeds = says "embed" || embed_name in
    record model {
      capacity_class = class;
      context_tokens = context;
      max_output_tokens = output;
      supports_tools = tools;
      supports_structured_output = structured;
      task_capabilities = dedup str_eq (
          sort_by_key (λ t. t)
            (tasks_of (capacity_rank class) codes embed_name tools (says "vision") embeds
              structured));
      roles = dedup role_eq (
          sort_by_key as_str
            (roles_of (capacity_rank class) codes embed_name tools (says "vision") embeds));
    }

context_again :
    (cluster own : Option ℕ) (d : ℕ)
    → or_option (or_option cluster (or_option (or_option cluster own) (some d))) (some d)
      ≡ or_option (or_option cluster own) (some d)
context_again none none d = refl
context_again none (some n) d = refl
context_again (some n) own d = refl

kept_output :
    (window : Bool) (output : Option ℕ) (a b : ℕ)
    → (if window
        then none
        else or_option (if window then none else or_option output (some a)) (some b))
      ≡ (if window then none else or_option output (some a))
kept_output true output a b = refl
kept_output false none a b = refl
kept_output false (some n) a b = refl

or_again : (a b : Bool) → ((a || b) || b) ≡ (a || b)
or_again true b = refl
or_again false true = refl
or_again false false = refl

or_again_two : (a b c : Bool) → ((a || b || c) || b || c) ≡ (a || b || c)
or_again_two true b c = refl
or_again_two false true c = refl
or_again_two false false true = refl
or_again_two false false false = refl

-- Enriching an enriched model again, with the same class, capabilities and context, changes nothing.
pub enrich_model_capability_twice :
    (model : ModelCapability) (class : String) (capabilities : List String) (context : Option ℕ)
    (tools : Bool)
    → enrich_model_capability
        (enrich_model_capability model class capabilities context tools)
        class
        capabilities
        context
        tools
      ≡ enrich_model_capability model class capabilities context tools
unfolding enrich_model_capability model_capacity_class default_context_tokens_for_model
enrich_model_capability_twice model class capabilities context tools =
    let class' = model_capacity_class model class in
    let d = some (default_context_tokens_for_model model) in
    let first = or_option (or_option context model.context_tokens) d in
    let second = or_option (or_option context first) d in
    λ i.
      built model (model_capacity_class model class) capabilities
        (context_again context model.context_tokens (default_context_tokens_for_model model) i)
        (kept_output (is_context_window model.output_capacity_mode) model.max_output_tokens
          (limit_of_context (capacity_limit class') first)
          (limit_of_context (capacity_limit class') second) i)
        (or_again model.supports_tools (tools || declared capabilities model.specialties "tool") i)
        (or_again_two model.supports_structured_output
          (declared capabilities model.specialties "structured")
          (declared capabilities model.specialties "json") i)

-- Whether there is no number, or one of at most the bound.
abbrev pub Within : Option ℕ → Option ℕ → Type 0
Within none bound = Unit
Within (some n) none = ⊥
Within (some n) (some bound) = n ≤ bound

model_capacity_class-AtMost :
    (model : ModelCapability) (class : String)
    → capacity_rank (model_capacity_class model class) ≤ capacity_rank class
unfolding model_capacity_class
model_capacity_class-AtMost model class =
    elim (Bool-cases (
      ltb (capacity_rank class)
        (capacity_rank (inferred_class (to_ascii_lowercase model.name) class)))) [
          | inl above ↦ rw above (omega arith)
          | inr below ↦ rw below (ground (arith, below))
        ]

limit_of_context_le :
    (class : String) (context : Option ℕ) → limit_of_context (capacity_limit class) context ≤ 16384
limit_of_context_le class none = ground arith
limit_of_context_le class (some n) = ground arith

limit_of_context-Within :
    (limit : ℕ) (context : Option ℕ) (d : ℕ)
    → Within
        (some (limit_of_context limit (or_option context (some d))))
        (or_option context (some d))
limit_of_context-Within limit none d = omega arith
limit_of_context-Within limit (some n) d = omega arith

has_context : (a : Option ℕ) (d : ℕ) → is_some (or_option a (some d)) ≡ true
has_context none d = refl
has_context (some n) d = refl

-- The output limit that the model declared, the one that it has now, and its context.
abbrev pub Output : Option ℕ → Option ℕ → Option ℕ → Type 0
Output said none context = Unit
Output none (some n) context = Within (some n) context × (n ≤ 16384)
Output (some k) (some n) context = n ≡ k

or_option-Output :
    (window : Bool) (said context : Option ℕ) (n : ℕ)
    → Within (some n) context
    → n ≤ 16384
    → (is_some (if window then none else or_option said (some n)) ≡ not window)
      × Output said (if window then none else or_option said (some n)) context
or_option-Output true said context n w le = (refl, tt)
or_option-Output false none context n w le = (refl, (w, le))
or_option-Output false (some k) context n w le = (refl, refl)

-- What an enriched model's limits are.
abbrev pub Limited : String → ModelCapability → ModelCapability → Type 0
Limited class model m =
    (capacity_rank m.capacity_class ≤ capacity_rank class)
    × (is_some m.context_tokens ≡ true)
    × (is_some m.max_output_tokens ≡ not (is_context_window model.output_capacity_mode))
    × Output model.max_output_tokens m.max_output_tokens m.context_tokens

-- An enriched model's class does not rank above the node's, and it has a context. It has an output
-- limit exactly when its output is not said to be bound by the context window: the limit that it
-- declared, whatever the context is, or else one within the context and within 16384 tokens.
pub enrich_model_capability-Limited :
    (model : ModelCapability) (class : String) (capabilities : List String) (context : Option ℕ)
    (tools : Bool)
    → Limited class model (enrich_model_capability model class capabilities context tools)
unfolding enrich_model_capability model_capacity_class default_context_tokens_for_model
enrich_model_capability-Limited model class capabilities context tools =
    let class' = model_capacity_class model class in
    let window = is_context_window model.output_capacity_mode in
    let d = default_context_tokens_for_model model in
    let own = or_option context model.context_tokens in
    let limits =
      or_option-Output window model.max_output_tokens _ _
        (limit_of_context-Within (capacity_limit class') own d)
        (limit_of_context_le class' (or_option own (some d))) in
    (model_capacity_class-AtMost model class, has_context own d, limits.0, limits.1)
