-- ===== src/Node/Models/Tests.antt =====
-- Enriched models at concrete inputs, agents/node/src/main.rs.
use mundusx.Prelude.{◌≡◌, refl, none, some, [], ◌∷◌, true, false, any, to_ascii_lowercase, trim}
use mundusx.Prelude.Sorting.{insert_by_key, sort_by_key, dedup}
use mundusx.Node.Capacity.{capacity_rank}
use mundusx.Node.Models.{
  ModelCapability, when, tasks_of, inferred_class, model_capacity_class,
  default_context_tokens_for_model, enrich_model_capability,
}
use mundusx.Node.Models.Profile.{Consistent, enrich_model_capability-Consistent}
use mundusx.Node.Models.Limits.{
  Limited, enrich_model_capability-Limited, enrich_model_capability_twice,
}

abbrev coder : ModelCapability
coder = record {
  name = "Qwen2.5-Coder-14B";
  path = none;
  format = none;
  quantization = none;
  size_bytes = none;
  estimated_vram_mb = none;
  compatibility = none;
  compatibility_reason = none;
  active = true;
  warm = false;
  context_tokens = none;
  max_output_tokens = none;
  output_capacity_mode = none;
  capacity_class = "";
  roles = [];
  task_capabilities = [];
  languages = [];
  specialties = "Tools" ∷ [];
  supports_tools = false;
  supports_structured_output = false;
}

abbrev enriched : ModelCapability
unfolding enrich_model_capability
enriched = enrich_model_capability coder "heavy" [] none false

enriched_tasks_test :
    enriched.task_capabilities
    ≡ "chat" ∷ "math" ∷ "medium_coding" ∷ "reasoning" ∷ "research" ∷ "small_coding" ∷ "tool_use"
      ∷ []
unfolding enriched dedup sort_by_key tasks_of insert_by_key when capacity_rank to_ascii_lowercase
    trim model_capacity_class inferred_class any
enriched_tasks_test = refl

enriched_class_test : enriched.capacity_class ≡ "performance"
unfolding enriched model_capacity_class capacity_rank to_ascii_lowercase trim inferred_class any
enriched_class_test = refl

enriched_output_test : enriched.max_output_tokens ≡ some 4096
unfolding enriched model_capacity_class capacity_rank to_ascii_lowercase trim inferred_class any
    default_context_tokens_for_model
enriched_output_test = refl

enrich_model_capability-Consistent_example :
    Consistent (enrich_model_capability coder "heavy" ("json" ∷ []) (some 4096) true)
enrich_model_capability-Consistent_example =
    enrich_model_capability-Consistent coder "heavy" ("json" ∷ []) (some 4096) true

enrich_model_capability-Limited_example :
    Limited "heavy" coder (enrich_model_capability coder "heavy" [] none false)
enrich_model_capability-Limited_example =
    enrich_model_capability-Limited coder "heavy" [] none false

enrich_model_capability_twice_example :
    enrich_model_capability
      (enrich_model_capability coder "heavy" [] none false)
      "heavy"
      []
      none
      false
    ≡ enrich_model_capability coder "heavy" [] none false
enrich_model_capability_twice_example = enrich_model_capability_twice coder "heavy" [] none false
