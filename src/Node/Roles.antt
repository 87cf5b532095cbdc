-- ===== src/Node/Roles.antt =====
-- The roles that a node offers without a model's own, agents/node/src/main.rs.
--
-- Of the worker's report and the advertisement, the fields are modelled that the roles depend on.
pub mod Grow
pub mod Tests
use mundusx.Prelude.{
  ℕ, String, Option, none, some, List, [], ◌∷◌, ◌++◌, Bool, true, false, ◌&&◌, ◌||◌, leb, str_eq,
  if◌then◌else◌,
}
use mundusx.Prelude.Sorting.{sort_by_key, dedup}
use mundusx.Node.Capacity.{Backend, auto, m, cuda, vulkan, vllm, value_or, capacity_rank}
use mundusx.Node.Models.{
  NodeRole, chat, coding, chunk_analysis, reducer, synthesizer, batch, as_str, role_eq, when,
}

pub record Offer : Type 0 where
  pub runtime_mode : String
  pub parallel_slots : ℕ
  pub ready_for_jobs : Bool
  pub capacity_class : String
  pub usable_vram_mb : Option ℕ

abbrev pub is_m : Backend → Bool
is_m m = true
is_m auto = false
is_m cuda = false
is_m vulkan = false
is_m vllm = false

abbrev pub has_accelerator : Backend → Bool
has_accelerator cuda = true
has_accelerator vulkan = true
has_accelerator m = true
has_accelerator auto = false
has_accelerator vllm = false

abbrev pub cluster_rank : Offer → ℕ
cluster_rank offer =
    if str_eq offer.runtime_mode "contributed-cluster"
    then capacity_rank offer.capacity_class
    else 0

abbrev pub offers_coding : Backend → Offer → Bool
offers_coding backend offer =
    str_eq offer.runtime_mode "vllm"
    || leb (capacity_rank "standard") (cluster_rank offer)
    || has_accelerator backend

abbrev pub offers_reducer : Backend → Offer → ℕ → Bool
offers_reducer backend offer available_memory_mb =
    str_eq offer.runtime_mode "vllm"
    || leb (capacity_rank "heavy") (cluster_rank offer)
    || leb 8192 (value_or offer.usable_vram_mb 0)
    || leb 2 offer.parallel_slots
    || (is_m backend && leb 65536 available_memory_mb)

abbrev pub offers_synthesizer : Backend → Offer → ℕ → Bool
offers_synthesizer backend offer available_memory_mb =
    str_eq offer.runtime_mode "vllm"
    || leb (capacity_rank "synthesis") (cluster_rank offer)
    || leb 12288 (value_or offer.usable_vram_mb 0)
    || (is_m backend && leb 32768 available_memory_mb)
    || leb 65536 available_memory_mb

unfoldable pub offered : Bool → Bool → Bool → List NodeRole
offered codes reduces synthesizes =
    (chat ∷ batch ∷ chunk_analysis ∷ [])
    ++ when codes (coding ∷ [])
    ++ when reduces (reducer ∷ [])
    ++ when synthesizes (synthesizer ∷ [])

unfoldable pub node_roles_for : Backend → Offer → ℕ → List NodeRole
node_roles_for backend offer available_memory_mb =
    if offer.ready_for_jobs
    then dedup role_eq (
        sort_by_key as_str (
          offered (offers_coding backend offer) (offers_reducer backend offer available_memory_mb)
            (offers_synthesizer backend offer available_memory_mb)))
    else []
