-- ===== src/Node/Roles/Tests.antt =====
-- The roles of concrete nodes, agents/node/src/main.rs.
use mundusx.Prelude.{◌≡◌, refl, arith, some, [], ◌∷◌, true, any, to_ascii_lowercase, trim}
use mundusx.Prelude.Sorting.{Ascending, insert_by_key, sort_by_key, dedup}
use mundusx.Node.Capacity.{cuda, capacity_rank}
use mundusx.Node.Models.{chat, coding, chunk_analysis, reducer, batch, as_str, role_eq, when}
use mundusx.Node.Roles.{Offer, offered, node_roles_for}
use mundusx.Node.Roles.Grow.{node_roles_for-grow}

abbrev small : Offer
small = record {
  runtime_mode = "llama-server";
  parallel_slots = 1;
  ready_for_jobs = true;
  capacity_class = "micro";
  usable_vram_mb = some 4096;
}

abbrev large : Offer
large = record {
  runtime_mode = "llama-server";
  parallel_slots = 2;
  ready_for_jobs = true;
  capacity_class = "micro";
  usable_vram_mb = some 8192;
}

node_roles_for_test :
    node_roles_for cuda large 16384 ≡ batch ∷ chat ∷ chunk_analysis ∷ coding ∷ reducer ∷ []
unfolding node_roles_for dedup sort_by_key offered insert_by_key when capacity_rank
    to_ascii_lowercase trim
node_roles_for_test = refl

node_roles_for-grow_example :
    Ascending as_str (node_roles_for cuda small 8192)
    × (any (role_eq coding) (node_roles_for cuda small 8192) ≡ true
        → any (role_eq coding) (node_roles_for cuda large 16384) ≡ true)
node_roles_for-grow_example =
    node_roles_for-grow cuda small large 8192 16384 coding
      (record {
        same_mode = refl;
        same_class = refl;
        more_slots = omega arith;
        more_vram = omega arith;
      })
      (omega arith) refl
