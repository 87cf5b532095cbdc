-- ===== src/Node/Roles/Grow.antt =====
-- The roles of a node grow with what it has, agents/node/src/main.rs.
use mundusx.Prelude.{
  ℕ, ◌≤◌, ◌≡◌, sym, ap, ◌∙◌, Bool, true, ◌&&◌, ◌||◌, any, if◌then◌else◌, str_eq, arith, Bool-cases,
  inl, inr,
}
use mundusx.Prelude.Sorting.{Ascending}
use mundusx.Node.Capacity.{Backend, value_or, capacity_rank}
use mundusx.Node.Models.{NodeRole, as_str, role_eq}
use mundusx.Node.Models.Members.{any-append, any-when, role_kept}
use mundusx.Node.Models.Profile.{roles-Ascending}
use mundusx.Node.Roles.{
  Offer, cluster_rank, offers_coding, offers_reducer, offers_synthesizer, offered, node_roles_for,
}

-- The second offer has no less than the first one.
pub record More (a b : Offer) : Type 0 where
  pub same_mode : a.runtime_mode ≡ b.runtime_mode
  pub same_class : a.capacity_class ≡ b.capacity_class
  pub more_slots : a.parallel_slots ≤ b.parallel_slots
  pub more_vram : value_or a.usable_vram_mb 0 ≤ value_or b.usable_vram_mb 0

abbrev Implies : Bool → Bool → Type 0
Implies a b = a ≡ true → b ≡ true

any_grows :
    (w x y z c r s c' r' s' : Bool)
    → Implies c c'
    → Implies r r'
    → Implies s s'
    → Implies (w || c && x || r && y || s && z) (w || c' && x || r' && y || s' && z)
any_grows w x y z c r s c' r' s' f g h e = ground (arith, f, g, h, e)

offered-grows :
    (role : NodeRole) (c r s c' r' s' : Bool)
    → Implies c c'
    → Implies r r'
    → Implies s s'
    → Implies (any (role_eq role) (offered c r s)) (any (role_eq role) (offered c' r' s'))
unfolding offered
offered-grows role c r s c' r' s' f g h =
    simp (any-append (role_eq role), any-when (role_eq role))
      (any_grows _ _ _ _ c r s c' r' s' f g h)

same_rank : (a b : Offer) → More a b → cluster_rank a ≡ cluster_rank b
same_rank a b more =
    ap (λ mode. if str_eq mode "contributed-cluster" then capacity_rank a.capacity_class else 0)
      more.same_mode
    ∙ ap (λ class. if str_eq b.runtime_mode "contributed-cluster" then capacity_rank class else 0)
        more.same_class

same_vllm : (a b : Offer) → More a b → str_eq a.runtime_mode "vllm" ≡ str_eq b.runtime_mode "vllm"
same_vllm a b more = ap (λ mode. str_eq mode "vllm") more.same_mode

module _ (backend : Backend) (a b : Offer) (more : More a b) (memory memory' : ℕ)
    (le : memory ≤ memory') where
  coding-grows : Implies (offers_coding backend a) (offers_coding backend b)
  coding-grows e = ground (arith, same_vllm a b more, same_rank a b more, e)

  reducer-grows : Implies (offers_reducer backend a memory) (offers_reducer backend b memory')
  reducer-grows e =
      ground (arith, same_vllm a b more, same_rank a b more, more.more_slots, more.more_vram, le, e)

  synthesizer-grows :
      Implies (offers_synthesizer backend a memory) (offers_synthesizer backend b memory')
  synthesizer-grows e =
      ground (arith, same_vllm a b more, same_rank a b more, more.more_vram, le, e)

-- The roles are in strict order, without repetitions; and with at least as many slots, as much video
-- memory and available memory, with the same backend, mode and class, a node that is ready
-- keeps every role that it had.
pub node_roles_for-grow :
    (backend : Backend) (a b : Offer) (memory memory' : ℕ) (role : NodeRole)
    → More a b
    → memory ≤ memory'
    → b.ready_for_jobs ≡ true
    → Ascending as_str (node_roles_for backend a memory)
      × (any (role_eq role) (node_roles_for backend a memory) ≡ true
          → any (role_eq role) (node_roles_for backend b memory') ≡ true)
unfolding node_roles_for any
node_roles_for-grow backend a b memory memory' role more le able =
    elim (Bool-cases a.ready_for_jobs) [
      | inr unready ↦ rw (unready, able) (tt, λ e. absurd (ground (arith, e)))
      | inl ready ↦
          rw (ready, able)
            (
              roles-Ascending (
                  offered (offers_coding backend a) (offers_reducer backend a memory)
                    (offers_synthesizer backend a memory)),
              λ e.
                  role_kept role _
                  ∙ offered-grows role _ _ _ _ _ _ (coding-grows backend a b more memory memory' le)
                      (reducer-grows backend a b more memory memory' le)
                      (synthesizer-grows backend a b more memory memory' le)
                      (sym (role_kept role _) ∙ e),
            )
    ]
