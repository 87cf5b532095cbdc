-- ===== src/Orchestration/Collect.antt =====
-- The results that `Orchestrator::run`, packages/agent-orchestration/src/lib.rs, collects in the
-- order of its tasks.
use mundusx.Prelude.{
  Unique, ◌≡◌, refl, sym, subst, inl, inr, String, some, List, [], ◌∷◌, map, true, false, arith,
  All, In, Option-cases, is_some, eq_iff, contains,
}
use mundusx.Prelude.Maps.{Map, get, remove, get-remove}
use mundusx.Orchestration.{TaskResult, collect}

-- The map `m` still has what `final` has under the ids that are left.
abbrev pub Agrees : Map TaskResult → Map TaskResult → List String → Type 0
Agrees m final ids = All (λ id. get m id ≡ get final id) ids

Agrees-remove :
    (m final : Map TaskResult) (id : String) (ids : List String)
    → contains ids id ≡ false
    → Agrees m final ids
    → Agrees (remove m id) final ids
unfolding contains
Agrees-remove m final id [] h a = tt
Agrees-remove m final id (k ∷ ids) h a = (
  ground (arith, get-remove m id k, eq_iff id k, eq_iff k id, a.0),
  Agrees-remove m final id ids (ground arith) a.1,
)

module _ (final : Map TaskResult)
    (named : (id : String) (r : TaskResult) → get final id ≡ some r → r.task_id ≡ id) where
  pub collected-ids :
      (ids : List String) (m : Map TaskResult)
      → Unique ids
      → Agrees m final ids
      → All (λ id. is_some (get final id) ≡ true) ids
      → (map (λ r. r.task_id) (collect ids m) ≡ ids)
        × All (λ r. get final r.task_id ≡ some r) (collect ids m)
  unfolding collect
  collected-ids [] m u a s = (refl, tt)
  collected-ids (id ∷ ids) m u a s = elim (Option-cases (get final id)) [
    | inl p ↦ cc (s.0)
    | inr (r, p) ↦
        let rest = collected-ids ids (remove m id) u.1 (Agrees-remove m final id ids u.0 a.1) s.1 in
        rw (a.0, p)
          (
            rw (named id r p, rest.0) refl,
            (subst (λ k. get final k ≡ some r) (sym (named id r p)) p, rest.1),
          )
  ]

  pub collected-In :
      (ids : List String) (m : Map TaskResult) (k : String) (r : TaskResult)
      → Unique ids
      → Agrees m final ids
      → In k ids
      → get final k ≡ some r
      → In r (collect ids m)
  unfolding collect
  collected-In [] m k r u a i h = i
  collected-In (id ∷ ids) m k r u a (inl p) h = rw (a.0, sym p, h) (inl refl)
  collected-In (id ∷ ids) m k r u a (inr later) h =
      let rest =
        collected-In ids (remove m id) k r u.1 (Agrees-remove m final id ids u.0 a.1) later h in
      elim (Option-cases (get m id)) [ inl p ↦ rw p rest | inr (x, p) ↦ rw p (inr rest) ]
