-- ===== src/Routing/Best.antt =====
-- Which node `select_best_node` chooses, apps/cli/src/routing.rs.
use mundusx.Prelude.{
  All-within, ◌≡◌, refl, sym, subst, ◌⊎◌, inl, inr, Option, none, some, List, [], ◌∷◌, Bool, true,
  false, not, ◌&&◌, arith, All, All-map, In, Bool-cases, if◌then◌else◌,
}
use mundusx.Routing.{
  Floats, NodeStatus, JobRequest, RoutingDecision, Leader, serves, is_offline, is_false, is_auto,
  same_backend, score_node, consider, best_of, no_best, decision, nobody, select_best_node,
}

-- What IEEE 754 says of the order of the doubles that are not NaN, which all scores are.
pub record Ordered {F : Type 0} (floats : Floats F) : Type 0 where
  pub gt_trans : (a b c : F) → floats.gt a b ≡ true → floats.gt b c ≡ true → floats.gt a c ≡ true
  pub gt_irreflexive : (a : F) → floats.gt a a ≡ false
  pub ge_of_not_gt :
      (a b c : F) → floats.gt a b ≡ false → floats.ge a c ≡ true → floats.ge b c ≡ true
  pub minus_one_negative : floats.ge floats.minus_one (floats.of_int 0) ≡ false
  pub neg_infinity_negative : floats.ge floats.neg_infinity (floats.of_int 0) ≡ false

module _ {F : Type 0} (floats : Floats F) (request : JobRequest) where
  abbrev pub score : NodeStatus → F
  score node = score_node floats node request.preferred_backend

  -- A node that may take the job.
  pub record IsEligible (node : NodeStatus) : Type 0 where
    pub serving : serves request.model node ≡ true
    pub live : is_offline node.state ≡ false
    pub allowed : is_false node.policy_allowed ≡ false
    pub healthy : is_false node.worker_healthy ≡ false
    pub backend :
        (not (is_auto request.preferred_backend)
          && not (same_backend node.backend request.preferred_backend))
        ≡ false

  -- No node that serves the model has a greater score.
  abbrev pub Unbeaten : F → NodeStatus → Type 0
  Unbeaten best node = (serves request.model node ≡ false) ⊎ (floats.gt (score node) best ≡ false)

  pub record Chosen (nodes : List NodeStatus) (d : RoutingDecision) : Type 0 where
    pub node : NodeStatus
    pub of_nodes : In node nodes
    pub eligible : IsEligible node
    pub selected : d.selected_node_id ≡ some node.node_id
    pub on_backend : d.selected_backend ≡ some node.backend
    pub unbeaten : All (Unbeaten (score node)) nodes

  -- The nodes without a score of at least zero.
  abbrev pub Refused : NodeStatus → Type 0
  Refused node =
      (serves request.model node ≡ false) ⊎ (floats.ge (score node) (floats.of_int 0) ≡ false)

  -- The decision is a choice, or nobody where all are refused.
  abbrev pub Decided : List NodeStatus → RoutingDecision → Type 0
  Decided nodes d = Chosen nodes d ⊎ ((d ≡ nobody floats request) × All Refused nodes)

  -- What is known of the leader among the nodes of `whole` that were considered.
  abbrev Leads : List NodeStatus → Option NodeStatus → F → Type 0
  Leads whole none best = best ≡ floats.neg_infinity
  Leads whole (some node) best =
      In node whole × (serves request.model node ≡ true) × (best ≡ score node)

  module _ (ordered : Ordered floats) where
    Unbeaten-raise :
        (b b' : F) (node : NodeStatus) → floats.gt b' b ≡ true → Unbeaten b node → Unbeaten b' node
    Unbeaten-raise b b' node g (inl s) = inl s
    Unbeaten-raise b b' node g (inr l) = elim (Bool-cases (floats.gt (score node) b')) [
      | inl more ↦ let t = ordered.gt_trans (score node) b' b more g in cc
      | inr not_more ↦ inr not_more
    ]

    score-IsEligible :
        (node : NodeStatus)
        → serves request.model node ≡ true
        → floats.ge (score node) (floats.of_int 0) ≡ true
        → IsEligible node
    unfolding score_node
    score-IsEligible node s h =
        let n = ordered.minus_one_negative in
        record {
          serving = s;
          live = ground arith;
          allowed = ground arith;
          healthy = ground arith;
          backend = ground arith;
        }

    -- What is known after a node.
    abbrev After : List NodeStatus → NodeStatus → Leader floats → Leader floats → Type 0
    After whole node best after =
        Leads whole after.best_node after.best_score
        × Unbeaten after.best_score node
        × ((n : NodeStatus) → Unbeaten best.best_score n → Unbeaten after.best_score n)

    consider-After :
        (whole : List NodeStatus) (node : NodeStatus) (best : Leader floats) (served better : Bool)
        → serves request.model node ≡ served
        → floats.gt (score node) best.best_score ≡ better
        → In node whole
        → Leads whole best.best_node best.best_score
        → After whole node best (
            if not served
            then best
            else if better
            then record { best_node = some node; best_score = score node }
            else best)
    consider-After whole node best false better s g i l = (l, inl s, λ n u. u)
    consider-After whole node best true false s g i l = (l, inr g, λ n u. u)
    consider-After whole node best true true s g i l = (
      (i, s, refl),
      inr (ordered.gt_irreflexive (score node)),
      λ n u. Unbeaten-raise best.best_score (score node) n g u,
    )

    best_of-Ends :
        (whole nodes : List NodeStatus) (best : Leader floats)
        → All (λ n. In n whole) nodes
        → Leads whole best.best_node best.best_score
        → Leads whole
            (best_of floats request nodes best).best_node
            (best_of floats request nodes best).best_score
          × All (Unbeaten (best_of floats request nodes best).best_score) nodes
          × ((n : NodeStatus)
              → Unbeaten best.best_score n
              → Unbeaten (best_of floats request nodes best).best_score n)
    unfolding best_of
    best_of-Ends whole [] best a l = (l, tt, λ n u. u)
    best_of-Ends whole (node ∷ nodes) best a l =
        let c =
          consider-After whole node best (serves request.model node)
            (floats.gt (score node) best.best_score) refl refl a.0 l in
        let r = best_of-Ends whole nodes (consider floats request best node) a.1 c.0 in
        (r.0, (r.2 node c.1, r.1), λ n u. r.2 n (c.2 n u))

    Unbeaten-Refused :
        (best : F) (node : NodeStatus)
        → floats.ge best (floats.of_int 0) ≡ false
        → Unbeaten best node
        → Refused node
    Unbeaten-Refused best node h (inl s) = inl s
    Unbeaten-Refused best node h (inr l) =
        elim (Bool-cases (floats.ge (score node) (floats.of_int 0))) [
          | inl good ↦ let g = ordered.ge_of_not_gt (score node) best (floats.of_int 0) l good in cc
          | inr bad ↦ inr bad
        ]

    decision-Decided :
        (nodes : List NodeStatus) (o : Option NodeStatus) (best : F)
        → Leads nodes o best
        → All (Unbeaten best) nodes
        → Decided nodes (decision floats request o best)
    decision-Decided nodes none best l u = inr (
      refl,
      All-map _ _ nodes
          (λ n. Unbeaten-Refused best n (
            subst (λ b. floats.ge b (floats.of_int 0) ≡ false) (sym l)
              ordered.neg_infinity_negative))
          u,
    )
    decision-Decided nodes (some node) best l u =
        elim (Bool-cases (floats.ge best (floats.of_int 0))) [
          | inr bad ↦ rw bad (inr (refl, All-map _ _ nodes (λ n. Unbeaten-Refused best n bad) u))
          | inl good ↦ rw good (
              inl (record {
                node = node;
                of_nodes = l.0;
                eligible =
                    score-IsEligible node l.1
                      (subst (λ b. floats.ge b (floats.of_int 0) ≡ true) l.2 good);
                selected = refl;
                on_backend = refl;
                unbeaten = subst (λ b. All (Unbeaten b) nodes) l.2 u;
              }))
        ]

    -- With the order of doubles, the decision names a node of the list that is eligible (it serves the
    -- model, is live, allowed and healthy, and has the wanted backend) and that no node that serves the
    -- model beats by its score; or it names nobody, and then every node that serves the model has a
    -- negative score.
    pub select_best_node-Decided :
        (nodes : List NodeStatus) → Decided nodes (select_best_node floats nodes request)
    unfolding select_best_node
    select_best_node-Decided nodes =
        let r = best_of-Ends nodes nodes (no_best floats) (All-within nodes) refl in
        decision-Decided nodes _ _ r.0 r.1
