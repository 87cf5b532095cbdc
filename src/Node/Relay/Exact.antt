-- ===== src/Node/Relay/Exact.antt =====
-- The text that the control plane has when the relay of a job's output ends, agents/node/src/main.rs:
-- the relay's loop.
use text.Mathlib.TextLemmas.{append_assoc, append-nil, nil-append}
use mundusx.Prelude.{
  ℕ, zero, suc, ◌+◌, ◌^◌, ◌≤◌, ◌<◌, ◌≡◌, refl, sym, ap, subst, ◌∙◌, ◌⊎◌, inl, inr, String, push_str,
  Option, none, some, List, [], ◌∷◌, ◌++◌, Bool, true, false, ◌||◌, arith, Result, ok, err, length,
  length-append, add_u64, Bool-cases,
}
use mundusx.Node.Relay.{
  JobStreamDelta, JobStreamAck, coalesce_stream_deltas, relayed, payload_of, relay_from,
  relay_job_deltas,
}
use mundusx.Node.Relay.Delivery.{
  joined, joined-append, coalesce-Split, Counts, Posted, post_stream_delta-Posted,
}

-- How a relay ended: the text that was received begins the text that there was to send, and is all
-- of it if the relay went on to the end of the channel.
abbrev pub Ended : {W : Type 0} → (W → List String) → String → Option (Bool × W) → Type 0
Ended received text none = ⊥
Ended received text (some (true, w)) = joined (received w) ≡ text
Ended received text (some (false, w)) =
    (rest : String) × (push_str (joined (received w)) rest ≡ text)

joined-one :
    (before : List String) (d : String) → joined (before ++ d ∷ []) ≡ push_str (joined before) d
joined-one before d = joined-append before (d ∷ []) ∙ ap (push_str (joined before)) (append-nil d)

received-split :
    (before : List String) (d text : String) (left : List String)
    → push_str d (joined left) ≡ text
    → push_str (joined (before ++ d ∷ [])) (joined left) ≡ push_str (joined before) text
received-split before d text left same =
    ap (λ t. push_str t (joined left)) (joined-one before d)
    ∙ append_assoc (joined before) d (joined left)
    ∙ ap (push_str (joined before)) same

module _ {W : Type 0} (post : JobStreamDelta → W → Result String JobStreamAck × W)
    (sleep : ℕ → W → W) (received : W → List String) (counts : Counts post sleep received) where
  -- A relay that stops before or after the delta `d` has sent a beginning of the text.
  stopped-Ended :
      (before : List String) (d text : String) (left : List String) (w : W)
      → push_str d (joined left) ≡ text
      → (received w ≡ before) ⊎ (received w ≡ before ++ d ∷ [])
      → Ended received (push_str (joined before) text) (some (false, w))
  stopped-Ended before d text left w s (inl same) = (text, ap (λ l. push_str (joined l) text) same)
  stopped-Ended before d text left w s (inr got) = (
    joined left,
    ap (λ l. push_str (joined l) (joined left)) got ∙ received-split before d text left s,
  )

  relayed-Ended :
      (go_on : W → Option (Bool × W)) (before : List String) (text : String) (left : List String)
      (p : JobStreamDelta) (r : Option (Result String JobStreamAck × W))
      → push_str p.delta (joined left) ≡ text
      → Posted post sleep received counts before p r
      → ((w : W)
          → received w ≡ before ++ p.delta ∷ []
          → Ended received (push_str (joined (before ++ p.delta ∷ [])) (joined left)) (go_on w))
      → Ended received (push_str (joined before) text) (relayed post sleep go_on r)
  relayed-Ended go_on before text left p none s q f = q
  relayed-Ended go_on before text left p (some (err e, w)) s q f =
      stopped-Ended before p.delta text left w s q
  relayed-Ended go_on before text left p (some (ok ack, w)) s (b, inl refused) f =
      rw refused (stopped-Ended before p.delta text left w s b)
  relayed-Ended go_on before text left p (some (ok ack, w)) s (b, inr got) f =
      elim (Bool-cases (ack.accepted || ack.duplicate)) [
        | inl acked ↦ rw acked (
            subst (λ t. Ended received t (go_on w)) (received-split before p.delta text left s)
              (f w got))
        | inr refused ↦ rw refused (stopped-Ended before p.delta text left w s b)
      ]

  module _ (is_json : String → Bool) (job_id node_id assignment_id : String) where
    relay_from-Ended :
        (fuel sequence : ℕ) (ready : List Bool) (deltas before : List String) (w : W)
        → length deltas ≤ fuel
        → sequence ≡ length before + 1
        → sequence + length deltas < 2 ^ 64
        → received w ≡ before
        → Ended received (push_str (joined before) (joined deltas)) (
            relay_from post sleep is_json job_id node_id assignment_id fuel sequence ready deltas w)
    unfolding relay_from
    relay_from-Ended fuel sequence ready [] before w le n bound same =
        ap joined same ∙ sym (append-nil (joined before))
    relay_from-Ended zero sequence ready (first ∷ deltas) before w le n bound same =
        absurd (omega (arith, le))
    relay_from-Ended (suc fuel) sequence ready (first ∷ deltas) before w le n bound same =
        let batch = coalesce_stream_deltas is_json ready first deltas in
        let split = coalesce-Split is_json ready first deltas in
        let p = payload_of post sleep is_json job_id node_id assignment_id sequence batch.text in
        relayed-Ended _ before (push_str first (joined deltas)) batch.left p _ split.0
          (post_stream_delta-Posted post sleep received counts before p w n same)
          (λ w' got.
            relay_from-Ended fuel (add_u64 sequence 1) batch.ready batch.left
              (before ++ batch.text ∷ []) w' (omega (arith, le, split.1))
              (omega (arith, n, bound, length-append before (batch.text ∷ [])))
              (omega (arith, split.1, bound)) got)

    -- Let a control plane keep the deltas of a job in the order of their numbers, answer as it will
    -- (an error may come before or after the delta was kept), and acknowledge only a delta that it
    -- has. If it has no delta yet, and there are fewer than 2^64 - 1 to send, then `relay_job_deltas` ends, for every
    -- schedule of the channel: what the control plane has then, in its order, is a beginning of the
    -- worker's text, without a gap, a repetition or a change of order; and it is the whole text
    -- when the relay ended because the channel did.
    pub relay_job_deltas-Ended :
        (ready : List Bool) (deltas : List String) (w : W)
        → length deltas + 1 < 2 ^ 64
        → received w ≡ []
        → Ended received
            (joined deltas)
            (relay_job_deltas post sleep is_json job_id node_id assignment_id ready deltas w)
    unfolding relay_job_deltas
    relay_job_deltas-Ended ready deltas w bound none_yet =
        subst
          (λ t. Ended received t (
            relay_from post sleep is_json job_id node_id assignment_id (length deltas) 1 ready
              deltas w))
          (nil-append (joined deltas))
          (relay_from-Ended (length deltas) 1 ready deltas [] w (omega arith) refl
            (omega (arith, bound)) none_yet)
