-- ===== src/Node/Relay/Delivery.antt =====
-- What a control plane that counts its deltas has received when a delta was posted, agents/node/src/main.rs:
-- the batches and the attempts.
use text.Mathlib.TextLemmas.{append_assoc, nil-append}
use mundusx.Prelude.{
  ℕ, zero, suc, ◌+◌, ◌*◌, ◌≤◌, ◌<◌, ◌≡◌, refl, sym, ap, subst, ◌∙◌, ◌⊎◌, inl, inr, String, len,
  push_str, Option, none, some, List, [], ◌∷◌, ◌++◌, Bool, true, false, ◌&&◌, ◌||◌, arith, Result,
  ok, err, length, length-append, ltb, if◌then◌else◌, Bool-cases,
}
use mundusx.Node.Relay.{
  JobStreamDelta, JobStreamAck, Batch, gather, coalesce_stream_deltas,
  retryable_control_plane_error, retried, post_from, post_stream_delta,
}

abbrev pub joined : List String → String
joined [] = ""
joined (d ∷ deltas) = push_str d (joined deltas)

pub joined-append : (xs ys : List String) → joined (xs ++ ys) ≡ push_str (joined xs) (joined ys)
joined-append [] ys = sym (nil-append (joined ys))
joined-append (x ∷ xs) ys =
    ap (push_str x) (joined-append xs ys) ∙ sym (append_assoc x (joined xs) (joined ys))

-- A batch with what it leaves is the text that it was made of, and it leaves no more deltas.
abbrev pub Split : String → List String → Batch → Type 0
Split text deltas b =
    (push_str b.text (joined b.left) ≡ push_str text (joined deltas))
    × (length b.left ≤ length deltas)

Split-if :
    (c : Bool) (text : String) (deltas : List String) (a b : Batch)
    → Split text deltas a
    → Split text deltas b
    → Split text deltas (if c then a else b)
Split-if true text deltas a b p q = p
Split-if false text deltas a b p q = q

gather-Split :
    (ready : List Bool) (batch : String) (deltas : List String)
    → Split batch deltas (gather ready batch deltas)
unfolding gather
gather-Split ready batch [] = (refl, omega arith)
gather-Split [] batch (next ∷ deltas) = (refl, omega arith)
gather-Split (arrived ∷ ready) batch (next ∷ deltas) =
    let rest = gather-Split ready (push_str batch next) deltas in
    Split-if (ltb (len batch) 4096) batch (next ∷ deltas) _ _
      (Split-if arrived batch (next ∷ deltas) _ _
        (rest.0 ∙ append_assoc batch next (joined deltas), omega (arith, rest.1))
        (refl, omega arith))
      (refl, omega arith)

pub coalesce-Split :
    (is_json : String → Bool) (ready : List Bool) (first : String) (deltas : List String)
    → Split first deltas (coalesce_stream_deltas is_json ready first deltas)
unfolding coalesce_stream_deltas
coalesce-Split is_json ready first deltas =
    Split-if (is_json first) first deltas _ _ (refl, omega arith) (gather-Split ready first deltas)

-- A control plane that has received the deltas of its job in the order of their numbers, whatever the
-- requests' answers: a request adds the delta that it carries if that has the next number, or
-- nothing, and only a delta that was received is acknowledged. Sleeping changes nothing.
pub record Counts {W : Type 0} (post : JobStreamDelta → W → Result String JobStreamAck × W)
    (sleep : ℕ → W → W) (received : W → List String) : Type 0 where
  pub posted :
      (p : JobStreamDelta) (w : W)
      → (received (post p w).1 ≡ received w)
        ⊎ ((p.sequence ≡ length (received w) + 1)
            × (received (post p w).1 ≡ received w ++ p.delta ∷ []))
  pub acknowledged :
      (p : JobStreamDelta) (w w' : W) (ack : JobStreamAck)
      → post p w ≡ (ok ack, w')
      → ack.accepted || ack.duplicate ≡ true
      → p.sequence ≤ length (received w')
  pub slept : (n : ℕ) (w : W) → received (sleep n w) ≡ received w

module _ {W : Type 0} (post : JobStreamDelta → W → Result String JobStreamAck × W)
    (sleep : ℕ → W → W) (received : W → List String) (counts : Counts post sleep received) where
  -- Before the delta `p` is acknowledged: `before` was received, and perhaps `p`.
  abbrev Between : List String → JobStreamDelta → W → Type 0
  Between before p w = (received w ≡ before) ⊎ (received w ≡ before ++ p.delta ∷ [])

  abbrev pub Posted :
      List String → JobStreamDelta → Option (Result String JobStreamAck × W) → Type 0
  Posted before p none = ⊥
  Posted before p (some (err e, w)) = Between before p w
  Posted before p (some (ok ack, w)) =
      Between before p w
      × ((ack.accepted || ack.duplicate ≡ false) ⊎ (received w ≡ before ++ p.delta ∷ []))

  post-Between :
      (before : List String) (p : JobStreamDelta) (w : W)
      → p.sequence ≡ length before + 1
      → Between before p w
      → Between before p (post p w).1
  post-Between before p w n (inl same) = elim (counts.posted p w) [
    | inl kept ↦ inl (kept ∙ same)
    | inr (next, added) ↦ inr (added ∙ ap (λ l. l ++ p.delta ∷ []) same)
  ]
  post-Between before p w n (inr got) = elim (counts.posted p w) [
    | inl kept ↦ inr (kept ∙ got)
    | inr (next, added) ↦
        absurd (omega (arith, next, n, ap length got, length-append before (p.delta ∷ [])))
  ]

  acknowledged-received :
      (before : List String) (p : JobStreamDelta) (w : W)
      → p.sequence ≡ length before + 1
      → p.sequence ≤ length (received w)
      → Between before p w
      → received w ≡ before ++ p.delta ∷ []
  acknowledged-received before p w n le (inl same) = absurd (omega (arith, n, le, ap length same))
  acknowledged-received before p w n le (inr got) = got

  retried-Posted :
      (again : W → Option (Result String JobStreamAck × W)) (before : List String)
      (p : JobStreamDelta) (attempt : ℕ) (w : W) (r : Result String JobStreamAck × W)
      → post p w ≡ r
      → p.sequence ≡ length before + 1
      → Between before p r.1
      → (attempt < 3 → (v : W) → Between before p v → Posted before p (again v))
      → Posted before p (retried post sleep again attempt r)
  retried-Posted again before p attempt w (ok ack, w') e n b f = (
    b,
    elim (Bool-cases (ack.accepted || ack.duplicate)) [
      | inl acked ↦
          inr (acknowledged-received before p w' n (counts.acknowledged p w w' ack e acked) b)
      | inr refused ↦ inl refused
    ],
  )
  retried-Posted again before p attempt w (err text, w') e n b f =
      elim (Bool-cases (ltb attempt 3 && retryable_control_plane_error text)) [
        | inr stop ↦ rw stop b
        | inl more ↦ rw more (
            f (ground arith) (sleep (50 * attempt) w') (
              subst (λ l. (l ≡ before) ⊎ (l ≡ before ++ p.delta ∷ []))
                (sym (counts.slept (50 * attempt) w')) b))
      ]

  post_from-Posted :
      (remaining attempt : ℕ) (before : List String) (p : JobStreamDelta) (w : W)
      → remaining + attempt ≡ 4
      → 1 ≤ remaining
      → p.sequence ≡ length before + 1
      → Between before p w
      → Posted before p (post_from post sleep remaining attempt p w)
  unfolding post_from
  post_from-Posted zero attempt before p w four one n b = absurd (omega arith)
  post_from-Posted (suc remaining) attempt before p w four one n b =
      retried-Posted (post_from post sleep remaining (attempt + 1) p) before p attempt w (post p w)
        refl n (post-Between before p w n b)
        (λ lt v b'.
          post_from-Posted remaining (attempt + 1) before p v (omega arith) (omega arith) n b')

  pub post_stream_delta-Posted :
      (before : List String) (p : JobStreamDelta) (w : W)
      → p.sequence ≡ length before + 1
      → received w ≡ before
      → Posted before p (post_stream_delta post sleep p w)
  unfolding post_stream_delta
  post_stream_delta-Posted before p w n same =
      post_from-Posted 3 1 before p w (omega arith) (omega arith) n (inl same)
