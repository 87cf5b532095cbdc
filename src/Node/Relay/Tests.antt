-- ===== src/Node/Relay/Tests.antt =====
-- The relay of a job's output, run against a control plane whose first answers are lost, agents/node/src/main.rs.
use mundusx.Prelude.{
  ℕ, zero, suc, ◌+◌, ◌≤◌, ◌≡◌, refl, subst, ◌⊎◌, String, some, List, [], ◌∷◌, ◌++◌, true, false,
  ◌||◌, arith, Result, ok, err, length, length-append, leb, ◌==◌, any, if◌then◌else◌,
}
use mundusx.Node.Relay.{
  JobStreamDelta, JobStreamAck, retryable_control_plane_error, gather, coalesce_stream_deltas,
  post_from, post_stream_delta, relay_from, relay_job_deltas,
}
use mundusx.Node.Relay.Delivery.{Counts}
use mundusx.Node.Relay.Exact.{Ended, relay_job_deltas-Ended}

-- The deltas that were kept, the answers of the control plane that the network still drops, and the
-- sleeps in milliseconds.
record Link : Type 0 where
  kept : List String
  drops : ℕ
  sleeps : List ℕ

abbrev kept_with : JobStreamDelta → List String → List String
kept_with p kept = if p.sequence == length kept + 1 then kept ++ p.delta ∷ [] else kept

abbrev ack_of : JobStreamDelta → List String → JobStreamAck
ack_of p kept = record {
  job_id = p.job_id;
  sequence = p.sequence;
  accepted = p.sequence == length kept + 1;
  duplicate = leb p.sequence (length kept);
}

abbrev answer : JobStreamDelta → ℕ → List String → List ℕ → Result String JobStreamAck × Link
answer p zero kept sleeps =
    (ok (ack_of p kept), record { kept = kept_with p kept; drops = 0; sleeps = sleeps })
answer p (suc drops) kept sleeps = (
  err "transport failed: timed out",
  record { kept = kept_with p kept; drops = drops; sleeps = sleeps },
)

abbrev post : JobStreamDelta → Link → Result String JobStreamAck × Link
post p w = answer p w.drops w.kept w.sleeps

abbrev sleep : ℕ → Link → Link
sleep n w = record { kept = w.kept; drops = w.drops; sleeps = w.sleeps ++ n ∷ [] }

abbrev received : Link → List String
received w = w.kept

abbrev link : ℕ → Link
link drops = record { kept = []; drops = drops; sleeps = [] }

retryable_test : retryable_control_plane_error "HTTP 503: busy" ≡ true
unfolding retryable_control_plane_error any
retryable_test = refl

kept_with-posted :
    (p : JobStreamDelta) (kept : List String)
    → (kept_with p kept ≡ kept)
      ⊎ ((p.sequence ≡ length kept + 1) × (kept_with p kept ≡ kept ++ p.delta ∷ []))
kept_with-posted p kept = ground arith

answer-posted :
    (p : JobStreamDelta) (drops : ℕ) (kept : List String) (sleeps : List ℕ)
    → received (answer p drops kept sleeps).1 ≡ kept_with p kept
answer-posted p zero kept sleeps = refl
answer-posted p (suc drops) kept sleeps = refl

received_posted :
    (p : JobStreamDelta) (w : Link)
    → (received (post p w).1 ≡ received w)
      ⊎ ((p.sequence ≡ length (received w) + 1)
          × (received (post p w).1 ≡ received w ++ p.delta ∷ []))
received_posted p w = rw (answer-posted p w.drops w.kept w.sleeps) (kept_with-posted p w.kept)

abbrev Acknowledged : JobStreamDelta → Result String JobStreamAck × Link → Type 0
Acknowledged p (ok ack, w) = ack.accepted || ack.duplicate ≡ true → p.sequence ≤ length (received w)
Acknowledged p (err e, w) = Unit

kept_with-length :
    (p : JobStreamDelta) (kept : List String)
    → (p.sequence == length kept + 1) || leb p.sequence (length kept) ≡ true
    → p.sequence ≤ length (kept_with p kept)
kept_with-length p kept = ground (arith, length-append kept (p.delta ∷ []))

answer-Acknowledged :
    (p : JobStreamDelta) (drops : ℕ) (kept : List String) (sleeps : List ℕ)
    → Acknowledged p (answer p drops kept sleeps)
answer-Acknowledged p zero kept sleeps = kept_with-length p kept
answer-Acknowledged p (suc drops) kept sleeps = tt

post-Counts : Counts post sleep received
post-Counts = record {
  posted = received_posted;
  acknowledged =
      λ p w w' ack e. subst (Acknowledged p) e (answer-Acknowledged p w.drops w.kept w.sleeps);
  slept = λ n w. refl;
}

-- Two answers are lost after the first delta was kept: it is sent three times and kept once.
relay_job_deltas_test :
    relay_job_deltas post sleep
      (λ t. false)
      "job"
      "node"
      "assignment"
      (true ∷ false ∷ [])
      ("a" ∷ "b" ∷ "c" ∷ [])
      (link 2)
    ≡ some (true, record { kept = "ab" ∷ "c" ∷ []; drops = 0; sleeps = 50 ∷ 100 ∷ [] })
unfolding relay_job_deltas relay_from post_stream_delta post_from retryable_control_plane_error
    coalesce_stream_deltas gather
relay_job_deltas_test = refl

-- A third lost answer ends the relay.
gives_up_test :
    relay_job_deltas post sleep (λ t. false) "job" "node" "assignment" [] ("a" ∷ "b" ∷ []) (link 3)
    ≡ some (false, record { kept = "a" ∷ []; drops = 0; sleeps = 50 ∷ 100 ∷ [] })
unfolding relay_job_deltas relay_from post_stream_delta post_from retryable_control_plane_error
    coalesce_stream_deltas gather
gives_up_test = refl

relay_job_deltas-Ended_example : Ended received "abc" (
    relay_job_deltas post sleep
      (λ t. false)
      "job"
      "node"
      "assignment"
      (true ∷ false ∷ [])
      ("a" ∷ "b" ∷ "c" ∷ [])
      (link 2))
relay_job_deltas-Ended_example =
    relay_job_deltas-Ended post sleep received post-Counts (λ t. false) "job" "node" "assignment"
      (true ∷ false ∷ []) ("a" ∷ "b" ∷ "c" ∷ []) (link 2) (omega arith) refl
