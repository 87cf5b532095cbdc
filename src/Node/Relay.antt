-- ===== src/Node/Relay.antt =====
-- The relay of a job's output to the control plane while the job runs, agents/node/src/main.rs.
--
-- The deltas are the texts that the worker sends through the channel, in their order; the schedule
-- `ready` says for each `try_recv` whether the next of them has arrived. The request to the control
-- plane, the sleep and the JSON parser are parameters over a world.
pub mod Delivery
pub mod Exact
pub mod Tests
use mundusx.Prelude.{
  ℕ, zero, suc, ◌+◌, ◌*◌, String, len, push_str, Option, none, some, List, [], ◌∷◌, Bool, true,
  false, ◌&&◌, ◌||◌, Result, ok, err, any, starts_with, length, ltb, add_u64, if◌then◌else◌,
}

pub record JobStreamDelta : Type 0 where
  pub job_id : String
  pub node_id : String
  pub assignment_id : String
  pub sequence : ℕ
  pub delta : String

pub record JobStreamAck : Type 0 where
  pub job_id : String
  pub sequence : ℕ
  pub accepted : Bool
  pub duplicate : Bool

abbrev pub stream_delta_relay_attempts : ℕ
stream_delta_relay_attempts = 3

abbrev pub stream_delta_batch_max_bytes : ℕ
stream_delta_batch_max_bytes = 4096

unfoldable pub retryable_control_plane_error : String → Bool
retryable_control_plane_error error =
    starts_with error "transport failed:"
    || any (starts_with error) (
        "HTTP 408" ∷ "HTTP 425" ∷ "HTTP 429" ∷ "HTTP 500" ∷ "HTTP 502" ∷ "HTTP 503" ∷ "HTTP 504"
        ∷ [])

-- What a batch leaves: its text, the rest of the schedule and the deltas that are still to come.
pub record Batch : Type 0 where
  pub text : String
  pub ready : List Bool
  pub left : List String

-- The loop of `coalesce_stream_deltas`.
unfoldable pub gather : List Bool → String → List String → Batch
gather ready batch [] = record { text = batch; ready = ready; left = [] }
gather [] batch (next ∷ deltas) = record { text = batch; ready = []; left = next ∷ deltas }
gather (arrived ∷ ready) batch (next ∷ deltas) =
    let more = gather ready (push_str batch next) deltas in
    if ltb (len batch) stream_delta_batch_max_bytes
    then if arrived then more else record { text = batch; ready = ready; left = next ∷ deltas }
    else record { text = batch; ready = arrived ∷ ready; left = next ∷ deltas }

unfoldable pub coalesce_stream_deltas : (String → Bool) → List Bool → String → List String → Batch
coalesce_stream_deltas is_json ready first deltas =
    if is_json first
    then record { text = first; ready = ready; left = deltas }
    else gather ready first deltas

module _ {W : Type 0} (post : JobStreamDelta → W → Result String JobStreamAck × W)
    (sleep : ℕ → W → W) where
  abbrev pub retried :
      (W → Option (Result String JobStreamAck × W))
      → ℕ
      → Result String JobStreamAck × W
      → Option (Result String JobStreamAck × W)
  retried again attempt (ok ack, w) = some (ok ack, w)
  retried again attempt (err e, w) =
      if ltb attempt stream_delta_relay_attempts && retryable_control_plane_error e
      then again (sleep (50 * attempt) w)
      else some (err e, w)

  -- The attempts from this one on; `none` is the `unreachable!` after them.
  unfoldable pub post_from : ℕ → ℕ → JobStreamDelta → W → Option (Result String JobStreamAck × W)
  post_from zero attempt payload w = none
  post_from (suc remaining) attempt payload w =
      retried (post_from remaining (attempt + 1) payload) attempt (post payload w)

  unfoldable pub post_stream_delta : JobStreamDelta → W → Option (Result String JobStreamAck × W)
  post_stream_delta payload w = post_from stream_delta_relay_attempts 1 payload w

  -- Whether the relay went on to the end of the channel, and the world after it.
  abbrev pub relayed :
      (W → Option (Bool × W)) → Option (Result String JobStreamAck × W) → Option (Bool × W)
  relayed go_on none = none
  relayed go_on (some (ok ack, w)) =
      if ack.accepted || ack.duplicate then go_on w else some (false, w)
  relayed go_on (some (err e, w)) = some (false, w)

  module _ (is_json : String → Bool) (job_id node_id assignment_id : String) where
    abbrev pub payload_of : ℕ → String → JobStreamDelta
    payload_of sequence delta = record {
      job_id = job_id;
      node_id = node_id;
      assignment_id = assignment_id;
      sequence = sequence;
      delta = delta;
    }

    -- The loop of `relay_job_deltas`, on fuel for its rounds: `none` means that the fuel ran out.
    unfoldable pub relay_from : ℕ → ℕ → List Bool → List String → W → Option (Bool × W)
    relay_from fuel sequence ready [] w = some (true, w)
    relay_from zero sequence ready (first ∷ deltas) w = none
    relay_from (suc fuel) sequence ready (first ∷ deltas) w =
        let batch = coalesce_stream_deltas is_json ready first deltas in
        relayed (relay_from fuel (add_u64 sequence 1) batch.ready batch.left)
          (post_stream_delta (payload_of sequence batch.text) w)

    unfoldable pub relay_job_deltas : List Bool → List String → W → Option (Bool × W)
    relay_job_deltas ready deltas w = relay_from (length deltas) 1 ready deltas w
