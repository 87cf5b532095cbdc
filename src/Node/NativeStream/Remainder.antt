-- ===== src/Node/NativeStream/Remainder.antt =====
-- What the remainder of a native stream does to it, agents/node/src/native_stream.rs.
use text.Mathlib.TextLemmas.{append-nil}
use mundusx.Prelude.{
  ◌≤◌, ◌≡◌, refl, sym, ap, ◌∙◌, subst, String, push_str, List, [], ◌∷◌, Bool, false, Result, ok,
  err, ◌>>=◌, length, if◌then◌else◌, arith, Bool-cases, inl, inr, bind-ok, err_not-ok, ok-injective,
}
use mundusx.Node.NativeStream.{
  null, CallView, missing, View, object, Calls, NativeStream, push_calls, push_tool_calls, push,
  final_content, final_calls, suffix, text_or_null, array_or_missing, reconcile, remainder,
}
use mundusx.Node.NativeStream.Calls.{reaches, suffix-ok, suffix_self}
use mundusx.Node.NativeStream.Reconcile.{Done, Done-reconcile, reconcile-Reconciled}

-- What a stream has after the push of its remainder: the push succeeded, content and calls are
-- those of the final message, and nothing remains.
abbrev pub Complete : View → Result String Unit × NativeStream → Type 0
Complete final_message (result, stream) =
    (result ≡ ok tt)
    × (stream.content ≡ final_content final_message)
    × Done stream.calls 0 (final_calls final_message)
    × (remainder stream final_message ≡ ok (object null missing))

nothing_remains :
    (stream : NativeStream) (final_message : View)
    → stream.content ≡ final_content final_message
    → reaches (length (final_calls final_message)) stream.calls ≡ false
    → Done stream.calls 0 (final_calls final_message)
    → remainder stream final_message ≡ ok (object null missing)
unfolding remainder
nothing_remains stream final_message same kept d =
    rw
      (
        suffix_self (final_content final_message) stream.content same,
        kept,
        Done-reconcile stream.calls 0 (final_calls final_message) d,
      )
      refl

push_calls-array_or_missing :
    (content : String) (calls : Calls) (deltas : List CallView)
    → push_tool_calls (record { content = content; calls = calls }) (array_or_missing deltas) ≡ (
      (push_calls deltas calls).0,
      record { content = content; calls = (push_calls deltas calls).1 },
    )
unfolding push_calls
push_calls-array_or_missing content calls [] = refl
push_calls-array_or_missing content calls (d ∷ deltas) = refl

push-content :
    (stream : NativeStream) (content : String) (deltas : List CallView)
    → push stream (object (text_or_null content) (array_or_missing deltas)) ≡ (
      (push_calls deltas stream.calls).0,
      record {
        content = push_str stream.content content;
        calls = (push_calls deltas stream.calls).1;
      },
    )
unfolding push
push-content stream String.[] deltas =
    push_calls-array_or_missing stream.content stream.calls deltas
    ∙ ap
        (λ t. (
          (push_calls deltas stream.calls).0,
          record { content = t; calls = (push_calls deltas stream.calls).1 },
        ))
        (sym (append-nil stream.content))
push-content stream (String.◌∷◌ c content) deltas =
    push_calls-array_or_missing (push_str stream.content (String.◌∷◌ c content)) stream.calls deltas

-- What a successful remainder found.
record Remains (stream : NativeStream) (final_message delta : View) : Type 0 where
  content : String
  deltas : List CallView
  same_content : final_content final_message ≡ push_str stream.content content
  kept : reaches (length (final_calls final_message)) stream.calls ≡ false
  deltas_ok : reconcile stream.calls 0 (final_calls final_message) ≡ ok deltas
  made : object (text_or_null content) (array_or_missing deltas) ≡ delta

remainder-Remains :
    (stream : NativeStream) (final_message delta : View)
    → remainder stream final_message ≡ ok delta
    → Remains stream final_message delta
unfolding remainder
remainder-Remains stream final_message delta e =
    let (content, content_ok, e1) =
      bind-ok (suffix (final_content final_message) stream.content) _ delta e in
    let calls = final_calls final_message in
    let answer : Bool → Result String View = λ lost.
      if lost
      then err "final message lost streamed tool call"
      else (reconcile stream.calls 0 calls >>= λ deltas.
          ok (object (text_or_null content) (array_or_missing deltas))) in
    elim (Bool-cases (reaches (length calls) stream.calls)) [
      | inl lost ↦ absurd (err_not-ok (subst (λ b. answer b ≡ ok delta) lost e1))
      | inr kept ↦
          let (deltas, deltas_ok, e2) =
            bind-ok (reconcile stream.calls 0 calls) _ delta
              (subst (λ b. answer b ≡ ok delta) kept e1) in
          record {
            content = content;
            deltas = deltas;
            same_content =
                suffix-ok (final_content final_message) stream.content content content_ok;
            kept = kept;
            deltas_ok = deltas_ok;
            made = ok-injective (object (text_or_null content) (array_or_missing deltas)) delta e2;
          }
    ]

-- Let a stream have received any part of the deltas of a message, and let `remainder` find no
-- contradiction between it and the final message, which has at most 128 calls. Then the push
-- of what `remainder` returns succeeds, it makes the content and every call of the stream
-- those of the final message, and after it nothing remains to be sent.
pub remainder-push :
    (stream : NativeStream) (final_message delta : View)
    → length (final_calls final_message) ≤ 128
    → remainder stream final_message ≡ ok delta
    → Complete final_message (push stream delta)
remainder-push stream final_message delta small e =
    let found = remainder-Remains stream final_message delta e in
    let calls = final_calls final_message in
    let r =
      reconcile-Reconciled stream.calls stream.calls 0 calls found.deltas found.deltas_ok
        (λ k le. refl) (omega (arith, small)) in
    let content = sym found.same_content in
    subst (λ d. Complete final_message (push stream d)) found.made
      (subst (Complete final_message) (sym (push-content stream found.content found.deltas)) (
        r.fine,
        content,
        r.done,
        nothing_remains _ final_message content (r.bounded (length calls) (omega arith) found.kept)
            r.done,
      ))
