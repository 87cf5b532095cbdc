-- ===== src/Node/NativeStream/Tests.antt =====
-- Native streams at concrete inputs, agents/node/src/native_stream.rs.
use mundusx.Prelude.{ℕ, ◌≡◌, refl, Option, none, some, [], ◌∷◌, ok, err, any, strip_prefix, arith}
use mundusx.Node.NativeStream.{
  Field, null, string, other, CallView, missing, array, View, object, NativeStream, get_call,
  set_call, push_calls, push, message, reconcile, remainder,
}
use mundusx.Node.NativeStream.Remainder.{Complete, remainder-push}

abbrev empty_stream : NativeStream
empty_stream = record { content = ""; calls = [] }

abbrev fragment : Option ℕ → Field → Field → Field → CallView
fragment index id name arguments = record {
  index = index;
  kind = none;
  id = id;
  name = name;
  arguments = arguments;
}

abbrev first_delta : View
first_delta =
    object null
      (array (fragment (some 0) (string "call_a") (string "write") (string "{\"text\":\"") ∷ []))

abbrev final_message : View
final_message =
    object null (
      array (fragment none (string "call_a") (string "write") (string "{\"text\":\"hello\"}") ∷ []))

abbrev stream : NativeStream
stream = record {
  content = "";
  calls = (0, record { id = "call_a"; name = "write"; arguments = "{\"text\":\"" }) ∷ [];
}

push_test : push empty_stream first_delta ≡ (ok tt, stream)
unfolding push push_calls set_call get_call
push_test = refl

abbrev rest : View
rest = object null (array (fragment (some 0) null null (string "hello\"}") ∷ []))

remainder_test : remainder stream final_message ≡ ok rest
unfolding remainder strip_prefix any reconcile get_call
remainder_test = refl

contradiction_test :
    remainder (record { content = "Hello"; calls = [] }) (object (string "different") missing)
    ≡ err "native stream differs from final message"
unfolding remainder strip_prefix
contradiction_test = refl

-- The error in the second text leaves the first one appended.
broken_delta_test :
    push empty_stream (object null (array (fragment (some 1) (string "b") other null ∷ []))) ≡ (
      err "stream field must be a string",
      record { content = ""; calls = (1, record { id = "b"; name = ""; arguments = "" }) ∷ [] },
    )
unfolding push push_calls set_call get_call
broken_delta_test = refl

interleaved_test :
    message
      (push
        (push empty_stream (
          object (string "Hi") (
            array (
              fragment (some 1) (string "b") (string "two") (string "{")
              ∷ fragment (some 0) (string "a") (string "one") (string "{}")
              ∷ [])))).1
        (object null (array (fragment (some 1) null null (string "}") ∷ [])))).1
    ≡ object (string "Hi") (
        array (
          record {
            index = none;
            kind = some "function";
            id = string "a";
            name = string "one";
            arguments = string "{}";
          }
          ∷ record {
            index = none;
            kind = some "function";
            id = string "b";
            name = string "two";
            arguments = string "{}";
          }
          ∷ []))
unfolding push message push_calls set_call get_call
interleaved_test = refl

remainder-push_example : Complete final_message (push stream rest)
remainder-push_example = remainder-push stream final_message rest (omega arith) remainder_test
