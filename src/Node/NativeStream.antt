-- ===== src/Node/NativeStream.antt =====
-- The deltas of a model's message with tool calls, agents/node/src/native_stream.rs.
--
-- A JSON value is modelled by what the code reads of it: of a delta and of a message the content
-- and the tool calls, of a call its index and three texts. A field that is missing reads as null.
pub mod Calls
pub mod Reconcile
pub mod Remainder
pub mod Tests
use mundusx.Prelude.{
  ℕ, zero, suc, ◌+◌, String, push_str, Option, none, some, List, [], ◌∷◌, Bool, true, false, ◌&&◌,
  ◌||◌, not, Result, ok, err, ◌>>=◌, length, ltb, leb, ◌==◌, if◌then◌else◌, is_empty, is_nil, any,
  map, strip_prefix,
}

pub data Field : Type 0 where
  null : Field
  string : (value : String) → Field
  other : Field

-- `kind` is the field "type".
pub record CallView : Type 0 where
  pub index : Option ℕ
  pub kind : Option String
  pub id : Field
  pub name : Field
  pub arguments : Field

pub data CallsView : Type 0 where
  missing not_array : CallsView
  array : (calls : List CallView) → CallsView

pub data View : Type 0 where
  not_object : View
  object : (content : Field) → (tool_calls : CallsView) → View

-- A value of `calls`: its three texts are strings from the first.
pub record Call : Type 0 where
  pub id : String
  pub name : String
  pub arguments : String

abbrev pub empty_call : Call
empty_call = record { id = ""; name = ""; arguments = "" }

-- `BTreeMap<usize, Value>`: in the order of the keys.
abbrev pub Calls : Type 0
Calls = List (ℕ × Call)

pub record NativeStream : Type 0 where
  pub content : String
  pub calls : Calls

-- `calls.get(&index)`
unfoldable pub get_call : Calls → ℕ → Option Call
get_call [] index = none
get_call ((i, call) ∷ calls) index = if i == index then some call else get_call calls index

-- Puts a call under its index, where the order of the keys has it.
unfoldable pub set_call : ℕ → Call → Calls → Calls
set_call index call [] = (index, call) ∷ []
set_call index call ((i, old) ∷ calls) =
    let rest = set_call index call calls in
    if i == index
    then (index, call) ∷ calls
    else if ltb index i
    then (index, call) ∷ (i, old) ∷ calls
    else (i, old) ∷ rest

abbrev pub call_or_empty : Option Call → Call
call_or_empty none = empty_call
call_or_empty (some call) = call

abbrev pub append : String → Field → Result String String
append target null = ok target
append target (string part) = ok (push_str target part)
append target other = err "stream field must be a string"

-- The three appends on an entry: an error leaves the entry as the appends before it made it.
abbrev pub arguments_joined : Call → Result String String → Result String Unit × Call
arguments_joined entry (ok joined) =
    (ok tt, record { id = entry.id; name = entry.name; arguments = joined })
arguments_joined entry (err e) = (err e, entry)

abbrev pub name_joined : Call → Field → Result String String → Result String Unit × Call
name_joined entry arguments (ok joined) =
    arguments_joined (record { id = entry.id; name = joined; arguments = entry.arguments })
      (append entry.arguments arguments)
name_joined entry arguments (err e) = (err e, entry)

abbrev pub id_joined : Call → Field → Field → Result String String → Result String Unit × Call
id_joined entry name arguments (ok joined) =
    name_joined (record { id = joined; name = entry.name; arguments = entry.arguments }) arguments
      (append entry.name name)
id_joined entry name arguments (err e) = (err e, entry)

abbrev pub append_call : Call → CallView → Result String Unit × Call
append_call entry call = id_joined entry call.name call.arguments (append entry.id call.id)

-- The entry of an index was made of what it was: an error in it ends the push.
abbrev pub pushed :
    (Calls → Result String Unit × Calls)
    → ℕ
    → Calls
    → Result String Unit × Call
    → Result String Unit × Calls
pushed again index calls (ok done, entry) = again (set_call index entry calls)
pushed again index calls (err e, entry) = (err e, set_call index entry calls)

abbrev pub push_at :
    (Calls → Result String Unit × Calls) → CallView → Calls → Option ℕ → Result String Unit × Calls
push_at again call calls none = (err "invalid tool index", calls)
push_at again call calls (some index) =
    if ltb index 128
    then pushed again index calls (append_call (call_or_empty (get_call calls index)) call)
    else (err "invalid tool index", calls)

-- The loop of `push`.
unfoldable pub push_calls : List CallView → Calls → Result String Unit × Calls
push_calls [] calls = (ok tt, calls)
push_calls (call ∷ more) calls = push_at (push_calls more) call calls call.index

abbrev with_calls : String → Result String Unit × Calls → Result String Unit × NativeStream
with_calls content (result, calls) = (result, record { content = content; calls = calls })

abbrev pub push_tool_calls : NativeStream → CallsView → Result String Unit × NativeStream
push_tool_calls stream missing = (ok tt, stream)
push_tool_calls stream not_array = (err "tool_calls must be an array", stream)
push_tool_calls stream (array calls) = with_calls stream.content (push_calls calls stream.calls)

-- The result, and the stream as the push leaves it.
unfoldable pub push : NativeStream → View → Result String Unit × NativeStream
push stream not_object = (err "native delta must be an object", stream)
push stream (object null tool_calls) = push_tool_calls stream tool_calls
push stream (object (string part) tool_calls) =
    push_tool_calls (record { content = push_str stream.content part; calls = stream.calls })
      tool_calls
push stream (object other tool_calls) = (err "content must be a string", stream)

abbrev pub call_view : ℕ × Call → CallView
call_view (index, call) = record {
  index = none;
  kind = some "function";
  id = string call.id;
  name = string call.name;
  arguments = string call.arguments;
}

abbrev pub array_or_missing : List CallView → CallsView
array_or_missing [] = missing
array_or_missing (call ∷ calls) = array (call ∷ calls)

unfoldable pub message : NativeStream → View
message stream = object (string stream.content) (array_or_missing (map call_view stream.calls))

-- `as_str().unwrap_or_default()`
abbrev pub field_text : Field → String
field_text null = ""
field_text (string value) = value
field_text other = ""

abbrev pub final_content : View → String
final_content not_object = ""
final_content (object content tool_calls) = field_text content

abbrev pub final_calls : View → List CallView
final_calls not_object = []
final_calls (object content missing) = []
final_calls (object content not_array) = []
final_calls (object content (array calls)) = calls

abbrev pub found_suffix : Option String → Result String String
found_suffix none = err "native stream differs from final message"
found_suffix (some rest) = ok rest

abbrev pub suffix : String → String → Result String String
suffix full prefix = found_suffix (strip_prefix prefix full)

abbrev pub text_or_null : String → Field
text_or_null value = if is_empty value then null else string value

abbrev pub kind_of : String → Option String
kind_of id = if is_empty id then none else some "function"

abbrev pub call_delta : ℕ → String → String → String → CallView
call_delta index id name arguments = record {
  index = some index;
  kind = kind_of id;
  id = text_or_null id;
  name = text_or_null name;
  arguments = string arguments;
}

-- `calls.push(call)`, unless there is nothing to send.
abbrev pub push_delta : ℕ → String → String → String → List CallView → List CallView
push_delta index id name arguments rest =
    if not (is_empty id) || not (is_empty name) || not (is_empty arguments)
    then call_delta index id name arguments ∷ rest
    else rest

-- The loop of `remainder`.
unfoldable pub reconcile : Calls → ℕ → List CallView → Result String (List CallView)
reconcile calls index [] = ok []
reconcile calls index (full ∷ more) =
    let previous = call_or_empty (get_call calls index) in
    suffix (field_text full.id) previous.id >>= λ id.
    suffix (field_text full.name) previous.name >>= λ name.
    suffix (field_text full.arguments) previous.arguments >>= λ arguments.
    reconcile calls (index + 1) more >>= λ rest. ok (push_delta index id name arguments rest)

unfoldable pub remainder : NativeStream → View → Result String View
remainder stream final_message = suffix (final_content final_message) stream.content >>= λ content.
    if any (λ entry. leb (length (final_calls final_message)) entry.0) stream.calls
    then err "final message lost streamed tool call"
    else (reconcile stream.calls 0 (final_calls final_message) >>= λ calls.
        ok (object (text_or_null content) (array_or_missing calls)))
