-- ===== src/Toolchat/Envelope/Parse/RoundTrip.antt =====
-- toolchat/toolchat.go: the envelopes of the protocol that systemPrompt describes, through
-- parseEnvelope and ParseEnvelope.
use go_llama_cpp.Base.{◌≡◌, refl, some, List, [], ◌∷◌, Text, ok, arith}
use go_llama_cpp.Strings.{codes, has_prefix}
use go_llama_cpp.Json.{Json, str, arr, obj, nil, cons, Fields}
use go_llama_cpp.Json.Print.{marshal_string, marshal_object}
use go_llama_cpp.Json.Escapes.{IsUnicode}
use go_llama_cpp.Json.Parse.RoundTrip.{
  IsReadable, Member, IsMember, fields, singleton, parse-IsReadable, marshal_string-IsReadable,
  marshal_object-IsReadable,
}
use go_llama_cpp.Toolchat.Envelope.Extract.{extract_json_object}
use go_llama_cpp.Toolchat.Envelope.Extract.Laws.{braced, extract_json_object-prose}
use go_llama_cpp.Toolchat.Envelope.Calls.RoundTrip.{trim_space-braced}
use go_llama_cpp.Toolchat.Envelope.Decode.{ToolCallEnvelope, ResponseEnvelope, decode_response}
use go_llama_cpp.Toolchat.Envelope.Parse.{
  Envelope, final_type, tool_call_type, parse_envelope, parse_public_envelope, decoded, unmarshal,
  inferred_type, typed, public_calls,
}

-- {"type":"final","content":...}
abbrev pub final_text : Text → Text
final_text content =
    marshal_object
      ((codes "type", marshal_string final_type) ∷ (codes "content", marshal_string content) ∷ [])

abbrev string_member : Text → Text → Member
string_member key s = record { key = key; raw = marshal_string s; document = str s }

string_member-IsMember :
    (key s : Text) → IsUnicode key → IsUnicode s → IsMember (string_member key s)
string_member-IsMember key s h k = (h, marshal_string-IsReadable s k)

braced-extract : (mid : Text) → extract_json_object (braced mid) ≡ ok (braced mid)
unfolding has_prefix
braced-extract mid = extract_json_object-prose [] mid [] tt tt (rw (trim_space-braced mid) refl)

unmarshal-braced :
    (mid : Text) (fs : Fields) (env : ResponseEnvelope)
    → IsReadable (braced mid) (obj fs)
    → decode_response (obj fs) ≡ some env
    → parse_envelope (braced mid) ≡ typed (record env { type = inferred_type env })
unfolding parse_envelope unmarshal
unmarshal-braced mid fs env h e =
    rw (braced-extract mid, parse-IsReadable (braced mid) (obj fs) h, decoded, e) refl

final-IsReadable :
    (content : Text)
    → IsUnicode content
    → IsReadable (final_text content) (
        obj (
          fields (
            string_member (codes "type") final_type
            ∷ string_member (codes "content") content
            ∷ [])))
final-IsReadable content h =
    marshal_object-IsReadable (string_member (codes "type") final_type)
      (string_member (codes "content") content ∷ [])
      (
        string_member-IsMember (codes "type") final_type (ground arith) (ground arith),
        (string_member-IsMember (codes "content") content (ground arith) h, tt),
      )

-- A final answer that is written as the system prompt asks is read back by `ParseEnvelope` with
-- its content, whatever code points below 0x110000 that holds.
pub parse_public_envelope-final :
    (content : Text)
    → IsUnicode content
    → parse_public_envelope (final_text content)
      ≡ ok (record { type = final_type; content = content; tool_calls = [] })
unfolding parse_public_envelope typed inferred_type decode_response marshal_object public_calls
parse_public_envelope-final content h =
    rw (unmarshal-braced _ _ _ (final-IsReadable content h) refl) refl

-- {"type":"tool_call","tool_calls":[{"name":...,"arguments":...}]}
abbrev pub named_call_text : Text → Text → Text
named_call_text name raw =
    marshal_object ((codes "name", marshal_string name) ∷ (codes "arguments", raw) ∷ [])

abbrev pub call_text : Text → Text → Text
call_text name raw = marshal_object (
    (codes "type", marshal_string tool_call_type)
    ∷ (codes "tool_calls", singleton (named_call_text name raw))
    ∷ [])

abbrev named_members : Text → Text → Json → List Member
named_members name raw v =
    string_member (codes "name") name
    ∷ record { key = codes "arguments"; raw = raw; document = v }
    ∷ []

abbrev call_members : Text → Text → Json → List Member
call_members name raw v =
    string_member (codes "type") tool_call_type
    ∷ record {
      key = codes "tool_calls";
      raw = singleton (named_call_text name raw);
      document = arr (cons (obj (fields (named_members name raw v))) nil);
    }
    ∷ []

-- The envelope of one call, as it is read, and as ParseEnvelope reports it.
abbrev one_response : List ToolCallEnvelope → ResponseEnvelope
one_response calls = record {
  type = tool_call_type;
  content = [];
  tool = [];
  name = [];
  arguments = [];
  tool_calls = calls;
}

abbrev pub one_envelope : Text → Text → Envelope
one_envelope name written = record {
  type = tool_call_type;
  content = [];
  tool_calls = record { id = codes "call_1"; name = name; arguments = written } ∷ [];
}
