-- ===== src/Toolchat/Envelope/Parse.antt =====
-- toolchat/toolchat.go: parseEnvelope; toolchat/protocol.go: Envelope and ParseEnvelope.
pub mod Laws
pub mod RoundTrip
use go_llama_cpp.Base.{
  ℕ, suc, ◌+◌, Bool, true, false, ◌||◌, not, Option, none, some, List, [], ◌∷◌, ◌++◌, if◌then◌else◌,
  Text, text_beq, is_empty, Result, ok, err, ◌>>=◌,
}
use go_llama_cpp.Strings.{codes, itoa}
use go_llama_cpp.Json.{Json}
use go_llama_cpp.Json.Parse.{parse}
use go_llama_cpp.Toolchat.Types.{Error, bad_json, bad_type, ToolCall}
use go_llama_cpp.Toolchat.Envelope.Extract.{extract_json_object}
use go_llama_cpp.Toolchat.Envelope.Decode.{ToolCallEnvelope, ResponseEnvelope, decode_response}
use go_llama_cpp.Toolchat.Envelope.Calls.{normalize_tool_calls}

abbrev pub final_type : Text
final_type = codes "final"

abbrev pub tool_call_type : Text
tool_call_type = codes "tool_call"

abbrev decoded : Option Json → Result Error ResponseEnvelope
decoded none = err bad_json
decoded (some v) = elim (decode_response v) [ none ↦ err bad_json | some env ↦ ok env ]

unmarshal : Text → Result Error ResponseEnvelope
unmarshal body = decoded (parse body)

-- The type of an envelope that does not say it.
inferred_type : ResponseEnvelope → Text
inferred_type env =
    if not (is_empty env.type)
    then env.type
    else if not (is_empty env.tool) || (not (is_empty env.name) || not (is_empty env.tool_calls))
    then tool_call_type
    else if not (is_empty env.content)
    then final_type
    else []

-- The second switch.
typed : ResponseEnvelope → Result Error ResponseEnvelope
typed env =
    if text_beq env.type final_type
    then ok env
    else if text_beq env.type tool_call_type
    then (do calls ← normalize_tool_calls env; ok (record env { tool_calls = calls }))
    else err bad_type

unfoldable pub parse_envelope : Text → Result Error ResponseEnvelope
unfolding unmarshal inferred_type typed
parse_envelope raw = do
  body ← extract_json_object raw
  env ← unmarshal body
  typed (record env { type = inferred_type env })

pub record Envelope : Type 0 where
  pub type : Text
  pub content : Text
  pub tool_calls : List ToolCall

-- The loop of `ParseEnvelope`, with the identifiers that it makes up.
public_calls : ℕ → List ToolCallEnvelope → List ToolCall
unfolding itoa
public_calls i [] = []
public_calls i (c ∷ cs) =
    record {
      id = if is_empty c.id then codes "call_" ++ itoa (i + 1) else c.id;
      name = c.name;
      arguments = c.arguments;
    }
    ∷ public_calls (suc i) cs

unfoldable pub parse_public_envelope : Text → Result Error Envelope
unfolding parse_envelope public_calls
parse_public_envelope raw = do
  env ← parse_envelope raw
  ok (record { type = env.type; content = env.content; tool_calls = public_calls 0 env.tool_calls })
