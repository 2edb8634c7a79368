-- ===== src/Toolchat/Envelope/Calls.antt =====
-- toolchat/toolchat.go: normalizeArguments and normalizeToolCalls.
pub mod Laws
pub mod RoundTrip
use go_llama_cpp.Base.{
  ℕ, suc, Bool, true, false, ◌&&◌, ◌||◌, not, Option, none, some, List, [], ◌∷◌, if◌then◌else◌,
  Text, text_beq, is_empty, Result, ok, err, ◌>>=◌,
}
use go_llama_cpp.Strings.{codes, trim_space}
use go_llama_cpp.Json.{Json, str}
use go_llama_cpp.Json.Parse.{parse, valid}
use go_llama_cpp.Toolchat.Types.{
  Error, no_tool_call, missing_name, invalid_json, string_without_json, arguments,
}
use go_llama_cpp.Toolchat.Envelope.Decode.{
  FunctionCallEnvelope, ToolCallEnvelope, ResponseEnvelope, no_call,
}

abbrev pub empty_object : Text
empty_object = codes "{}"

-- The text inside a JSON string, as arguments.
unquoted : Text → Result Error Text
unquoted s =
    if is_empty s then ok empty_object else if valid s then ok s else err string_without_json

-- A parsed document: `json.Unmarshal` into a string succeeds exactly on a JSON string here.
from_document : Text → Json → Result Error Text
unfolding unquoted
from_document raw (str t) = unquoted (trim_space t)
from_document raw v = ok raw

parsed_arguments : Text → Option Json → Result Error Text
unfolding from_document
parsed_arguments raw none = err invalid_json
parsed_arguments raw (some v) = from_document raw v

trimmed_arguments : Text → Result Error Text
unfolding parsed_arguments
trimmed_arguments raw =
    if is_empty raw || text_beq raw (codes "null")
    then ok empty_object
    else parsed_arguments raw (parse raw)

unfoldable pub normalize_arguments : Text → Result Error Text
unfolding trimmed_arguments
normalize_arguments raw = trimmed_arguments (trim_space raw)

-- What an OpenAI function payload fills in.
from_function : Option FunctionCallEnvelope → ToolCallEnvelope → ToolCallEnvelope
from_function none c = c
from_function (some f) c = record c {
  name = if is_empty c.name then f.name else c.name;
  arguments = if is_empty c.arguments then f.arguments else c.arguments;
}

name_or_tool : ToolCallEnvelope → ToolCallEnvelope
name_or_tool c = record c { name = if is_empty c.name then c.tool else c.name }

abbrev arguments_error : Text → Result Error Text → Result Error Text
arguments_error name (ok args) = ok args
arguments_error name (err e) = err (arguments name e)

-- The body of the loop, for the call at index `i`.
named_call : ℕ → ToolCallEnvelope → Result Error ToolCallEnvelope
named_call i c = if is_empty c.name then err (missing_name i) else (do
  args ← arguments_error c.name (normalize_arguments c.arguments)
  ok (record c { arguments = args }))

normalize_call : ℕ → ToolCallEnvelope → Result Error ToolCallEnvelope
unfolding named_call from_function name_or_tool
normalize_call i c = named_call i (name_or_tool (from_function c.function c))

normalize_calls_from : ℕ → List ToolCallEnvelope → Result Error (List ToolCallEnvelope)
unfolding normalize_call
normalize_calls_from i [] = ok []
normalize_calls_from i (c ∷ cs) = do
  c' ← normalize_call i c
  cs' ← normalize_calls_from (suc i) cs
  ok (c' ∷ cs')

-- A legacy object names its single tool itself.
unfoldable pub requested_calls : ResponseEnvelope → List ToolCallEnvelope
requested_calls env =
    if is_empty env.tool_calls && (not (is_empty env.tool) || not (is_empty env.name))
    then record no_call { tool = env.tool; name = env.name; arguments = env.arguments } ∷ []
    else env.tool_calls

unfoldable pub normalize_tool_calls : ResponseEnvelope → Result Error (List ToolCallEnvelope)
unfolding normalize_calls_from
normalize_tool_calls env =
    let calls = requested_calls env in
    if is_empty calls then err no_tool_call else normalize_calls_from 0 calls
