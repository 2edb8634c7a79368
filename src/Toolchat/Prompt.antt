-- ===== src/Toolchat/Prompt.antt =====
-- toolchat/toolchat.go: systemPrompt, toolDescriptorsJSON, promptMessages, formatToolResults and
-- marshalToolOutput; toolchat/protocol.go: SystemPrompt and FormatToolResults.
pub mod Laws
use go_llama_cpp.Base.{
  Bool, true, false, ◌||◌, not, List, [], ◌∷◌, ◌++◌, if◌then◌else◌, Text, text_beq, is_empty, map,
  ◌&&◌, Result, ok, err, ◌>>=◌,
}
use go_llama_cpp.Strings.{codes, trim_space, join}
use go_llama_cpp.Json.Parse.{valid}
use go_llama_cpp.Json.Print.{marshal_string, marshal_object, compact, indent}
use go_llama_cpp.Llama.Types.{ChatMessage}
use go_llama_cpp.Toolchat.Types.{
  ToolChoice, is_choice, is_never, is_required, choice_or_auto, Error, unsupported_choice,
  ToolResult, Value, nothing, raw_message, bytes, other, Tool,
}
use go_llama_cpp.Toolchat.Tools.{normalize_tools}

-- A member that `omitempty` leaves out when its text is empty.
abbrev optional : Text → Text → Text → List (Text × Text)
optional key text value = if is_empty text then [] else (key, value) ∷ []

descriptor : Tool → Text
unfolding marshal_object marshal_string
descriptor t = marshal_object (
    (codes "type", marshal_string (codes "function"))
    ∷ (
      codes "function",
      marshal_object (
          (codes "name", marshal_string t.name)
          ∷ (optional (codes "description") t.description (marshal_string t.description)
              ++ (codes "parameters", compact t.schema) ∷ [])),
    )
    ∷ [])

abbrev all_valid : List Tool → Bool
all_valid [] = true
all_valid (t ∷ ts) = elim (valid t.schema) [ true ↦ all_valid ts | false ↦ false ]

-- `json.MarshalIndent` fails on a schema that is not JSON.
tool_descriptors_json : List Tool → Text
unfolding descriptor join indent compact
tool_descriptors_json ts =
    if all_valid ts
    then indent (b'[' ∷ (join (map descriptor ts) (b',' ∷ []) ++ b']' ∷ []))
    else codes "[]"

abbrev protocol_lines : Text
protocol_lines =
    codes "Use the local llama.cpp JSON protocol for every assistant response.\n"
    ++ codes
        "Final answers must be exactly one JSON object: {\"type\":\"final\",\"content\":\"...\"}.\n"

abbrev call_line : Text
call_line =
    codes
      "When a tool is needed, respond with exactly one JSON object: {\"type\":\"tool_call\",\"tool_calls\":[{\"name\":\"tool_name\",\"arguments\":{...}}]}.\n"

abbrev choice_line : ToolChoice → Text
choice_line choice =
    if is_required choice
    then codes "You must call one of the available tools before giving a final answer.\n"
    else codes "Call a tool only when the available tool result is needed to answer correctly.\n"

abbrev result_lines : Text
result_lines =
    codes
      "After tool results are provided, use them to continue and return either another tool_call or a final answer.\n"
    ++ codes "Available tools in OpenAI-compatible function shape:\n"

base_lines : Text → Text
unfolding trim_space
base_lines base = if is_empty (trim_space base) then [] else trim_space base ++ (10 ∷ 10 ∷ [])

unfoldable pub system_prompt : Text → List Tool → ToolChoice → Text
unfolding base_lines tool_descriptors_json
system_prompt base tools choice =
    base_lines base
    ++ (protocol_lines
        ++ (if is_never choice || is_empty tools
            then codes "Do not call tools.\n"
            else call_line
              ++ (choice_line choice ++ (result_lines ++ tool_descriptors_json tools))))

-- `SystemPrompt`
unfoldable pub public_system_prompt : Text → List Tool → ToolChoice → Result Error Text
public_system_prompt base tools choice =
    if not (is_choice (choice_or_auto choice)) then err (unsupported_choice choice) else (do
      r ← normalize_tools tools (choice_or_auto choice) false
      ok (system_prompt base r.0 (choice_or_auto choice)))

abbrev system_role : Text
system_role = codes "system"

-- `runnerConfig.promptMessages`, with the configured system prompt.
unfoldable pub prompt_messages : Text → List ChatMessage → List ChatMessage
prompt_messages prompt [] = record { role = system_role; content = prompt } ∷ []
prompt_messages prompt (m ∷ history) =
    if text_beq m.role system_role
    then record m { content = prompt ++ (10 ∷ 10 ∷ m.content) } ∷ history
    else record { role = system_role; content = prompt } ∷ m ∷ history

-- One JSON line; a result that is not JSON gives no line.
result_line : ToolResult → Text
unfolding marshal_object marshal_string compact valid
result_line r =
    if not (is_empty r.content) && not (valid r.content)
    then []
    else marshal_object (
        optional (codes "id") r.call.id (marshal_string r.call.id)
        ++ ((codes "name", marshal_string r.call.name)
            ∷ (optional (codes "result") r.content (compact r.content)
                ++ (optional (codes "error") r.error (marshal_string r.error)
                    ++ optional (codes "errored") r.error (codes "true")))))
      ++ 10 ∷ []

result_lines_of : List ToolResult → Text
unfolding result_line
result_lines_of [] = []
result_lines_of (r ∷ rs) = result_line r ++ result_lines_of rs

-- `formatToolResults` and `FormatToolResults`
unfoldable pub format_tool_results : List ToolResult → Text
unfolding result_lines_of
format_tool_results rs =
    codes "Tool results are available as JSON lines:\n"
    ++ (result_lines_of rs
        ++ codes "Use the tool results above. Return the next JSON protocol object only.")

abbrev invalid_raw_message : Text
invalid_raw_message = codes "json.RawMessage is invalid JSON"

-- `marshalToolOutput`; an error is its text.
unfoldable pub marshal_tool_output : Value → Result Text Text
unfolding marshal_string
marshal_tool_output nothing = ok (codes "null")
marshal_tool_output (raw_message v) = if valid v then ok v else err invalid_raw_message
marshal_tool_output (bytes v) = if valid v then ok v else ok (marshal_string v)
marshal_tool_output (other r) = r

-- `mustMarshalJSON` of the error's map.
unfoldable pub error_content : Text → Text
unfolding marshal_object
error_content message = marshal_object ((codes "error", marshal_string message) ∷ [])
