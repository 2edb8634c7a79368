-- ===== src/Toolchat/Examples.antt =====
-- The package toolchat at small inputs.
mod RoundTrip
mod Schemas
use go_llama_cpp.Base.{
  length, ℕ, pos, ◌≡◌, ◌≢◌, ◌↔◌, refl, true, false, none, some, List, [], ◌∷◌, ◌++◌, map, Text, ok,
  err, All, lookup, text_eq, zero, suc, IsSorted, text_lt, arith, sort_by, insert,
}
use mathlib.Core.List.{Perm}
use go_llama_cpp.Strings.{codes, has_prefix, trim_space, index, last_index}
use go_llama_cpp.Json.Parse.{valid, parse}
use go_llama_cpp.Llama.Types.{ChatMessage}
use go_llama_cpp.Toolchat.Types.{
  ToolChoice, auto, never, required, unknown_tool, Tool, nothing, ToolResult,
}
use go_llama_cpp.Toolchat.Names.{validate_tool_name, IsToolName, validate_tool_name_iff}
use go_llama_cpp.Toolchat.Tools.{normalize_tools, by_name, with_schema}
use go_llama_cpp.Toolchat.Tools.Laws.{
  IsUsable, HasDistinctNames, normalize_tools_accepts, normalize_tools_result,
}
use go_llama_cpp.Toolchat.Tools.Laws.Callable.{normalize_tools-HasCalls}
use go_llama_cpp.Toolchat.Envelope.Extract.{extract_json_object, strip_markdown_fence}
use go_llama_cpp.Toolchat.Envelope.Extract.Laws.{
  braced, fenced, extract_json_object-prose, extract_json_object-fenced,
}
use go_llama_cpp.Toolchat.Envelope.Decode.{ToolCallEnvelope, ResponseEnvelope, decode_response}
use go_llama_cpp.Toolchat.Envelope.Calls.{
  normalize_arguments, normalize_tool_calls, requested_calls,
}
use go_llama_cpp.Toolchat.Envelope.Calls.Laws.{
  IsWellFormed, normalize_arguments-valid, normalize_tool_calls-IsWellFormed,
}
use go_llama_cpp.Toolchat.Envelope.Parse.{parse_envelope}
use go_llama_cpp.Toolchat.Envelope.Parse.Laws.{IsProtocol, parse_envelope-IsProtocol}
use go_llama_cpp.Toolchat.Grammar.Lexical.{Runtime}
use go_llama_cpp.Toolchat.Runner.Config.{World, Runner, RunnerConfig, prepare, configured, grammars}
use go_llama_cpp.Toolchat.Runner.Execute.{execute_tool_calls}
use go_llama_cpp.Toolchat.Runner.Execute.Laws.{IsAllowed, calls_of}
use go_llama_cpp.Toolchat.Runner.Execute.Events.{logged, IsExecution}
use go_llama_cpp.Toolchat.Runner.Execute.Trace.{execute_tool_calls-IsExecution}
use go_llama_cpp.Toolchat.Runner.Loop.{generate, no_response, round_options}
use go_llama_cpp.Toolchat.Runner.Loop.Grammar.{root_line, round_choice, round_options-root}
use go_llama_cpp.Toolchat.Grammar.Envelope.{grammar_text, envelope_grammar}
use go_llama_cpp.Toolchat.Prompt.{prompt_messages, marshal_tool_output}
use go_llama_cpp.Toolchat.Prompt.Laws.{IsPrompt, prompt_messages-IsPrompt}
use go_llama_cpp.Options.Predict.{with_grammar, new_predict_options}
use go_llama_cpp.Toolchat.Runner.Loop.Invariant.{IsReturned}
use go_llama_cpp.Toolchat.Runner.Loop.Generate.{with_calls, generate-IsReturned, generate-never}

abbrev pub runtime : Runtime
runtime = record { is_print = λ c. false; format_number = λ s. s }

-- A model that asks for the time and then answers; the state counts its answers.
abbrev answers : ℕ → Text
answers zero = codes "{\"type\":\"tool_call\",\"tool_calls\":[{\"name\":\"now\"}]}"
answers (suc n) = codes "{\"type\":\"final\",\"content\":\"noon\"}"

abbrev clock : World ℕ
clock = record {
  apply_chat_template = λ messages add n. (ok [], n);
  predict = λ prompt opts n. ((answers n, none), suc n);
  call = λ f args n. (ok nothing, n);
  ctx_err = λ n. (none, n);
}

abbrev now : Tool
now = record { name = codes "now"; description = []; schema = codes "{}"; call = some 0 }

abbrev tools : List Tool
tools = now ∷ []

abbrev runner : ToolChoice → Runner
runner choice = record {
  has_model = true;
  tools = tools;
  max_turns = pos 0;
  predict_options = [];
  system_prompt = [];
  tool_choice = choice;
  disable_grammar = true;
  fail_on_tool_error = false;
}

abbrev config : RunnerConfig
config = configured runtime (runner auto) auto tools ((codes "now", now) ∷ []) ([], [])

abbrev question : List ChatMessage
question = record { role = codes "user"; content = codes "time?" } ∷ []

prepared : prepare runtime (runner auto) ≡ ok config
unfolding prepare normalize_tools valid parse text_lt lookup sort_by insert
prepared = refl

generate-IsReturned_example :
    let out = (generate runtime clock (runner auto) question 0).0 in
    IsReturned config question config.max_turns out.0 out.1
generate-IsReturned_example =
    generate-IsReturned runtime clock (runner auto) question 0 {cfg = config} prepared

generate-never_example :
    generate runtime (with_calls clock (λ f args n. (err [], n))) (runner never) question 0
    ≡ generate runtime clock (runner never) question 0
generate-never_example =
    generate-never runtime clock (λ f args n. (err [], n)) (runner never) question 0 refl

-- The request of the first answer, as it is after the envelope was parsed.
abbrev request : ToolCallEnvelope
request = record {
  id = [];
  type = [];
  tool = [];
  name = codes "now";
  arguments = codes "{}";
  function = none;
}

abbrev asked : ResponseEnvelope
asked = record {
  type = codes "tool_call";
  content = [];
  tool = [];
  name = [];
  arguments = [];
  tool_calls = request ∷ [];
}

parse_envelope-IsProtocol_example : IsProtocol asked
unfolding parse_envelope extract_json_object trim_space has_prefix parse valid normalize_tool_calls
    normalize_arguments index strip_markdown_fence last_index decode_response requested_calls
parse_envelope-IsProtocol_example = parse_envelope-IsProtocol (answers 0) {env = asked} refl

asked-normalized : normalize_tool_calls asked ≡ ok (request ∷ [])
unfolding normalize_tool_calls normalize_arguments parse valid trim_space requested_calls
asked-normalized = refl

normalize_tool_calls-IsWellFormed_example : All IsWellFormed (request ∷ []) × (request ∷ [] ≢ [])
normalize_tool_calls-IsWellFormed_example =
    normalize_tool_calls-IsWellFormed asked {cs = request ∷ []} asked-normalized

quoted_arguments : normalize_arguments (codes " \"{ }\" ") ≡ ok (codes "{ }")
unfolding normalize_arguments parse valid trim_space
quoted_arguments = refl

normalize_arguments-valid_example : valid (codes "{ }") ≡ true
normalize_arguments-valid_example =
    normalize_arguments-valid (codes " \"{ }\" ") {a = codes "{ }"} quoted_arguments

extract_json_object-prose_example :
    extract_json_object (codes "Sure: " ++ (b'{' ∷ (codes "\"a\":{}" ++ b'}' ∷ codes " ok")))
    ≡ ok (braced (codes "\"a\":{}"))
unfolding has_prefix trim_space
extract_json_object-prose_example =
    extract_json_object-prose (codes "Sure: ") (codes "\"a\":{}") (codes " ok") (ground arith)
      (ground arith) refl

extract_json_object-fenced_example :
    extract_json_object (fenced (codes "json") (braced (codes "\n1\n")))
    ≡ ok (braced (codes "\n1\n"))
extract_json_object-fenced_example =
    extract_json_object-fenced (codes "json") (codes "\n1\n") (ground arith)

validate_tool_name_iff_example :
    (validate_tool_name (codes "get_time-2") ≡ none) ↔ IsToolName (codes "get_time-2")
validate_tool_name_iff_example = validate_tool_name_iff (codes "get_time-2")

normalize_tools_accepts_example :
    ((r : List Tool × List (Text × Tool)) × (normalize_tools tools required true ≡ ok r)) ↔ (
      (required ≡ required → tools ≢ [])
      × All (IsUsable required true) tools
      × HasDistinctNames tools)
normalize_tools_accepts_example = normalize_tools_accepts required true tools

abbrev registered : List Tool × List (Text × Tool)
registered = (tools, (codes "now", now) ∷ [])

tools-normalized : normalize_tools tools auto true ≡ ok registered
unfolding normalize_tools valid parse text_lt lookup sort_by insert
tools-normalized = refl

normalize_tools_result_example :
    IsSorted by_name registered.0
    × Perm registered.0 (map with_schema tools)
    × All (λ t. lookup t.name registered.1 ≡ some t) registered.0
    × ((n : Text) → All (λ t. t.name ≢ n) tools → lookup n registered.1 ≡ none)
normalize_tools_result_example =
    normalize_tools_result auto true tools {r = registered} tools-normalized

found : lookup (codes "now") registered.1 ≡ some now
unfolding lookup
found = refl

normalize_tools-HasCalls_example : now.call ≢ none
normalize_tools-HasCalls_example =
    normalize_tools-HasCalls auto tools {r = registered} tools-normalized refl (codes "now") now
      found

execute_tool_calls-IsExecution_example :
    let out = execute_tool_calls (logged clock) config 0 (request ∷ []) (1, []) in
    IsExecution config 0 (request ∷ []) out.1.1 out.0
execute_tool_calls-IsExecution_example =
    execute_tool_calls-IsExecution clock config 0 (request ∷ []) 1

-- The context is asked for its state, then the function of the tool is called.
two_events : length (execute_tool_calls (logged clock) config 0 (request ∷ []) (1, [])).1.1 ≡ 2
unfolding execute_tool_calls lookup configured valid parse marshal_tool_output
two_events = refl

-- A configuration without tools: the request names one that it does not have.
abbrev bare : RunnerConfig
bare = configured runtime (runner auto) auto [] [] ([], [])

unknown :
    execute_tool_calls (logged clock) bare 0 (request ∷ []) (1, [])
    ≡ (([], some (unknown_tool (codes "now"))), (1, []))
unfolding execute_tool_calls lookup configured
unknown = refl

abbrev strict : Runner
strict = record (runner required) {
  disable_grammar = false;
  predict_options = with_grammar (codes "root ::= object") ∷ [];
}

abbrev strict_config : RunnerConfig
strict_config =
    configured runtime strict required tools ((codes "now", now) ∷ [])
      (grammar_text runtime tools required, grammar_text runtime tools auto)

strict_prepared : prepare runtime strict ≡ ok strict_config
unfolding prepare normalize_tools valid parse text_lt lookup sort_by insert envelope_grammar
    grammars
strict_prepared = refl

round_options-root_example :
    has_prefix
      (new_predict_options (round_options strict_config no_response)).grammar
      (root_line (round_choice required no_response) false)
    ≡ true
round_options-root_example =
    round_options-root runtime strict no_response {cfg = strict_config} strict_prepared refl

prompt_messages-IsPrompt_example :
    IsPrompt (codes "sys") question (prompt_messages (codes "sys") question)
prompt_messages-IsPrompt_example = prompt_messages-IsPrompt (codes "sys") question
