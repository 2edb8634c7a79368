-- ===== src/Toolchat/Runner/Execute.antt =====
-- toolchat/toolchat.go: executeToolCalls.
pub mod Laws
pub mod Events
pub mod Trace
use go_llama_cpp.Base.{
  ℕ, suc, ◌+◌, Bool, true, false, not, Option, none, some, List, [], ◌∷◌, ◌++◌, if◌then◌else◌, Text,
  is_empty, lookup, text_eq, Result, ok, err,
}
use go_llama_cpp.Strings.{codes, itoa}
use go_llama_cpp.Json.Parse.{valid}
use go_llama_cpp.Toolchat.Types.{
  Error, no_tool_calls, unknown_tool, invalid_arguments, cancelled, nil_call, tool_failed,
  marshal_failed, ToolCall, ToolResult, Tool, Value,
}
use go_llama_cpp.Toolchat.Envelope.Decode.{ToolCallEnvelope}
use go_llama_cpp.Toolchat.Prompt.{marshal_tool_output, error_content}
use go_llama_cpp.Toolchat.Runner.Config.{World, RunnerConfig}

-- The call with an identifier, made up from the turn and the place where the model gave none.
pub tool_call_of : ℕ → ℕ → ToolCallEnvelope → ToolCall
unfolding itoa
tool_call_of turn i c = record {
  id = if is_empty c.id then codes "call_" ++ (itoa (turn + 1) ++ (b'_' ∷ itoa (i + 1))) else c.id;
  name = c.name;
  arguments = c.arguments;
}

-- What becomes of a value that `marshalToolOutput` has written.
written : ToolCall → Result Text Text → Result Error ToolResult
written tc (err e) = err (marshal_failed tc.name e)
written tc (ok content) = ok (record { call = tc; content = content; error = [] })

-- The results so far are returned with an error.
followed_by :
    {W : Type 0}
    → Result Error ToolResult × W
    → (W → (List ToolResult × Option Error) × W)
    → (List ToolResult × Option Error) × W
followed_by (err e, w) rest = (([], some e), w)
followed_by (ok r, w) rest = let (found, w') = rest w in ((r ∷ found.0, found.1), w')

module _ {W : Type 0} (world : World W) (cfg : RunnerConfig) where
  -- Behind the call of the tool's function.
  called : ToolCall → Result Text Value × W → Result Error ToolResult × W
  unfolding written
  called tc (ok value, w) = (written tc (marshal_tool_output value), w)
  called tc (err e, w) = (
    if cfg.fail_on_tool_error
        then err (tool_failed tc.name e)
        else ok (record { call = tc; content = error_content e; error = e }),
    w,
  )

  call_tool : ToolCall → Option ℕ → W → Result Error ToolResult × W
  unfolding called
  call_tool tc none w = (err (nil_call tc.name), w)
  call_tool tc (some f) w = called tc (world.call f tc.arguments w)

  unless_cancelled : ToolCall → Tool → Option Text × W → Result Error ToolResult × W
  unfolding call_tool
  unless_cancelled tc t (some e, w) = (err (cancelled e), w)
  unless_cancelled tc t (none, w) = call_tool tc t.call w

  with_tool : ToolCall → Option Tool → W → Result Error ToolResult × W
  unfolding unless_cancelled
  with_tool tc none w = (err (unknown_tool tc.name), w)
  with_tool tc (some t) w =
      if not (valid tc.arguments)
      then (err (invalid_arguments tc.name), w)
      else unless_cancelled tc t (world.ctx_err w)

  -- The body of the loop.
  execute_call : ℕ → ℕ → ToolCallEnvelope → W → Result Error ToolResult × W
  unfolding with_tool tool_call_of
  execute_call turn i c w = with_tool (tool_call_of turn i c) (lookup c.name cfg.tools_by_name) w

  execute_from : ℕ → ℕ → List ToolCallEnvelope → W → (List ToolResult × Option Error) × W
  unfolding execute_call followed_by
  execute_from turn i [] w = (([], none), w)
  execute_from turn i (c ∷ cs) w =
      followed_by (execute_call turn i c w) (execute_from turn (suc i) cs)

  unfoldable pub execute_tool_calls :
      ℕ → List ToolCallEnvelope → W → (List ToolResult × Option Error) × W
  unfolding execute_from
  execute_tool_calls turn calls w =
      if is_empty calls then (([], some no_tool_calls), w) else execute_from turn 0 calls w
