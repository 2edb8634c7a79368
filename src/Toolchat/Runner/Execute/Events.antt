-- ===== src/Toolchat/Runner/Execute/Events.antt =====
-- toolchat/toolchat.go: what executeToolCalls asks of the world, and what it may make of the answers.
use go_llama_cpp.Base.{
  ℕ, suc, ◌≡◌, true, false, Option, none, some, List, [], ◌∷◌, ◌++◌, Text, lookup, text_eq, Result,
  ok, err,
}
use go_llama_cpp.Json.Parse.{valid}
use go_llama_cpp.Toolchat.Types.{
  Error, no_tool_calls, unknown_tool, invalid_arguments, cancelled, nil_call, tool_failed,
  marshal_failed, ToolCall, ToolResult, Tool, Value,
}
use go_llama_cpp.Toolchat.Envelope.Decode.{ToolCallEnvelope}
use go_llama_cpp.Toolchat.Prompt.{marshal_tool_output, error_content}
use go_llama_cpp.Toolchat.Runner.Config.{World, RunnerConfig}
use go_llama_cpp.Toolchat.Runner.Execute.{tool_call_of}

-- A call of a function behind a tool, with what it answered.
pub record Called : Type 0 where
  pub function : ℕ
  pub arguments : Text
  pub answer : Result Text Value

-- What the execution asks of the world: the state of the context, and the functions.
pub data Event : Type 0 where
  asked : Option Text → Event
  invoked : Called → Event

-- The same world with a record of what it is asked.
abbrev pub logged : {W : Type 0} → World W → World (W × List Event)
logged world = record {
  apply_chat_template = λ messages add (w, log).
      let r = world.apply_chat_template messages add w in (r.0, (r.1, log));
  predict = λ prompt opts (w, log). let r = world.predict prompt opts w in (r.0, (r.1, log));
  call = λ f arguments (w, log).
      let r = world.call f arguments w in
      let k : Called = record { function = f; arguments = arguments; answer = r.0 } in
      (r.0, (r.1, log ++ invoked k ∷ []));
  ctx_err = λ (w, log). let r = world.ctx_err w in (r.0, (r.1, log ++ asked r.0 ∷ []));
}

module _ (cfg : RunnerConfig) where
  -- A request of a tool, with arguments that are JSON.
  pub record IsReady (tc : ToolCall) (tool : Tool) : Type 0 where
    pub known : lookup tc.name cfg.tools_by_name ≡ some tool
    pub json : valid tc.arguments ≡ true

  -- The call of a request: that of the function of its tool, with its arguments.
  pub record IsCall (tc : ToolCall) (k : Called) : Type 0 where
    pub tool : Tool
    pub ready : IsReady tc tool
    pub function : tool.call ≡ some k.function
    pub arguments : k.arguments ≡ tc.arguments

  -- The result that an answer gives: the value as JSON, or the error, if that may be passed on.
  abbrev pub IsResult : ToolCall → Result Text Value → ToolResult → Type 0
  IsResult tc (ok value) r =
      (content : Text) × (marshal_tool_output value ≡ ok content)
      × (r ≡ record { call = tc; content = content; error = [] })
  IsResult tc (err e) r =
      (cfg.fail_on_tool_error ≡ false)
      × (r ≡ record { call = tc; content = error_content e; error = e })

  -- The error that an answer ends with.
  abbrev pub IsFailure : ToolCall → Result Text Value → Error → Type 0
  IsFailure tc (ok value) x =
      (e : Text) × (marshal_tool_output value ≡ err e) × (x ≡ marshal_failed tc.name e)
  IsFailure tc (err e) x = (cfg.fail_on_tool_error ≡ true) × (x ≡ tool_failed tc.name e)

  -- What one request leads to: what is asked for it, and a result or an error.
  pub data One (tc : ToolCall) : List Event → Result Error ToolResult → Type 0 where
    not_known : lookup tc.name cfg.tools_by_name ≡ none → One tc [] (err (unknown_tool tc.name))
    not_json :
        (tool : Tool)
        → lookup tc.name cfg.tools_by_name ≡ some tool
        → valid tc.arguments ≡ false
        → One tc [] (err (invalid_arguments tc.name))
    context_ended :
        (tool : Tool) (e : Text)
        → IsReady tc tool
        → One tc (asked (some e) ∷ []) (err (cancelled e))
    no_function :
        (tool : Tool)
        → IsReady tc tool
        → tool.call ≡ none
        → One tc (asked none ∷ []) (err (nil_call tc.name))
    failed :
        (k : Called) {x : Error}
        → IsCall tc k
        → IsFailure tc k.answer x
        → One tc (asked none ∷ invoked k ∷ []) (err x)
    answered :
        (k : Called) {r : ToolResult}
        → IsCall tc k
        → IsResult tc k.answer r
        → One tc (asked none ∷ invoked k ∷ []) (ok r)

  -- What a list of requests leads to, from place `i` on: each in its turn, until an error.
  pub data Trace (turn : ℕ)
      : ℕ → List ToolCallEnvelope → List Event → List ToolResult × Option Error → Type 0 where
    all_done : {i : ℕ} → Trace turn i [] [] ([], none)
    ended :
        {i : ℕ} {c : ToolCallEnvelope} {cs : List ToolCallEnvelope} {events : List Event}
        {x : Error}
        → One (tool_call_of turn i c) events (err x)
        → Trace turn i (c ∷ cs) events ([], some x)
    more :
        {i : ℕ} {c : ToolCallEnvelope} {cs : List ToolCallEnvelope} {events later : List Event}
        {r : ToolResult} {rest : List ToolResult × Option Error}
        → One (tool_call_of turn i c) events (ok r)
        → Trace turn (suc i) cs later rest
        → Trace turn i (c ∷ cs) (events ++ later) (r ∷ rest.0, rest.1)

  -- What a response's requests lead to; none at all are an error.
  abbrev pub IsExecution :
      ℕ → List ToolCallEnvelope → List Event → List ToolResult × Option Error → Type 0
  IsExecution turn [] events out = (events ≡ []) × (out ≡ ([], some no_tool_calls))
  IsExecution turn (c ∷ cs) events out = Trace turn 0 (c ∷ cs) events out
