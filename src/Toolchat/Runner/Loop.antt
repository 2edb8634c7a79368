-- ===== src/Toolchat/Runner/Loop.antt =====
-- toolchat/toolchat.go: Generate.
pub mod Invariant
pub mod Rounds
pub mod Generate
pub mod Grammar
use go_llama_cpp.Base.{
  ℕ, zero, suc, ◌+◌, Bool, true, false, ◌&&◌, not, Option, none, some, List, [], ◌∷◌, ◌++◌, map,
  if◌then◌else◌, Text, text_beq, is_empty, Result, ok, err,
}
use go_llama_cpp.Strings.{codes}
use go_llama_cpp.Options.Types.{PredictOption}
use go_llama_cpp.Options.Predict.{with_grammar}
use go_llama_cpp.Llama.Types.{ChatMessage}
use go_llama_cpp.Toolchat.Types.{
  is_never, Error, cancelled, template_failed, predict_failed, parse_failed, choice_is_never,
  unsupported_type, max_turns_reached, ToolCall, ToolResult,
}
use go_llama_cpp.Toolchat.Envelope.Decode.{ResponseEnvelope}
use go_llama_cpp.Toolchat.Envelope.Parse.{final_type, tool_call_type, parse_envelope}
use go_llama_cpp.Toolchat.Prompt.{prompt_messages, format_tool_results}
use go_llama_cpp.Toolchat.Grammar.Lexical.{Runtime}
use go_llama_cpp.Toolchat.Runner.Config.{World, Runner, RunnerConfig, prepare}
use go_llama_cpp.Toolchat.Runner.Execute.{execute_tool_calls}

pub record Response : Type 0 where
  pub content : Text
  pub tool_calls : List ToolCall
  pub tool_results : List ToolResult
  pub turns : ℕ
  pub raw_outputs : List Text
  pub messages : List ChatMessage

abbrev pub no_response : Response
no_response = record {
  content = [];
  tool_calls = [];
  tool_results = [];
  turns = 0;
  raw_outputs = [];
  messages = [];
}

abbrev pub assistant : Text → ChatMessage
assistant raw = record { role = codes "assistant"; content = raw }

abbrev pub user : Text → ChatMessage
user text = record { role = codes "user"; content = text }

-- How a round of the loop ends: with a return, or with the history and response of the next round.
pub data Round : Type 0 where
  return : Response → Option Error → Round
  next : List ChatMessage → Response → Round

-- The options of a round: those of the configuration, then the grammar.
pub round_options : RunnerConfig → Response → List PredictOption
round_options cfg resp =
    let grammar = if is_empty resp.tool_results then cfg.grammar else cfg.followup_grammar in
    cfg.predict_options
    ++ (if not cfg.disable_grammar && not (is_empty grammar) then with_grammar grammar ∷ [] else [])

-- The response with what was executed.
with_results : List ToolResult → Response → Response
with_results results resp = record resp {
  tool_calls = resp.tool_calls ++ map (λ r. r.call) results;
  tool_results = resp.tool_results ++ results;
}

pub after_tools : List ChatMessage → Response → Text → List ToolResult × Option Error → Round
unfolding with_results
after_tools history resp raw (results, some e) = return resp (some e)
after_tools history resp raw (results, none) =
    let history' = history ++ (assistant raw ∷ user (format_tool_results results) ∷ []) in
    next history' (record (with_results results resp) { messages = history' })

module _ {W : Type 0} (world : World W) (cfg : RunnerConfig) where
  -- `case "tool_call"`
  run_tools : ℕ → List ChatMessage → Response → Text → ResponseEnvelope → W → Round × W
  unfolding after_tools
  run_tools turn history resp raw env w =
      if is_never cfg.tool_choice
      then (return resp (some choice_is_never), w)
      else (let (found, w') = execute_tool_calls world cfg turn env.tool_calls w in
          (after_tools history resp raw found, w'))

  -- The switch on the type.
  on_envelope : ℕ → List ChatMessage → Response → Text → ResponseEnvelope → W → Round × W
  unfolding run_tools
  on_envelope turn history resp raw env w =
      if text_beq env.type final_type
      then (
        return (record resp { content = env.content; messages = history ++ assistant raw ∷ [] })
            none,
        w,
      )
      else if text_beq env.type tool_call_type
      then run_tools turn history resp raw env w
      else (return resp (some (unsupported_type env.type)), w)

  on_parsed : ℕ → List ChatMessage → Response → Text → Result Error ResponseEnvelope → W → Round × W
  unfolding on_envelope
  on_parsed turn history resp raw (err e) w = (return resp (some (parse_failed e)), w)
  on_parsed turn history resp raw (ok env) w = on_envelope turn history resp raw env w

  on_output : ℕ → List ChatMessage → Response → (Text × Option Text) × W → Round × W
  unfolding on_parsed
  on_output turn history resp ((raw, some e), w) = (
    return (record resp { raw_outputs = resp.raw_outputs ++ raw ∷ [] }) (some (predict_failed e)),
    w,
  )
  on_output turn history resp ((raw, none), w) =
      on_parsed turn history
        (record resp { raw_outputs = resp.raw_outputs ++ raw ∷ []; turns = turn + 1 }) raw
        (parse_envelope raw) w

  on_prompt : ℕ → List ChatMessage → Response → Result Text Text × W → Round × W
  unfolding on_output round_options
  on_prompt turn history resp (err e, w) = (return resp (some (template_failed e)), w)
  on_prompt turn history resp (ok prompt, w) =
      on_output turn history resp (world.predict prompt (round_options cfg resp) w)

  on_context : ℕ → List ChatMessage → Response → Option Text × W → Round × W
  unfolding on_prompt
  on_context turn history resp (some e, w) = (return resp (some (cancelled e)), w)
  on_context turn history resp (none, w) =
      on_prompt turn history resp
        (world.apply_chat_template (prompt_messages cfg.system_prompt history) true w)

  -- One round of the loop.
  round : ℕ → List ChatMessage → Response → W → Round × W
  unfolding on_context
  round turn history resp w = on_context turn history resp (world.ctx_err w)

  abbrev continue_with :
      (List ChatMessage → Response → W → (Response × Option Error) × W)
      → Round × W
      → (Response × Option Error) × W
  continue_with rest (return resp e, w) = ((resp, e), w)
  continue_with rest (next history resp, w) = rest history resp w

  -- The loop, with the rounds that are left.
  pub turns_from : ℕ → ℕ → List ChatMessage → Response → W → (Response × Option Error) × W
  unfolding round
  turns_from zero turn history resp w = ((resp, some (max_turns_reached cfg.max_turns)), w)
  turns_from (suc left) turn history resp w =
      continue_with (turns_from left (suc turn)) (round turn history resp w)

-- `Runner.Generate`
unfoldable pub generate :
    {W : Type 0} → Runtime → World W → Runner → List ChatMessage → W → (Response × Option Error) × W
unfolding turns_from
generate go world r messages w = elim (prepare go r) [
  | err e ↦ ((no_response, some e), w)
  | ok cfg ↦
      turns_from world cfg cfg.max_turns 0 messages (record no_response { messages = messages }) w
]
