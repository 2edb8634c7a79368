-- ===== src/Toolchat/Runner/Config.antt =====
-- toolchat/toolchat.go: Runner, runnerConfig and prepare; and the world that a run acts on.
pub mod Laws
use go_llama_cpp.Base.{
  ℕ, suc, ℤ, pos, is_positive, Bool, true, false, ◌&&◌, not, Option, none, some, List, [], ◌∷◌,
  if◌then◌else◌, Text, Result, ok, err, ◌>>=◌,
}
use go_llama_cpp.Options.Types.{PredictOption}
use go_llama_cpp.Options.Predict.{set_tokens}
use go_llama_cpp.Llama.Types.{ChatMessage}
use go_llama_cpp.Toolchat.Types.{
  ToolChoice, auto, is_choice, is_required, choice_or_auto, Error, no_model, unsupported_choice,
  Tool, Value,
}
use go_llama_cpp.Toolchat.Tools.{normalize_tools}
use go_llama_cpp.Toolchat.Prompt.{system_prompt}
use go_llama_cpp.Toolchat.Grammar.Lexical.{Runtime}
use go_llama_cpp.Toolchat.Grammar.Envelope.{envelope_grammar}

-- What `Generate` acts on, with a state of any type: the methods of a `Model` (an error is its
-- text), the functions of the tools, and `ctx.Err()`, whose answer may change between two calls.
pub record World (W : Type 0) : Type 0 where
  pub apply_chat_template : List ChatMessage → Bool → W → Result Text Text × W
  pub predict : Text → List PredictOption → W → (Text × Option Text) × W
  pub call : ℕ → Text → W → Result Text Value × W
  pub ctx_err : W → Option Text × W

-- `has_model` says that `Model` is not nil.
pub record Runner : Type 0 where
  pub has_model : Bool
  pub tools : List Tool
  pub max_turns : ℤ
  pub predict_options : List PredictOption
  pub system_prompt : Text
  pub tool_choice : ToolChoice
  pub disable_grammar : Bool
  pub fail_on_tool_error : Bool

pub record RunnerConfig : Type 0 where
  pub tools : List Tool
  pub tools_by_name : List (Text × Tool)
  pub max_turns : ℕ
  pub predict_options : List PredictOption
  pub system_prompt : Text
  pub tool_choice : ToolChoice
  pub disable_grammar : Bool
  pub fail_on_tool_error : Bool
  pub grammar : Text
  pub followup_grammar : Text

abbrev pub default_max_turns : ℕ
default_max_turns = 4

-- `maxTurns`, where a number that is not positive means the default.
unfoldable pub turns_or_default : ℤ → ℕ
turns_or_default (pos (suc n)) = suc n
turns_or_default _ = default_max_turns

module _ (go : Runtime) where
  -- The grammar of the first turn and that of the turns after a tool has run.
  unfoldable pub grammars : Bool → List Tool → ToolChoice → Result Error (Text × Text)
  grammars true tools choice = ok ([], [])
  grammars false tools choice = do
    first ← envelope_grammar go tools choice
    later ← (if is_required choice then envelope_grammar go tools auto else ok first)
    ok (first, later)

  unfoldable pub configured :
      Runner → ToolChoice → List Tool → List (Text × Tool) → Text × Text → RunnerConfig
  unfolding turns_or_default
  configured r choice tools by_name texts = record {
    tools = tools;
    tools_by_name = by_name;
    max_turns = turns_or_default r.max_turns;
    predict_options = set_tokens (pos 0) ∷ r.predict_options;
    system_prompt = system_prompt r.system_prompt tools choice;
    tool_choice = choice;
    disable_grammar = r.disable_grammar;
    fail_on_tool_error = r.fail_on_tool_error;
    grammar = texts.0;
    followup_grammar = texts.1;
  }

  prepared : Runner → ToolChoice → Result Error RunnerConfig
  unfolding grammars configured
  prepared r choice = do
    found ← normalize_tools r.tools choice true
    texts ← grammars r.disable_grammar found.0 choice
    ok (configured r choice found.0 found.1 texts)

  unfoldable pub prepare : Runner → Result Error RunnerConfig
  unfolding prepared
  prepare r =
      if not r.has_model
      then err no_model
      else if not (is_choice (choice_or_auto r.tool_choice))
      then err (unsupported_choice (choice_or_auto r.tool_choice))
      else prepared r (choice_or_auto r.tool_choice)
