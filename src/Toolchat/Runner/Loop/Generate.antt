-- ===== src/Toolchat/Runner/Loop/Generate.antt =====
-- toolchat/toolchat.go: properties of Generate.
use go_llama_cpp.Base.{
  ℕ, zero, suc, ◌+◌, ◌≡◌, inl, inr, refl, ap, ◌∙◌, true, Option, none, some, List, [], ◌∷◌, ◌++◌,
  arith, Text, Result-cases, Result, ok, err,
}
use go_llama_cpp.Llama.Types.{ChatMessage}
use go_llama_cpp.Toolchat.Types.{Value, Error, is_never, never}
use go_llama_cpp.Toolchat.Envelope.Decode.{ResponseEnvelope}
use go_llama_cpp.Toolchat.Envelope.Parse.{parse_envelope}
use go_llama_cpp.Toolchat.Grammar.Lexical.{Runtime}
use go_llama_cpp.Toolchat.Runner.Config.{World, Runner, RunnerConfig, prepare}
use go_llama_cpp.Toolchat.Runner.Config.Laws.{prepare-IsCallable, prepare-never}
use go_llama_cpp.Toolchat.Runner.Loop.{
  Response, no_response, Round, return, next, run_tools, on_envelope, on_parsed, on_output,
  on_prompt, on_context, round, continue_with, turns_from, generate,
}
use go_llama_cpp.Toolchat.Runner.Loop.Invariant.{given, IsAt, IsReturned}
use go_llama_cpp.Toolchat.Runner.Loop.Rounds.{turns_from-IsReturned}

module _ {W : Type 0} (go : Runtime) (world : World W) (r : Runner) (messages : List ChatMessage)
    (w : W) where
  -- If `prepare` accepts the runner, `Generate` ends within its number of turns. The calls that
  -- it reports are those of its results, all of configured tools and with JSON arguments; with
  -- choice none there are none. A run without an error ends with an output that parses as a final
  -- answer, whose content it returns: the outputs are those of the exchanges and then this one,
  -- the results are those of the exchanges in order, and the messages are the caller's, then for
  -- each exchange its output and the text of its results, then the last output. With an error the
  -- messages and results are likewise those of the exchanges, and the outputs are those of the
  -- exchanges and at most one more; the error is one of the context, the template, the model, its
  -- output, the tools, the choice or the number of turns.
  pub generate-IsReturned :
      {cfg : RunnerConfig}
      → prepare go r ≡ ok cfg
      → let out = (generate go world r messages w).0 in
        IsReturned cfg messages cfg.max_turns out.0 out.1
  unfolding generate
  generate-IsReturned {cfg} h =
      rw (h, generate)
        (turns_from-IsReturned world cfg messages (λ k. prepare-IsCallable go r h k) cfg.max_turns 0
          cfg.max_turns messages (record no_response { messages = messages }) w (omega arith) start)
    where
      start : IsAt cfg messages 0 [] messages (record no_response { messages = messages })
      start = record {
        turns = refl;
        outputs = refl;
        calls = refl;
        allowed = tt;
        same = refl;
        extends = given;
        untouched = λ _. refl;
      }

-- The same world with other functions behind the tools.
abbrev pub with_calls : {W : Type 0} → World W → (ℕ → Text → W → Result Text Value × W) → World W
with_calls world call = record world { call = call }

module _ {W : Type 0} (world : World W) (call : ℕ → Text → W → Result Text Value × W)
    (cfg : RunnerConfig) (never : is_never cfg.tool_choice ≡ true) where
  run_tools-never :
      (turn : ℕ) (history : List ChatMessage) (resp : Response) (raw : Text)
      (env : ResponseEnvelope) (w : W)
      → run_tools (with_calls world call) cfg turn history resp raw env w
        ≡ run_tools world cfg turn history resp raw env w
  unfolding run_tools
  run_tools-never turn history resp raw env w = rw never

  on_parsed-never :
      (turn : ℕ) (history : List ChatMessage) (resp : Response) (raw : Text)
      (parsed : Result Error ResponseEnvelope) (w : W)
      → on_parsed (with_calls world call) cfg turn history resp raw parsed w
        ≡ on_parsed world cfg turn history resp raw parsed w
  unfolding on_parsed on_envelope
  on_parsed-never turn history resp raw (err e) w = refl
  on_parsed-never turn history resp raw (ok env) w = rw never

  on_output-never :
      (turn : ℕ) (history : List ChatMessage) (resp : Response) (out : (Text × Option Text) × W)
      → on_output (with_calls world call) cfg turn history resp out
        ≡ on_output world cfg turn history resp out
  unfolding on_output
  on_output-never turn history resp ((raw, some e), w) = refl
  on_output-never turn history resp ((raw, none), w) =
      on_parsed-never turn history
        (record resp { raw_outputs = resp.raw_outputs ++ raw ∷ []; turns = turn + 1 }) raw
        (parse_envelope raw) w

  on_prompt-never :
      (turn : ℕ) (history : List ChatMessage) (resp : Response) (out : Result Text Text × W)
      → on_prompt (with_calls world call) cfg turn history resp out
        ≡ on_prompt world cfg turn history resp out
  unfolding on_prompt
  on_prompt-never turn history resp (err e, w) = refl
  on_prompt-never turn history resp (ok prompt, w) = on_output-never turn history resp _

  on_context-never :
      (turn : ℕ) (history : List ChatMessage) (resp : Response) (asked : Option Text × W)
      → on_context (with_calls world call) cfg turn history resp asked
        ≡ on_context world cfg turn history resp asked
  unfolding on_context
  on_context-never turn history resp (some e, w) = refl
  on_context-never turn history resp (none, w) = on_prompt-never turn history resp _

  turns_from-never :
      (left turn : ℕ) (history : List ChatMessage) (resp : Response) (w : W)
      → turns_from (with_calls world call) cfg left turn history resp w
        ≡ turns_from world cfg left turn history resp w
  unfolding turns_from
  turns_from-never zero turn history resp w = refl
  turns_from-never (suc left) turn history resp w =
      ap
        (λ (first : Round × W).
          continue_with (with_calls world call) cfg
            (turns_from (with_calls world call) cfg left (suc turn)) first)
        (on_context-never turn history resp (world.ctx_err w))
      ∙ continued (round world cfg turn history resp w) (turns_from-never left (suc turn))
    where
      continued :
          (first : Round × W)
          → ((history : List ChatMessage) (resp : Response) (w : W)
              → turns_from (with_calls world call) cfg left (suc turn) history resp w
                ≡ turns_from world cfg left (suc turn) history resp w)
          → continue_with
              (with_calls world call)
              cfg
              (turns_from (with_calls world call) cfg left (suc turn))
              first
            ≡ continue_with world cfg (turns_from world cfg left (suc turn)) first
      continued (return resp e, w') ih = refl
      continued (next history resp, w') ih = ih history resp w'

-- With tool choice none no tool is called: whatever the functions of the tools are, a run gives
-- the same response and leaves the world in the same state.
pub generate-never :
    {W : Type 0} (go : Runtime) (world : World W) (call : ℕ → Text → W → Result Text Value × W)
    (r : Runner) (messages : List ChatMessage) (w : W)
    → r.tool_choice ≡ never
    → generate go (with_calls world call) r messages w ≡ generate go world r messages w
unfolding generate
generate-never go world call r messages w h = elim (Result-cases (prepare go r)) [
  | inl (e, failed) ↦ rw (failed, generate)
  | inr (cfg, done) ↦
      rw (done, generate)
        (turns_from-never world call cfg (prepare-never go r h done) cfg.max_turns 0 messages
          (record no_response { messages = messages }) w)
]
