-- ===== src/Toolchat/Runner/Loop/Invariant.antt =====
-- toolchat/toolchat.go: the invariant of the loop of Generate, and the descriptions of a response.
use go_llama_cpp.Base.{
  ℕ, suc, ◌+◌, ◌≤◌, ◌≡◌, refl, ap, sym, subst, ◌∙◌, true, false, Option, none, some, List, [], ◌∷◌,
  ◌++◌, map, arith, Text, All, All-append, length, length-append, text_eq, ok,
}
use go_llama_cpp.Llama.Types.{ChatMessage}
use go_llama_cpp.Toolchat.Types.{
  is_never, Error, cancelled, template_failed, predict_failed, parse_failed, choice_is_never,
  max_turns_reached, ToolCall, ToolResult,
}
use go_llama_cpp.Toolchat.Envelope.Decode.{ResponseEnvelope}
use go_llama_cpp.Toolchat.Envelope.Parse.{final_type, parse_envelope}
use go_llama_cpp.Toolchat.Prompt.{format_tool_results}
use go_llama_cpp.Toolchat.Runner.Config.{RunnerConfig}
use go_llama_cpp.Toolchat.Runner.Execute.Laws.{IsAllowed, IsExecutionError}
use go_llama_cpp.Toolchat.Runner.Loop.{
  Response, assistant, user, Round, return, next, with_results, after_tools,
}

-- The history after exchanges, the outputs that asked for tools and the results of them all: each
-- exchange is an output and the results that it led to.
pub data Extends (messages : List ChatMessage)
    : List ChatMessage → List Text → List ToolResult → Type 0 where
  given : Extends messages messages [] []
  answered :
      {history : List ChatMessage} {outputs : List Text} {found : List ToolResult} (raw : Text)
      (results : List ToolResult)
      → Extends messages history outputs found
      → Extends messages
          (history ++ (assistant raw ∷ user (format_tool_results results) ∷ []))
          (outputs ++ raw ∷ [])
          (found ++ results)

-- What a response tells in turn `turn`, where the outputs `earlier` have been answered.
pub record IsAt (cfg : RunnerConfig) (messages : List ChatMessage) (turn : ℕ) (earlier : List Text)
    (history : List ChatMessage) (resp : Response) : Type 0 where
  pub turns : resp.turns ≡ turn
  pub outputs : length resp.raw_outputs ≡ turn
  pub calls : resp.tool_calls ≡ map (λ (r : ToolResult). r.call) resp.tool_results
  pub allowed : All (IsAllowed cfg) resp.tool_results
  pub same : resp.messages ≡ history
  pub extends : Extends messages history earlier resp.tool_results
  pub untouched : is_never cfg.tool_choice ≡ true → resp.tool_results ≡ []

-- What a final answer is: the last output parses as one, and closes the messages.
pub record IsFinal (cfg : RunnerConfig) (messages : List ChatMessage) (resp : Response)
    : Type 0 where
  pub raw : Text
  pub earlier : List Text
  pub history : List ChatMessage
  pub env : ResponseEnvelope
  pub parsed : parse_envelope raw ≡ ok env
  pub final : env.type ≡ final_type
  pub content : resp.content ≡ env.content
  pub last : resp.raw_outputs ≡ earlier ++ raw ∷ []
  pub closed : resp.messages ≡ history ++ assistant raw ∷ []
  pub extends : Extends messages history earlier resp.tool_results

-- The errors that `Generate` is meant to end with.
abbrev pub IsRunError : Error → Type 0
IsRunError (cancelled e) = Unit
IsRunError (template_failed e) = Unit
IsRunError (predict_failed e) = Unit
IsRunError (parse_failed e) = Unit
IsRunError choice_is_never = Unit
IsRunError (max_turns_reached n) = Unit
IsRunError e = IsExecutionError e

-- What every response that is returned within `bound` turns tells, with an error or without one.
pub record IsReturned (cfg : RunnerConfig) (messages : List ChatMessage) (bound : ℕ)
    (resp : Response) (e : Option Error) : Type 0 where
  pub turns : resp.turns ≤ bound
  pub outputs : length resp.raw_outputs ≤ bound
  pub calls : resp.tool_calls ≡ map (λ (r : ToolResult). r.call) resp.tool_results
  pub allowed : All (IsAllowed cfg) resp.tool_results
  pub untouched : is_never cfg.tool_choice ≡ true → resp.tool_results ≡ []
  pub success : e ≡ none → IsFinal cfg messages resp
  pub kept :
      (x : Error)
      → e ≡ some x
      → (earlier : List Text) × (last : List Text) × (resp.raw_outputs ≡ earlier ++ last)
        × (length last ≤ 1)
        × Extends messages resp.messages earlier resp.tool_results
  pub failure : (x : Error) → e ≡ some x → IsRunError x

pub IsRunError-of : (e : Error) → IsExecutionError e → IsRunError e
IsRunError-of (cancelled e) h = tt
IsRunError-of (template_failed e) h = tt
IsRunError-of (predict_failed e) h = tt
IsRunError-of (parse_failed e) h = tt
IsRunError-of choice_is_never h = tt
IsRunError-of (max_turns_reached n) h = tt
IsRunError-of e h = h

-- The outcome of a round that began at turn `turn`.
abbrev pub IsOutcome : RunnerConfig → List ChatMessage → ℕ → Round → Type 0
IsOutcome cfg messages turn (return resp e) = IsReturned cfg messages (suc turn) resp e
IsOutcome cfg messages turn (next history resp) =
    IsAt cfg messages (suc turn) resp.raw_outputs history resp

map-append_calls :
    (xs ys : List ToolResult)
    → map (λ (r : ToolResult). r.call) (xs ++ ys)
      ≡ map (λ (r : ToolResult). r.call) xs ++ map (λ (r : ToolResult). r.call) ys
map-append_calls [] ys = refl
map-append_calls (x ∷ xs) ys = ap (λ l. x.call ∷ l) (map-append_calls xs ys)

module _ (cfg : RunnerConfig) (messages : List ChatMessage) where
  -- A return with an error, from a response of a turn, with one output more than was answered at
  -- most.
  pub stopped :
      (turn : ℕ) (earlier last : List Text) (history : List ChatMessage) (resp : Response)
      (x : Error) (bound : ℕ)
      → IsAt cfg messages turn earlier history resp
      → resp.raw_outputs ≡ earlier ++ last
      → length last ≤ 1
      → turn ≤ bound
      → IsRunError x
      → IsReturned cfg messages bound resp (some x)
  stopped turn earlier last history resp x bound at split short le meant = record {
    turns = omega (arith, at.turns);
    outputs = omega (arith, at.outputs);
    calls = at.calls;
    allowed = at.allowed;
    untouched = at.untouched;
    success = λ e. cc;
    kept = λ y e. (
      earlier,
      last,
      split,
      short,
      subst (λ h. Extends messages h earlier resp.tool_results) (sym at.same) at.extends,
    );
    failure = λ y e. subst IsRunError (cc) meant;
  }

  -- The response with one more output.
  pub with_output :
      (turn : ℕ) (history : List ChatMessage) (resp : Response) (raw : Text)
      → IsAt cfg messages turn resp.raw_outputs history resp
      → IsAt cfg messages
          (suc turn)
          resp.raw_outputs
          history
          (record resp { raw_outputs = resp.raw_outputs ++ raw ∷ []; turns = turn + 1 })
  with_output turn history resp raw at = record {
    turns = omega arith;
    outputs = omega (arith, length-append resp.raw_outputs (raw ∷ []), at.outputs);
    calls = at.calls;
    allowed = at.allowed;
    same = at.same;
    extends = at.extends;
    untouched = at.untouched;
  }

  pub after_tools-IsOutcome :
      (turn : ℕ) (earlier : List Text) (history : List ChatMessage) (resp : Response) (raw : Text)
      (found : List ToolResult × Option Error)
      → IsAt cfg messages (suc turn) earlier history resp
      → resp.raw_outputs ≡ earlier ++ raw ∷ []
      → is_never cfg.tool_choice ≡ false
      → All (IsAllowed cfg) found.0
      → ((x : Error) → found.1 ≡ some x → IsExecutionError x)
      → IsOutcome cfg messages turn (after_tools history resp raw found)
  unfolding after_tools with_results
  after_tools-IsOutcome turn earlier history resp raw (results, some x) at last never allowed
        meant =
      stopped (suc turn) earlier (raw ∷ []) history resp x (suc turn) at last (omega arith)
        (omega arith) (IsRunError-of x (meant x refl))
  after_tools-IsOutcome turn earlier history resp raw (results, none) at last never allowed meant =
      let history' = history ++ (assistant raw ∷ user (format_tool_results results) ∷ []) in
      record {
        turns = at.turns;
        outputs = at.outputs;
        calls =
            ap (λ (l : List ToolCall). l ++ map (λ (r : ToolResult). r.call) results) at.calls
            ∙ sym (map-append_calls resp.tool_results results);
        allowed = All-append (IsAllowed cfg) resp.tool_results results at.allowed allowed;
        same = refl;
        extends =
            subst (λ outs. Extends messages history' outs (resp.tool_results ++ results)) (sym last)
              (answered raw results at.extends);
        untouched = λ e. cc;
      }
