-- ===== src/Toolchat/Runner/Loop/Rounds.antt =====
-- toolchat/toolchat.go: the parts of a round of Generate, and its loop.
use go_llama_cpp.Base.{
  ℕ, append-nil, zero, suc, ◌+◌, ◌≤◌, ◌≡◌, ◌≢◌, inl, inr, refl, ap, sym, subst, ◌∙◌, Bool, false,
  Option, none, some, List, [], ◌∷◌, ◌++◌, arith, Text, text_beq, text_beq_iff, All, length-append,
  text_eq, Result, ok, err, Bool-cases,
}
use go_llama_cpp.Llama.Types.{ChatMessage}
use go_llama_cpp.Toolchat.Types.{
  is_never, Error, cancelled, template_failed, parse_failed, choice_is_never, max_turns_reached,
}
use go_llama_cpp.Toolchat.Envelope.Decode.{ResponseEnvelope}
use go_llama_cpp.Toolchat.Envelope.Parse.{final_type, tool_call_type, parse_envelope}
use go_llama_cpp.Toolchat.Envelope.Parse.Laws.{IsProtocol, parse_envelope-IsProtocol}
use go_llama_cpp.Toolchat.Runner.Config.{World, RunnerConfig}
use go_llama_cpp.Toolchat.Runner.Execute.{execute_tool_calls}
use go_llama_cpp.Toolchat.Runner.Execute.Laws.{
  IsCallable, execute_tool_calls_sound, execute_tool_calls-err,
}
use go_llama_cpp.Toolchat.Runner.Loop.{
  Response, assistant, Round, return, next, run_tools, on_envelope, on_parsed, on_output, on_prompt,
  on_context, round, turns_from,
}
use go_llama_cpp.Toolchat.Envelope.Calls.Laws.{IsWellFormed}
use go_llama_cpp.Toolchat.Runner.Loop.{continue_with}
use go_llama_cpp.Toolchat.Runner.Loop.Invariant.{
  Extends, IsAt, IsRunError, IsReturned, IsOutcome, stopped, with_output, after_tools-IsOutcome,
}

some_inj : {A : Type 0} {a b : A} → some a ≡ some b → a ≡ b
some_inj h = cc

final_not_call : final_type ≢ tool_call_type
final_not_call h = cc (ap is_final h)
  where
    is_final : Text → Bool
    is_final t = text_beq t final_type

well_formed :
    (env : ResponseEnvelope)
    → IsProtocol env
    → env.type ≡ tool_call_type
    → All IsWellFormed env.tool_calls × (env.tool_calls ≢ [])
well_formed env (inl final) call = absurd (final_not_call (sym final ∙ call))
well_formed env (inr p) call = p.1

no_other_type :
    (env : ResponseEnvelope)
    → IsProtocol env
    → text_beq env.type final_type ≡ false
    → text_beq env.type tool_call_type ≡ false
    → ⊥
no_other_type env (inl final) a b = cc (sym a ∙ (text_beq_iff env.type final_type).1 final)
no_other_type env (inr call) a b = cc (sym b ∙ (text_beq_iff env.type tool_call_type).1 call.0)

module _ {W : Type 0} (world : World W) (cfg : RunnerConfig) (messages : List ChatMessage)
    (callable : is_never cfg.tool_choice ≡ false → IsCallable cfg) where
  run_tools-IsOutcome :
      (turn : ℕ) (history : List ChatMessage) (resp : Response) (raw : Text)
      (env : ResponseEnvelope) (earlier : List Text) (w : W)
      → IsAt cfg messages (suc turn) earlier history resp
      → resp.raw_outputs ≡ earlier ++ raw ∷ []
      → IsProtocol env
      → env.type ≡ tool_call_type
      → IsOutcome cfg messages turn (run_tools world cfg turn history resp raw env w).0
  unfolding run_tools
  run_tools-IsOutcome turn history resp raw env earlier w at last protocol call =
      elim (Bool-cases (is_never cfg.tool_choice)) [
        | inl never ↦
            rw (never, run_tools)
              (stopped cfg messages (suc turn) earlier (raw ∷ []) history resp choice_is_never
                (suc turn) at last (omega arith) (omega arith) tt)
        | inr allowed ↦
            let out = execute_tool_calls world cfg turn env.tool_calls w in
            let (wf, nonempty) = well_formed env protocol call in
            rw (allowed, run_tools)
              (after_tools-IsOutcome cfg messages turn earlier history resp raw out.0 at last
                allowed (execute_tool_calls_sound world cfg turn env.tool_calls w).0
                (λ x e.
                  execute_tool_calls-err world cfg turn env.tool_calls w (callable allowed) wf
                    nonempty e))
      ]

  on_envelope-IsOutcome :
      (turn : ℕ) (history : List ChatMessage) (resp : Response) (raw : Text)
      (env : ResponseEnvelope) (earlier : List Text) (w : W)
      → IsAt cfg messages (suc turn) earlier history resp
      → resp.raw_outputs ≡ earlier ++ raw ∷ []
      → parse_envelope raw ≡ ok env
      → IsOutcome cfg messages turn (on_envelope world cfg turn history resp raw env w).0
  unfolding on_envelope
  on_envelope-IsOutcome turn history resp raw env earlier w at last parsed =
      elim (Bool-cases (text_beq env.type final_type)) [
        | inl final ↦
            rw (final, on_envelope) (finished ((text_beq_iff env.type final_type).0 final))
        | inr other ↦ elim (Bool-cases (text_beq env.type tool_call_type)) [
          | inl call ↦
              rw (other, call, on_envelope)
                (run_tools-IsOutcome turn history resp raw env earlier w at last
                  (parse_envelope-IsProtocol raw parsed)
                  ((text_beq_iff env.type tool_call_type).0 call))
          | inr unknown ↦
              absurd (no_other_type env (parse_envelope-IsProtocol raw parsed) other unknown)
        ]
      ]
    where
      finished :
          env.type ≡ final_type
          → IsReturned cfg messages
              (suc turn)
              (record resp { content = env.content; messages = history ++ assistant raw ∷ [] })
              none
      finished e = record {
        turns = omega (arith, at.turns);
        outputs = omega (arith, at.outputs);
        calls = at.calls;
        allowed = at.allowed;
        untouched = at.untouched;
        success = λ _. record {
          raw = raw;
          earlier = earlier;
          history = history;
          env = env;
          parsed = parsed;
          final = e;
          content = refl;
          last = last;
          closed = refl;
          extends = at.extends;
        };
        kept = λ x k. cc;
        failure = λ x k. cc;
      }

  on_parsed-IsOutcome :
      (turn : ℕ) (history : List ChatMessage) (resp : Response) (raw : Text) (earlier : List Text)
      (parsed : Result Error ResponseEnvelope) (w : W)
      → IsAt cfg messages (suc turn) earlier history resp
      → resp.raw_outputs ≡ earlier ++ raw ∷ []
      → parse_envelope raw ≡ parsed
      → IsOutcome cfg messages turn (on_parsed world cfg turn history resp raw parsed w).0
  unfolding on_parsed
  on_parsed-IsOutcome turn history resp raw earlier (err e) w at last same =
      stopped cfg messages (suc turn) earlier (raw ∷ []) history resp (parse_failed e) (suc turn) at
        last (omega arith) (omega arith) tt
  on_parsed-IsOutcome turn history resp raw earlier (ok env) w at last same =
      on_envelope-IsOutcome turn history resp raw env earlier w at last same

  on_output-IsOutcome :
      (turn : ℕ) (history : List ChatMessage) (resp : Response) (out : (Text × Option Text) × W)
      → IsAt cfg messages turn resp.raw_outputs history resp
      → IsOutcome cfg messages turn (on_output world cfg turn history resp out).0
  unfolding on_output
  on_output-IsOutcome turn history resp ((raw, some e), w) at = record {
    turns = omega (arith, at.turns);
    outputs = omega (arith, at.outputs, length-append resp.raw_outputs (raw ∷ []));
    calls = at.calls;
    allowed = at.allowed;
    untouched = at.untouched;
    success = λ k. cc;
    kept = λ y k. (
      resp.raw_outputs,
      raw ∷ [],
      refl,
      omega arith,
      subst (λ h. Extends messages h resp.raw_outputs resp.tool_results) (sym at.same) at.extends,
    );
    failure = λ y k. subst IsRunError (some_inj k) tt;
  }
  on_output-IsOutcome turn history resp ((raw, none), w) at =
      on_parsed-IsOutcome turn history
        (record resp { raw_outputs = resp.raw_outputs ++ raw ∷ []; turns = turn + 1 }) raw
        resp.raw_outputs (parse_envelope raw) w (with_output cfg messages turn history resp raw at)
        refl refl

  on_prompt-IsOutcome :
      (turn : ℕ) (history : List ChatMessage) (resp : Response) (out : Result Text Text × W)
      → IsAt cfg messages turn resp.raw_outputs history resp
      → IsOutcome cfg messages turn (on_prompt world cfg turn history resp out).0
  unfolding on_prompt
  on_prompt-IsOutcome turn history resp (err e, w) at =
      stopped cfg messages turn resp.raw_outputs [] history resp (template_failed e) (suc turn) at
        (sym (append-nil resp.raw_outputs)) (omega arith) (omega arith) tt
  on_prompt-IsOutcome turn history resp (ok prompt, w) at =
      on_output-IsOutcome turn history resp _ at

  on_context-IsOutcome :
      (turn : ℕ) (history : List ChatMessage) (resp : Response) (asked : Option Text × W)
      → IsAt cfg messages turn resp.raw_outputs history resp
      → IsOutcome cfg messages turn (on_context world cfg turn history resp asked).0
  unfolding on_context
  on_context-IsOutcome turn history resp (some e, w) at =
      stopped cfg messages turn resp.raw_outputs [] history resp (cancelled e) (suc turn) at
        (sym (append-nil resp.raw_outputs)) (omega arith) (omega arith) tt
  on_context-IsOutcome turn history resp (none, w) at = on_prompt-IsOutcome turn history resp _ at

  IsReturned-weaken :
      (resp : Response) (e : Option Error) {m n : ℕ}
      → m ≤ n
      → IsReturned cfg messages m resp e
      → IsReturned cfg messages n resp e
  IsReturned-weaken resp e le h = record {
    turns = omega (arith, h.turns);
    outputs = omega (arith, h.outputs);
    calls = h.calls;
    allowed = h.allowed;
    untouched = h.untouched;
    success = h.success;
    kept = h.kept;
    failure = h.failure;
  }

  -- The loop, by the rounds that are left.
  pub turns_from-IsReturned :
      (left turn bound : ℕ) (history : List ChatMessage) (resp : Response) (w : W)
      → turn + left ≡ bound
      → IsAt cfg messages turn resp.raw_outputs history resp
      → let out = (turns_from world cfg left turn history resp w).0 in
        IsReturned cfg messages bound out.0 out.1
  unfolding turns_from
  turns_from-IsReturned zero turn bound history resp w e at =
      stopped cfg messages turn resp.raw_outputs [] history resp (max_turns_reached cfg.max_turns)
        bound at (sym (append-nil resp.raw_outputs)) (omega arith) (omega arith) tt
  turns_from-IsReturned (suc left) turn bound history resp w e at =
      continued (round world cfg turn history resp w)
        (on_context-IsOutcome turn history resp (world.ctx_err w) at)
        (λ history' resp' w'.
          turns_from-IsReturned left (suc turn) bound history' resp' w' (omega arith))
    where
      continued :
          (first : Round × W)
          → IsOutcome cfg messages turn first.0
          → ((history' : List ChatMessage) (resp' : Response) (w' : W)
              → IsAt cfg messages (suc turn) resp'.raw_outputs history' resp'
              → let out = (turns_from world cfg left (suc turn) history' resp' w').0 in
                IsReturned cfg messages bound out.0 out.1)
          → let out = (continue_with world cfg (turns_from world cfg left (suc turn)) first).0 in
            IsReturned cfg messages bound out.0 out.1
      continued (return resp' x, w') outcome rest = IsReturned-weaken resp' x (omega arith) outcome
      continued (next history' resp', w') outcome rest = rest history' resp' w' outcome
