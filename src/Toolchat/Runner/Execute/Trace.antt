-- ===== src/Toolchat/Runner/Execute/Trace.antt =====
-- toolchat/toolchat.go: which functions executeToolCalls calls, and what it makes of their answers.
use go_llama_cpp.Base.{
  ℕ, suc, ◌≡◌, refl, sym, ap, subst, arith, Bool, ◌∙◌, inl, inr, Result-cases, true, false, not,
  Option, none, some, List, [], ◌∷◌, ◌++◌, append_assoc, append-nil, Text, lookup, text_eq, Result,
  ok, err, if◌then◌else◌,
}
use go_llama_cpp.Json.Parse.{valid}
use go_llama_cpp.Toolchat.Types.{
  Error, invalid_arguments, tool_failed, marshal_failed, ToolCall, ToolResult, Tool, Value,
}
use go_llama_cpp.Toolchat.Envelope.Decode.{ToolCallEnvelope}
use go_llama_cpp.Toolchat.Prompt.{marshal_tool_output, error_content}
use go_llama_cpp.Toolchat.Runner.Config.{World, RunnerConfig}
use go_llama_cpp.Toolchat.Runner.Execute.{
  tool_call_of, written, called, call_tool, unless_cancelled, with_tool, execute_call, followed_by,
  execute_from, execute_tool_calls,
}
use go_llama_cpp.Toolchat.Runner.Execute.Events.{
  Called, Event, asked, invoked, logged, IsReady, IsCall, IsResult, IsFailure, One, not_known,
  not_json, context_ended, no_function, failed, answered, Trace, all_done, ended, more, IsExecution,
}

module _ {W : Type 0} (world : World W) (cfg : RunnerConfig) where
  -- What is added to a log is what a request leads to.
  abbrev Adds : ToolCall → List Event → Result Error ToolResult × (W × List Event) → Type 0
  Adds tc log (r, (w, log')) = (events : List Event) × (log' ≡ log ++ events) × One cfg tc events r

  if-One :
      (tc : ToolCall) (events : List Event) (b : Bool) (x y : Result Error ToolResult)
      → (b ≡ true → One cfg tc events x)
      → (b ≡ false → One cfg tc events y)
      → One cfg tc events (if b then x else y)
  if-One tc events true x y h k = h refl
  if-One tc events false x y h k = k refl

  if-Adds :
      (tc : ToolCall) (log : List Event) (b : Bool)
      (x y : Result Error ToolResult × (W × List Event))
      → (b ≡ true → Adds tc log x)
      → (b ≡ false → Adds tc log y)
      → Adds tc log (if b then x else y)
  if-Adds tc log true x y h k = h refl
  if-Adds tc log false x y h k = k refl

  called-Adds :
      (tc : ToolCall) (k : Called) (log : List Event) (w : W) (answer : Result Text Value)
      → k.answer ≡ answer
      → IsCall cfg tc k
      → Adds tc log
          (called (logged world) cfg tc (answer, (w, (log ++ asked none ∷ []) ++ invoked k ∷ [])))
  unfolding called written
  called-Adds tc k log w (ok value) e h =
      let both = append_assoc log (asked none ∷ []) (invoked k ∷ []) in
      elim (Result-cases (marshal_tool_output value)) [
        | inl (x, bad) ↦ (
          asked none ∷ invoked k ∷ [],
          both,
          rw (bad, written)
              (failed k h (
                subst (λ a. IsFailure cfg tc a (marshal_failed tc.name x)) (sym e) (x, bad, refl))),
        )
        | inr (content, good) ↦ (
          asked none ∷ invoked k ∷ [],
          both,
          rw (good, written)
              (answered k h (
                subst (λ a. IsResult cfg tc a (record { call = tc; content = content; error = [] }))
                  (sym e) (content, good, refl))),
        )
      ]
  called-Adds tc k log w (err x) e h = (
    asked none ∷ invoked k ∷ [],
    append_assoc log (asked none ∷ []) (invoked k ∷ []),
    if-One tc (asked none ∷ invoked k ∷ []) cfg.fail_on_tool_error _ _
        (λ y.
          failed k h (subst (λ a. IsFailure cfg tc a (tool_failed tc.name x)) (sym e) (y, refl)))
        (λ n. answered k h (
          subst
            (λ a. IsResult cfg tc a (record { call = tc; content = error_content x; error = x }))
            (sym e) (n, refl))),
  )

  call_tool-Adds :
      (tc : ToolCall) (t : Tool) (f : Option ℕ) (log : List Event) (w : W)
      → t.call ≡ f
      → IsReady cfg tc t
      → Adds tc log (call_tool (logged world) cfg tc f (w, log ++ asked none ∷ []))
  unfolding call_tool
  call_tool-Adds tc t none log w e ready = (asked none ∷ [], refl, no_function t ready e)
  call_tool-Adds tc t (some f) log w e ready =
      let r = world.call f tc.arguments w in
      called-Adds tc (record { function = f; arguments = tc.arguments; answer = r.0 }) log r.1 r.0
        refl (record { tool = t; ready = ready; function = e; arguments = refl })

  unless_cancelled-Adds :
      (tc : ToolCall) (t : Tool) (answer : Option Text) (log : List Event) (w : W)
      → IsReady cfg tc t
      → Adds tc log
          (unless_cancelled (logged world) cfg tc t (answer, (w, log ++ asked answer ∷ [])))
  unfolding unless_cancelled
  unless_cancelled-Adds tc t (some e) log w ready =
      (asked (some e) ∷ [], refl, context_ended t e ready)
  unless_cancelled-Adds tc t none log w ready = call_tool-Adds tc t t.call log w refl ready

  with_tool-Adds :
      (tc : ToolCall) (t : Option Tool) (log : List Event) (w : W)
      → lookup tc.name cfg.tools_by_name ≡ t
      → Adds tc log (with_tool (logged world) cfg tc t (w, log))
  unfolding with_tool
  with_tool-Adds tc none log w e = ([], sym (append-nil log), not_known e)
  with_tool-Adds tc (some t) log w e =
      let r = world.ctx_err w in
      if-Adds tc log (not (valid tc.arguments)) (err (invalid_arguments tc.name), (w, log))
        (unless_cancelled (logged world) cfg tc t (r.0, (r.1, log ++ asked r.0 ∷ [])))
        (λ y. ([], sym (append-nil log), not_json t e (ground arith)))
        (λ n. unless_cancelled-Adds tc t r.0 log r.1 (record { known = e; json = ground arith }))

  followed-Trace :
      (turn i : ℕ) (c : ToolCallEnvelope) (cs : List ToolCallEnvelope) (log : List Event)
      (first : Result Error ToolResult × (W × List Event))
      → Adds (tool_call_of turn i c) log first
      → ((w : W) (log' : List Event)
          → let out = execute_from (logged world) cfg turn (suc i) cs (w, log') in
            (events : List Event) × (out.1.1 ≡ log' ++ events)
            × Trace cfg turn (suc i) cs events out.0)
      → let out = followed_by first (execute_from (logged world) cfg turn (suc i) cs) in
        (events : List Event) × (out.1.1 ≡ log ++ events) × Trace cfg turn i (c ∷ cs) events out.0
  unfolding followed_by
  followed-Trace turn i c cs log (err x, (w, log')) (events, e, one) rest = (events, e, ended one)
  followed-Trace turn i c cs log (ok r, (w, log')) (events, e, one) rest =
      let (later, e', trace) = rest w log' in
      (events ++ later, e' ∙ ap (λ l. l ++ later) e ∙ append_assoc log events later, more one trace)

  execute_from-Trace :
      (turn i : ℕ) (cs : List ToolCallEnvelope) (w : W) (log : List Event)
      → let out = execute_from (logged world) cfg turn i cs (w, log) in
        (events : List Event) × (out.1.1 ≡ log ++ events) × Trace cfg turn i cs events out.0
  unfolding execute_from execute_call tool_call_of
  execute_from-Trace turn i [] w log = ([], sym (append-nil log), all_done)
  execute_from-Trace turn i (c ∷ cs) w log =
      followed-Trace turn i c cs log (execute_call (logged world) cfg turn i c (w, log))
        (with_tool-Adds (tool_call_of turn i c) (lookup c.name cfg.tools_by_name) log w refl)
        (λ w' log'. execute_from-Trace turn (suc i) cs w' log')

  -- In any world that also records what it is asked, the calls of one response are executed in
  -- their order, and the record is what is said here: an unknown tool or arguments that are not
  -- JSON end the execution with their error and nothing asked; else the context is asked, and if
  -- it has ended, or the tool has no function, that is the error; else the function of the tool
  -- is called once with the call's own arguments, and its answer gives a result with the value's
  -- JSON, a result with the error where errors are passed on, or an error. Nothing follows an
  -- error, and an empty list is one.
  pub execute_tool_calls-IsExecution :
      (turn : ℕ) (cs : List ToolCallEnvelope) (w : W)
      → let out = execute_tool_calls (logged world) cfg turn cs (w, []) in
        IsExecution cfg turn cs out.1.1 out.0
  unfolding execute_tool_calls
  execute_tool_calls-IsExecution turn [] w = (refl, refl)
  execute_tool_calls-IsExecution turn (c ∷ cs) w =
      let (events, e, trace) = execute_from-Trace turn 0 (c ∷ cs) w [] in
      subst
        (λ l.
          Trace cfg turn 0 (c ∷ cs) l (execute_from (logged world) cfg turn 0 (c ∷ cs) (w, [])).0)
        (sym e) trace
