-- ===== src/Toolchat/Runner/Execute/Laws.antt =====
-- toolchat/toolchat.go: properties of executeToolCalls.
use go_llama_cpp.Base.{
  ℕ, suc, ◌≡◌, ◌≢◌, refl, ap₂, sym, subst, inl, inr, Bool-cases, Option-cases, true, Option, none,
  some, List, [], ◌∷◌, map, arith, Text, All, lookup, text_eq, Result, ok, err,
}
use go_llama_cpp.Json.Parse.{valid}
use go_llama_cpp.Toolchat.Types.{
  Error, unknown_tool, cancelled, tool_failed, marshal_failed, ToolCall, ToolResult, Tool, Value,
}
use go_llama_cpp.Toolchat.Envelope.Decode.{ToolCallEnvelope}
use go_llama_cpp.Toolchat.Envelope.Calls.Laws.{IsWellFormed}
use go_llama_cpp.Toolchat.Prompt.{marshal_tool_output}
use go_llama_cpp.Toolchat.Runner.Config.{World, RunnerConfig}
use go_llama_cpp.Toolchat.Runner.Execute.{
  tool_call_of, written, called, call_tool, unless_cancelled, with_tool, execute_call, followed_by,
  execute_from, execute_tool_calls,
}

-- The errors that calling tools is meant to end with.
abbrev pub IsExecutionError : Error → Type 0
IsExecutionError (unknown_tool n) = Unit
IsExecutionError (cancelled e) = Unit
IsExecutionError (tool_failed n e) = Unit
IsExecutionError (marshal_failed n e) = Unit
IsExecutionError _ = ⊥

-- Every tool of the configuration has a function.
abbrev pub IsCallable : RunnerConfig → Type 0
IsCallable cfg = (n : Text) (t : Tool) → lookup n cfg.tools_by_name ≡ some t → t.call ≢ none

err_inj {ℓ} : {A : Type ℓ} {a b : Error} → ◌≡◌ {A = Result Error A} (err a) (err b) → a ≡ b
err_inj h = cc

-- The calls that a list of requests stands for.
pub calls_of : ℕ → ℕ → List ToolCallEnvelope → List ToolCall
calls_of turn i [] = []
calls_of turn i (c ∷ cs) = tool_call_of turn i c ∷ calls_of turn (suc i) cs

-- A call of a tool that is configured, with arguments that are JSON.
pub record IsAllowed (cfg : RunnerConfig) (r : ToolResult) : Type 0 where
  pub known : lookup r.call.name cfg.tools_by_name ≢ none
  pub json : valid r.call.arguments ≡ true

written-ok :
    (tc : ToolCall) (m : Result Text Text) {r : ToolResult} → written tc m ≡ ok r → r.call ≡ tc
unfolding written
written-ok tc m h = ground arith

written-err :
    (tc : ToolCall) (m : Result Text Text) {e : Error} → written tc m ≡ err e → IsExecutionError e
unfolding written
written-err tc (ok content) h = cc
written-err tc (err x) h = subst IsExecutionError (err_inj h) tt

module _ {W : Type 0} (world : World W) (cfg : RunnerConfig) where
  called-ok :
      (tc : ToolCall) (out : Result Text Value × W) {r : ToolResult}
      → (called world cfg tc out).0 ≡ ok r
      → r.call ≡ tc
  unfolding called
  called-ok tc (ok value, w) h = written-ok tc (marshal_tool_output value) h
  called-ok tc (err e, w) h = ground arith

  called-err :
      (tc : ToolCall) (out : Result Text Value × W) {e : Error}
      → (called world cfg tc out).0 ≡ err e
      → IsExecutionError e
  unfolding called
  called-err tc (ok value, w) h = written-err tc (marshal_tool_output value) h
  called-err tc (err x, w) h = elim (Bool-cases cfg.fail_on_tool_error) [
    | inl y ↦ subst IsExecutionError (err_inj (rw (y, called) at h)) tt
    | inr n ↦ cc (rw (n, called) at h)
  ]

  unless_cancelled-ok :
      (tc : ToolCall) (t : Tool) (asked : Option Text × W) {r : ToolResult}
      → (unless_cancelled world cfg tc t asked).0 ≡ ok r
      → r.call ≡ tc
  unfolding unless_cancelled call_tool
  unless_cancelled-ok tc t (some e, w) h = cc
  unless_cancelled-ok tc t (none, w) h = elim (Option-cases t.call) [
    | inl missing ↦ cc (rw (missing, call_tool) at h)
    | inr (f, given) ↦ called-ok tc (world.call f tc.arguments w) (rw (given, call_tool) at h)
  ]

  unless_cancelled-err :
      (tc : ToolCall) (t : Tool) (asked : Option Text × W) {e : Error}
      → t.call ≢ none
      → (unless_cancelled world cfg tc t asked).0 ≡ err e
      → IsExecutionError e
  unfolding unless_cancelled call_tool
  unless_cancelled-err tc t (some x, w) k h = subst IsExecutionError (err_inj h) tt
  unless_cancelled-err tc t (none, w) k h = elim (Option-cases t.call) [
    | inl missing ↦ absurd (k missing)
    | inr (f, given) ↦ called-err tc (world.call f tc.arguments w) (rw (given, call_tool) at h)
  ]

  execute_call-ok :
      (turn i : ℕ) (c : ToolCallEnvelope) (w : W) {r : ToolResult}
      → (execute_call world cfg turn i c w).0 ≡ ok r
      → (r.call ≡ tool_call_of turn i c)
        × (lookup c.name cfg.tools_by_name ≢ none)
        × (valid c.arguments ≡ true)
  unfolding execute_call with_tool tool_call_of
  execute_call-ok turn i c w h = elim (Option-cases (lookup c.name cfg.tools_by_name)) [
    | inl unknown ↦ cc (rw (unknown, with_tool) at h)
    | inr (t, known) ↦ elim (Bool-cases (valid c.arguments)) [
      | inl json ↦ (
        unless_cancelled-ok (tool_call_of turn i c) t (world.ctx_err w)
            (rw (known, json, with_tool) at h),
        (λ e. cc),
        json,
      )
      | inr bad ↦ cc (rw (known, bad, with_tool) at h)
    ]
  ]

  execute_call-err :
      (turn i : ℕ) (c : ToolCallEnvelope) (w : W) {e : Error}
      → IsCallable cfg
      → IsWellFormed c
      → (execute_call world cfg turn i c w).0 ≡ err e
      → IsExecutionError e
  unfolding execute_call with_tool tool_call_of
  execute_call-err turn i c w callable wf h =
      elim (Option-cases (lookup c.name cfg.tools_by_name)) [
        | inl unknown ↦ subst IsExecutionError (err_inj (rw (unknown, with_tool) at h)) tt
        | inr (t, known) ↦
            unless_cancelled-err (tool_call_of turn i c) t (world.ctx_err w)
              (callable c.name t known) (rw (known, wf.json, with_tool) at h)
      ]

  IsAllowed-of :
      (turn i : ℕ) (c : ToolCallEnvelope) (w : W) (r : ToolResult)
      → (execute_call world cfg turn i c w).0 ≡ ok r
      → IsAllowed cfg r
  unfolding tool_call_of
  IsAllowed-of turn i c w r h =
      let (same, known, json) = execute_call-ok turn i c w h in
      record {
        known = subst (λ (tc : ToolCall). lookup tc.name cfg.tools_by_name ≢ none) (sym same) known;
        json = subst (λ (tc : ToolCall). valid tc.arguments ≡ true) (sym same) json;
      }

  -- Every result belongs to a configured tool; without an error there is one for each request.
  execute_from_sound :
      (turn i : ℕ) (cs : List ToolCallEnvelope) (w : W)
      → let out = (execute_from world cfg turn i cs w).0 in
        All (IsAllowed cfg) out.0
        × (out.1 ≡ none → map (λ (r : ToolResult). r.call) out.0 ≡ calls_of turn i cs)
  unfolding execute_from calls_of
  execute_from_sound turn i [] w = (tt, λ _. refl)
  execute_from_sound turn i (c ∷ cs) w =
      followed turn i c cs (execute_call world cfg turn i c w) (λ r h. IsAllowed-of turn i c w r h)
        (λ r h. (execute_call-ok turn i c w h).0) (λ w'. execute_from_sound turn (suc i) cs w')
    where
      followed :
          (turn i : ℕ) (c : ToolCallEnvelope) (cs : List ToolCallEnvelope)
          (first : Result Error ToolResult × W)
          → ((r : ToolResult) → first.0 ≡ ok r → IsAllowed cfg r)
          → ((r : ToolResult) → first.0 ≡ ok r → r.call ≡ tool_call_of turn i c)
          → ((w' : W)
              → let out = (execute_from world cfg turn (suc i) cs w').0 in
                All (IsAllowed cfg) out.0
                × (out.1 ≡ none
                    → map (λ (r : ToolResult). r.call) out.0 ≡ calls_of turn (suc i) cs))
          → let out = (followed_by first (execute_from world cfg turn (suc i) cs)).0 in
            All (IsAllowed cfg) out.0
            × (out.1 ≡ none
                → map (λ (r : ToolResult). r.call) out.0
                  ≡ tool_call_of turn i c ∷ calls_of turn (suc i) cs)
      followed turn i c cs (err e, w') allowed same rest = (tt, λ h. cc)
      followed turn i c cs (ok r, w') allowed same rest =
          ((allowed r refl, (rest w').0), λ h. ap₂ (λ x xs. x ∷ xs) (same r refl) ((rest w').1 h))

  execute_from-err :
      (turn i : ℕ) (cs : List ToolCallEnvelope) (w : W) {e : Error}
      → IsCallable cfg
      → All IsWellFormed cs
      → (execute_from world cfg turn i cs w).0.1 ≡ some e
      → IsExecutionError e
  unfolding execute_from
  execute_from-err turn i [] w callable wf h = cc
  execute_from-err turn i (c ∷ cs) w {e} callable wf h =
      followed (execute_call world cfg turn i c w)
        (λ x k. execute_call-err turn i c w callable wf.0 k)
        (λ w' k. execute_from-err turn (suc i) cs w' callable wf.1 k) h
    where
      followed :
          (first : Result Error ToolResult × W)
          → ((x : Error) → first.0 ≡ err x → IsExecutionError x)
          → ((w' : W)
              → (execute_from world cfg turn (suc i) cs w').0.1 ≡ some e
              → IsExecutionError e)
          → (followed_by first (execute_from world cfg turn (suc i) cs)).0.1 ≡ some e
          → IsExecutionError e
      followed (err x, w') here there h = subst IsExecutionError (cc) (here x refl)
      followed (ok r, w') here there h = there w' h

  -- Every result is for a request of a configured tool with arguments that are JSON; without an
  -- error there is one for each request, in their order.
  pub execute_tool_calls_sound :
      (turn : ℕ) (cs : List ToolCallEnvelope) (w : W)
      → let out = (execute_tool_calls world cfg turn cs w).0 in
        All (IsAllowed cfg) out.0
        × (out.1 ≡ none → map (λ (r : ToolResult). r.call) out.0 ≡ calls_of turn 0 cs)
  unfolding execute_tool_calls
  execute_tool_calls_sound turn [] w = (tt, λ h. cc)
  execute_tool_calls_sound turn (c ∷ cs) w = execute_from_sound turn 0 (c ∷ cs) w

  -- For well-formed requests, at least one, and tools that all have a function, the execution
  -- never meets a nil function, an empty list or arguments that are not JSON.
  pub execute_tool_calls-err :
      (turn : ℕ) (cs : List ToolCallEnvelope) (w : W) {e : Error}
      → IsCallable cfg
      → All IsWellFormed cs
      → cs ≢ []
      → (execute_tool_calls world cfg turn cs w).0.1 ≡ some e
      → IsExecutionError e
  unfolding execute_tool_calls
  execute_tool_calls-err turn [] w callable wf k h = absurd (k refl)
  execute_tool_calls-err turn (c ∷ cs) w callable wf k h =
      execute_from-err turn 0 (c ∷ cs) w callable wf h
