-- ===== src/Toolchat/Runner/Config/Laws.antt =====
-- toolchat/toolchat.go: lemmas on prepare.
use go_llama_cpp.Base.{
  ok_inj, zero, suc, ℤ, pos, negsuc, ◌<◌, ◌≡◌, ◌≢◌, ap, subst, ◌∙◌, true, false, none, some, List,
  arith, Text, Bool-cases, inl, inr, ok, >>=-eq-ok, lookup, text_eq,
}
use go_llama_cpp.Toolchat.Types.{ToolChoice, is_choice, is_never, never, choice_or_auto, Tool}
use go_llama_cpp.Toolchat.Tools.{normalize_tools}
use go_llama_cpp.Toolchat.Tools.Laws.Callable.{normalize_tools-HasCalls}
use go_llama_cpp.Toolchat.Grammar.Lexical.{Runtime}
use go_llama_cpp.Toolchat.Runner.Config.{
  Runner, RunnerConfig, turns_or_default, grammars, configured, prepared, prepare,
}

module _ (go : Runtime) (r : Runner) where
  -- A configuration comes from the accepted tools and the grammars of the effective choice.
  pub prepare_inv :
      {cfg : RunnerConfig}
      → prepare go r ≡ ok cfg
      → let choice = choice_or_auto r.tool_choice in
        (r.has_model ≡ true)
        × (is_choice choice ≡ true)
        × ((found : List Tool × List (Text × Tool)) × (texts : Text × Text) × (normalize_tools
                r.tools choice true
              ≡ ok found)
            × (grammars go r.disable_grammar found.0 choice ≡ ok texts)
            × (configured go r choice found.0 found.1 texts ≡ cfg))
  unfolding prepare
  prepare_inv h = elim (Bool-cases r.has_model) [
    | inr missing ↦ cc (rw (missing, prepare) at h)
    | inl model ↦ elim (Bool-cases (is_choice (choice_or_auto r.tool_choice))) [
      | inr bad ↦ cc (rw (model, bad, prepare) at h)
      | inl good ↦ (model, good, prepared_inv (rw (model, good, prepare) at h))
    ]
  ]
    where
      prepared_inv :
          {cfg : RunnerConfig}
          → prepared go r (choice_or_auto r.tool_choice) ≡ ok cfg
          → (found : List Tool × List (Text × Tool)) × (texts : Text × Text) × (normalize_tools
                r.tools
                (choice_or_auto r.tool_choice)
                true
              ≡ ok found)
            × (grammars go r.disable_grammar found.0 (choice_or_auto r.tool_choice) ≡ ok texts)
            × (configured go r (choice_or_auto r.tool_choice) found.0 found.1 texts ≡ cfg)
      prepared_inv h =
          let (found, normalized, h') =
            >>=-eq-ok (normalize_tools r.tools (choice_or_auto r.tool_choice) true) _ h in
          let (texts, compiled, done) =
            >>=-eq-ok (grammars go r.disable_grammar found.0 (choice_or_auto r.tool_choice)) _ h' in
          (found, texts, normalized, compiled, ok_inj done)

  -- Every tool of a configuration has a function, unless tools are not to be called.
  pub prepare-IsCallable :
      {cfg : RunnerConfig}
      → prepare go r ≡ ok cfg
      → is_never cfg.tool_choice ≡ false
      → (n : Text) (t : Tool) → lookup n cfg.tools_by_name ≡ some t
      → t.call ≢ none
  unfolding configured
  prepare-IsCallable {cfg} h k =
      let (_, _, (found, texts, normalized, compiled, same)) = prepare_inv h in
      let tools : found.1 ≡ cfg.tools_by_name = ap (λ (c : RunnerConfig). c.tools_by_name) same in
      let choice : choice_or_auto r.tool_choice ≡ cfg.tool_choice =
        ap (λ (c : RunnerConfig). c.tool_choice) same in
      subst
        (λ (m : List (Text × Tool)). (n : Text) (t : Tool) → lookup n m ≡ some t → t.call ≢ none)
        tools
        (normalize_tools-HasCalls (choice_or_auto r.tool_choice) r.tools normalized
          (ap is_never choice ∙ k))

  pub prepare-never :
      {cfg : RunnerConfig}
      → r.tool_choice ≡ never
      → prepare go r ≡ ok cfg
      → is_never cfg.tool_choice ≡ true
  unfolding configured
  prepare-never {cfg} h k =
      let (_, _, (found, texts, normalized, compiled, same)) = prepare_inv k in
      let choice : choice_or_auto r.tool_choice ≡ cfg.tool_choice =
        ap (λ (c : RunnerConfig). c.tool_choice) same in
      subst (λ (c : ToolChoice). is_never c ≡ true) choice (rw h)

-- A run has at least one turn.
pub turns_or_default-pos : (n : ℤ) → 0 < turns_or_default n
unfolding turns_or_default
turns_or_default-pos (pos zero) = omega arith
turns_or_default-pos (pos (suc n)) = omega arith
turns_or_default-pos (negsuc n) = omega arith
