-- ===== src/Toolchat/Runner/Loop/Grammar.antt =====
-- toolchat/toolchat.go: the grammar that a round of Generate runs under.
use mathlib.Core.List.{Perm}
use mathlib.Core.List.Perm
use go_llama_cpp.Base.{
  ◌≡◌, refl, subst, ◌∙◌, Bool, true, false, ◌&&◌, not, List, [], ◌∷◌, ◌++◌, map, if◌then◌else◌,
  Text, is_empty, Result, ok, >>=-eq-ok, Bool-cases, inl, inr,
}
use go_llama_cpp.Strings.{codes, has_prefix}
use go_llama_cpp.Options.Types.{PredictOption, PredictOptions, default_options}
use go_llama_cpp.Options.Predict.{with_grammar, apply_predict_options, new_predict_options}
use go_llama_cpp.Toolchat.Types.{
  ToolChoice, unset, auto, required, never, other, is_choice, is_required, is_auto, choice_or_auto,
  Error, Tool,
}
use go_llama_cpp.Toolchat.Tools.{normalize_tools, with_schema}
use go_llama_cpp.Toolchat.Tools.Laws.{normalize_tools_result}
use go_llama_cpp.Toolchat.Grammar.Lexical.{Runtime}
use go_llama_cpp.Toolchat.Grammar.Envelope.{grammar_text, envelope_grammar}
use go_llama_cpp.Toolchat.Runner.Config.{Runner, RunnerConfig, grammars, configured, prepare}
use go_llama_cpp.Toolchat.Runner.Config.Laws.{prepare_inv}
use go_llama_cpp.Toolchat.Runner.Loop.{Response, round_options}

is_empty-Perm : (xs ys : List Tool) → Perm xs ys → is_empty xs ≡ is_empty ys
is_empty-Perm [] [] h = refl
is_empty-Perm [] (y ∷ ys) h = cc (Perm.nil-eq h)
is_empty-Perm (x ∷ xs) [] h = cc (Perm.eq-nil h)
is_empty-Perm (x ∷ xs) (y ∷ ys) h = refl

is_empty-map : (ts : List Tool) → is_empty (map with_schema ts) ≡ is_empty ts
is_empty-map [] = refl
is_empty-map (t ∷ ts) = refl

is_empty-normalize_tools :
    (choice : ToolChoice) (rc : Bool) (ts : List Tool) {found : List Tool × List (Text × Tool)}
    → normalize_tools ts choice rc ≡ ok found
    → is_empty found.0 ≡ is_empty ts
is_empty-normalize_tools choice rc ts h =
    is_empty-Perm _ _ (normalize_tools_result choice rc ts h).1 ∙ is_empty-map ts

-- The line of the root rule, for a choice and for whether there are tools.
pub root_line : ToolChoice → Bool → Text
root_line choice no_tools =
    if is_required choice
    then codes "root ::= tool-call\n"
    else if is_auto choice && not no_tools
    then codes "root ::= final | tool-call\n"
    else codes "root ::= final\n"

grammar_text-root :
    (go : Runtime) (tools : List Tool) (choice : ToolChoice)
    → has_prefix (grammar_text go tools choice) (root_line choice (is_empty tools)) ≡ true
unfolding grammar_text root_line has_prefix
grammar_text-root go tools required = refl
grammar_text-root go [] auto = refl
grammar_text-root go (t ∷ ts) auto = refl
grammar_text-root go tools never = refl
grammar_text-root go tools unset = refl
grammar_text-root go tools (other s) = refl

envelope_grammar-root :
    (go : Runtime) (tools : List Tool) (choice : ToolChoice) {g : Text}
    → is_choice choice ≡ true
    → envelope_grammar go tools choice ≡ ok g
    → has_prefix g (root_line choice (is_empty tools)) ≡ true
unfolding envelope_grammar
envelope_grammar-root go tools choice {g} k h =
    let same : choice_or_auto choice ≡ choice = effective choice k in
    let (found, normalized, done) =
      >>=-eq-ok (normalize_tools tools choice false) (λ r. ok (grammar_text go r.0 choice))
        {out = g} (rw (same, k, envelope_grammar) at h) in
    subst (λ (t : Text). has_prefix t (root_line choice (is_empty tools)) ≡ true) (text_inj done)
      (subst (λ (b : Bool). has_prefix (grammar_text go found.0 choice) (root_line choice b) ≡ true)
        (is_empty-normalize_tools choice false tools normalized)
        (grammar_text-root go found.0 choice))
  where
    effective : (c : ToolChoice) → is_choice c ≡ true → choice_or_auto c ≡ c
    effective unset k = cc
    effective auto k = refl
    effective required k = refl
    effective never k = refl
    effective (other s) k = refl

    text_inj : {a b : Text} → ◌≡◌ {A = Result Error Text} (ok a) (ok b) → a ≡ b
    text_inj h = cc

-- The choice that rules once a tool has run.
abbrev pub later_choice : ToolChoice → ToolChoice
later_choice choice = if is_required choice then auto else choice

abbrev pub round_choice : ToolChoice → Response → ToolChoice
round_choice choice resp = if is_empty resp.tool_results then choice else later_choice choice

pair_inj : {a b : Text × Text} → ◌≡◌ {A = Result Error (Text × Text)} (ok a) (ok b) → a ≡ b
pair_inj h = cc

HasRoots : List Tool → ToolChoice → ToolChoice → Text × Text → Type 0
HasRoots tools choice later texts =
    (has_prefix texts.0 (root_line choice (is_empty tools)) ≡ true)
    × (has_prefix texts.1 (root_line later (is_empty tools)) ≡ true)

grammars-root :
    (go : Runtime) (tools : List Tool) (choice : ToolChoice) {texts : Text × Text}
    → is_choice choice ≡ true
    → grammars go false tools choice ≡ ok texts
    → HasRoots tools choice (later_choice choice) texts
unfolding grammars HasRoots
grammars-root go tools choice {texts} k h = elim (Bool-cases (is_required choice)) [
  | inl need ↦
      let (first, compiled, h') =
        >>=-eq-ok (envelope_grammar go tools choice) _ (rw (need, grammars) at h) in
      let (later, compiled', done) = >>=-eq-ok (envelope_grammar go tools auto) _ h' in
      rw need (
        subst (HasRoots tools choice auto) (pair_inj done) (
          envelope_grammar-root go tools choice k compiled,
          envelope_grammar-root go tools auto refl compiled',
        ))
  | inr free ↦
      let (first, compiled, h') =
        >>=-eq-ok (envelope_grammar go tools choice) _ (rw (free, grammars) at h) in
      let first_root = envelope_grammar-root go tools choice k compiled in
      rw free (subst (HasRoots tools choice choice) (pair_inj h') (first_root, first_root))
]

apply-append :
    (p : PredictOptions) (opts : List PredictOption) (o : PredictOption)
    → apply_predict_options p (opts ++ o ∷ []) ≡ o (apply_predict_options p opts)
unfolding apply_predict_options
apply-append p [] o = refl
apply-append p (opt ∷ opts) o = apply-append (opt p) opts o

root_line-ne-nil :
    (choice : ToolChoice) (no_tools : Bool) → is_empty (root_line choice no_tools) ≡ false
unfolding root_line
root_line-ne-nil required b = refl
root_line-ne-nil auto true = refl
root_line-ne-nil auto false = refl
root_line-ne-nil never b = refl
root_line-ne-nil unset b = refl
root_line-ne-nil (other s) b = refl

has_prefix-ne-nil : (g p : Text) → is_empty p ≡ false → has_prefix g p ≡ true → is_empty g ≡ false
unfolding has_prefix
has_prefix-ne-nil [] [] h k = cc
has_prefix-ne-nil [] (c ∷ p) h k = cc
has_prefix-ne-nil (d ∷ g) p h k = refl

-- The options of a round give its grammar, which is not empty.
round_options-grammar :
    (cfg : RunnerConfig) (resp : Response) (g line : Text)
    → cfg.disable_grammar ≡ false
    → (if is_empty resp.tool_results then cfg.grammar else cfg.followup_grammar) ≡ g
    → is_empty line ≡ false
    → has_prefix g line ≡ true
    → has_prefix (new_predict_options (round_options cfg resp)).grammar line ≡ true
unfolding round_options new_predict_options with_grammar
round_options-grammar cfg resp g line off chosen full h =
    rw
      (
        chosen,
        off,
        has_prefix-ne-nil g line full h,
        apply-append default_options cfg.predict_options (with_grammar g),
      )
      h

-- If `prepare` accepts a runner whose grammar is not disabled then, whatever options the caller
-- gave, the grammar of a round begins with the root rule of the choice: a tool call where one is
-- required and no tool has run; a final answer or, where there are tools, a call for the
-- automatic choice and for a required one once a tool has run; and else a final answer.
pub round_options-root :
    (go : Runtime) (r : Runner) (resp : Response) {cfg : RunnerConfig}
    → prepare go r ≡ ok cfg
    → r.disable_grammar ≡ false
    → has_prefix
        (new_predict_options (round_options cfg resp)).grammar
        (root_line (round_choice (choice_or_auto r.tool_choice) resp) (is_empty r.tools))
      ≡ true
unfolding configured HasRoots
round_options-root go r resp {cfg} h k =
    let choice = choice_or_auto r.tool_choice in
    let (_, chosen, (found, texts, normalized, compiled, same)) = prepare_inv go r h in
    let roots : HasRoots found.0 choice (later_choice choice) texts =
      grammars-root go found.0 choice chosen (rw k at compiled) in
    let empty = is_empty-normalize_tools choice true r.tools normalized in
    let line = root_line (round_choice choice resp) (is_empty r.tools) in
    let g = if is_empty resp.tool_results then texts.0 else texts.1 in
    let fits : has_prefix g line ≡ true =
      subst (λ (b : Bool). has_prefix g (root_line (round_choice choice resp) b) ≡ true) empty
        (pick (is_empty resp.tool_results) found.0 choice (later_choice choice) texts roots) in
    subst
      (λ (c : RunnerConfig).
        has_prefix (new_predict_options (round_options c resp)).grammar line ≡ true)
      same
      (round_options-grammar (configured go r choice found.0 found.1 texts) resp g line k refl
        (root_line-ne-nil (round_choice choice resp) (is_empty r.tools)) fits)
  where
    pick :
        (b : Bool) (tools : List Tool) (choice later : ToolChoice) (texts : Text × Text)
        → HasRoots tools choice later texts
        → has_prefix
            (if b then texts.0 else texts.1)
            (root_line (if b then choice else later) (is_empty tools))
          ≡ true
    pick true tools choice later texts roots = roots.0
    pick false tools choice later texts roots = roots.1
