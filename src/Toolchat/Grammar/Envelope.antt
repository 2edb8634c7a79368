-- ===== src/Toolchat/Grammar/Envelope.antt =====
-- toolchat/toolchat.go: EnvelopeGrammar.
use go_llama_cpp.Base.{
  ℕ, suc, false, ◌&&◌, not, List, [], ◌∷◌, ◌++◌, if◌then◌else◌, Text, is_empty, Result, ok, err,
  ◌>>=◌,
}
use go_llama_cpp.Strings.{codes, itoa, join}
use go_llama_cpp.Toolchat.Types.{
  ToolChoice, is_choice, is_never, is_required, is_auto, choice_or_auto, Error, unsupported_choice,
  Tool,
}
use go_llama_cpp.Toolchat.Tools.{normalize_tools}
use go_llama_cpp.Toolchat.Grammar.Lexical.{
  Runtime, grammar_json_string_literal, json_primitive_rules,
}
use go_llama_cpp.Toolchat.Grammar.Converter.{new_schema_converter, rules_text}
use go_llama_cpp.Toolchat.Grammar.Compile.{compile_schema}
use go_llama_cpp.Toolchat.Grammar.Compile.Types.{Compiled}

abbrev pub root_rule : ToolChoice → List Tool → Text
root_rule choice tools =
    if is_required choice
    then codes "root ::= tool-call"
    else if is_auto choice && not (is_empty tools)
    then codes "root ::= final | tool-call"
    else codes "root ::= final"

abbrev pub final_rule : Text
final_rule =
    codes
      "\nfinal ::= \"{\" ws \"\\\"type\\\"\" ws \":\" ws \"\\\"final\\\"\" ws \",\" ws \"\\\"content\\\"\" ws \":\" ws string \"}\" ws\n"

abbrev tool_call_rules : Text
tool_call_rules =
    codes
      "tool-call ::= \"{\" ws \"\\\"type\\\"\" ws \":\" ws \"\\\"tool_call\\\"\" ws \",\" ws \"\\\"tool_calls\\\"\" ws \":\" ws \"[\" ws tool-call-item (\",\" ws tool-call-item)* \"]\" ws \"}\" ws\ntool-call-item ::= "

-- A schema that cannot be expressed gives any object, and no rules.
abbrev arguments_rule : Compiled → Text × Text
arguments_rule (ok (name, c)) = (name, rules_text c)
arguments_rule (err e) = (codes "object", [])

abbrev item_name : ℕ → Text
item_name i = codes "tool-item-" ++ itoa i

module _ (go : Runtime) where
  item_rule : ℕ → Tool → Text → Text
  unfolding grammar_json_string_literal itoa
  item_rule i t args_rule =
      item_name i
      ++ (codes " ::= \"{\" ws \"\\\"name\\\"\" ws \":\" ws "
          ++ (grammar_json_string_literal go t.name
              ++ (codes " ws \",\" ws \"\\\"arguments\\\"\" ws \":\" ws "
                  ++ (args_rule ++ codes " \"}\" ws\n"))))

  tool_rules : ℕ → Tool → Text
  unfolding item_rule compile_schema new_schema_converter rules_text itoa
  tool_rules i t =
      let (args_rule, rules) =
        arguments_rule
          (compile_schema go (new_schema_converter (codes "tool-args-" ++ itoa i)) t.schema) in
      rules ++ item_rule i t args_rule

  -- The loop over the tools: the names of the items and the text of the rules.
  items_and_rules : ℕ → List Tool → List Text × Text
  unfolding tool_rules itoa
  items_and_rules i [] = ([], [])
  items_and_rules i (t ∷ ts) =
      let (names, rules) = items_and_rules (suc i) ts in
      (item_name i ∷ names, tool_rules i t ++ rules)

  pub all_tool_rules : List Tool → Text
  unfolding items_and_rules join
  all_tool_rules tools =
      let (names, rules) = items_and_rules 0 tools in
      tool_call_rules ++ (join names (codes " | ") ++ 10 ∷ rules)

  unfoldable pub grammar_text : List Tool → ToolChoice → Text
  unfolding all_tool_rules
  grammar_text tools choice =
      root_rule choice tools
      ++ (final_rule
          ++ ((if not (is_empty tools) && not (is_never choice) then all_tool_rules tools else [])
              ++ json_primitive_rules))

  unfoldable pub envelope_grammar : List Tool → ToolChoice → Result Error Text
  unfolding grammar_text
  envelope_grammar tools choice =
      if not (is_choice (choice_or_auto choice)) then err (unsupported_choice choice) else (do
        r ← normalize_tools tools (choice_or_auto choice) false
        ok (grammar_text r.0 (choice_or_auto choice)))
