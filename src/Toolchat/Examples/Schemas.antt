-- ===== src/Toolchat/Examples/Schemas.antt =====
-- Rule names and grammars of small schemas.
use go_llama_cpp.Base.{
  ◌≡◌, ◌≢◌, err, refl, true, false, [], ◌∷◌, ◌++◌, ok, Text, lookup, insert, text_eq, text_lt,
}
use go_llama_cpp.Strings.{codes, itoa}
use go_llama_cpp.Json.Parse.{parse}
use go_llama_cpp.Toolchat.Grammar.Lexical.{json_primitive_rules}
use go_llama_cpp.Toolchat.Grammar.Document.{numbers_in_range}
use go_llama_cpp.Toolchat.Grammar.Converter.{
  SchemaConverter, new_schema_converter, is_taken, reserve, rules_text,
}
use go_llama_cpp.Toolchat.Grammar.Converter.Fresh.{reserve-free}
use go_llama_cpp.Toolchat.Grammar.Compile.{schema_grammar, compile_schema}
use go_llama_cpp.Toolchat.Grammar.Compile.Types.{out_of_fuel}
use go_llama_cpp.Toolchat.Grammar.Rules.{IsTable, is_rule}
use go_llama_cpp.Toolchat.Grammar.Rules.Schema.{schema_grammar_lem, compile_schema-ends}
use go_llama_cpp.Toolchat.Examples.{runtime}

-- A converter with a rule "x".
abbrev with_rule : SchemaConverter
with_rule = record (new_schema_converter (codes "x")) {
  rules = (codes "x", codes "string") ∷ [];
  order = codes "x" ∷ [];
}

reserve-free_example : is_taken with_rule (reserve with_rule (codes "x")).0 ≡ false
reserve-free_example = reserve-free with_rule (codes "x")

next_names :
    ((reserve with_rule (codes "x")).0 ≡ codes "x-2")
    × ((reserve with_rule (codes "ws")).0 ≡ codes "ws-2")
unfolding reserve lookup insert itoa
next_names = (refl, refl)

abbrev string_list : Text
string_list = codes "{\"items\":{\"enum\":[1]}}"

string_list_grammar :
    schema_grammar runtime string_list
    ≡ ok (
        codes
          "root ::= schema\nschema-item ::= \"1\" ws\nschema ::= \"[\" ws (schema-item (\",\" ws schema-item)*)? \"]\" ws\n"
        ++ json_primitive_rules)
unfolding schema_grammar parse numbers_in_range text_lt
string_list_grammar = refl

schema_grammar_example :
    (root : Text) × (c : SchemaConverter) × IsTable c
    × (is_rule c root ≡ true)
    × (codes
            "root ::= schema\nschema-item ::= \"1\" ws\nschema ::= \"[\" ws (schema-item (\",\" ws schema-item)*)? \"]\" ws\n"
          ++ json_primitive_rules
        ≡ codes "root ::= " ++ (root ++ 10 ∷ (rules_text c ++ json_primitive_rules)))
schema_grammar_example = schema_grammar_lem runtime string_list string_list_grammar

-- A definition that refers to itself.
abbrev recursive : Text
recursive = codes "{\"$defs\":{\"n\":{\"$ref\":\"#/$defs/n\"}},\"$ref\":\"#/$defs/n\"}"

compile_schema-ends_example :
    (compile_schema runtime (new_schema_converter (codes "tool-args-0")) recursive
      ≢ err out_of_fuel)
    × (schema_grammar runtime recursive ≢ err out_of_fuel)
compile_schema-ends_example = compile_schema-ends runtime (codes "tool-args-0") recursive
