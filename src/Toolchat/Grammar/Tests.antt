-- ===== src/Toolchat/Grammar/Tests.antt =====
-- Schemas of the program's own tests, and the grammars that they give.
use go_llama_cpp.Base.{true, false, ◌≡◌, refl, ◌++◌, ok, err, text_lt}
use go_llama_cpp.Json.Parse.{parse}
use go_llama_cpp.Strings.{codes}
use go_llama_cpp.Toolchat.Grammar.Lexical.{Runtime, json_primitive_rules, sanitize_rule_name}
use go_llama_cpp.Toolchat.Grammar.Document.{at_least_one, numbers_in_range}
use go_llama_cpp.Toolchat.Grammar.Compile.{schema_grammar}
use go_llama_cpp.Toolchat.Grammar.Compile.Types.{unresolvable, many_schemas}

-- Numbers are written as they stand, and nothing beyond ASCII prints.
abbrev plain : Runtime
plain = record { is_print = λ c. false; format_number = λ s. s }

object_schema :
    schema_grammar plain (
      codes
        "{\"type\":\"object\",\"properties\":{\"b\":{\"type\":\"string\"},\"a\":{\"type\":\"integer\"},\"c\":{\"enum\":[\"x\",1]}},\"required\":[\"b\"]}")
    ≡ ok (
        codes
          "root ::= schema\nschema-c ::= \"\\\"x\\\"\" ws | \"1\" ws\nschema ::= \"{\" ws \"\\\"b\\\"\" ws \":\" ws string (\",\" ws \"\\\"a\\\"\" ws \":\" ws integer)? (\",\" ws \"\\\"c\\\"\" ws \":\" ws schema-c)? \"}\" ws\n"
        ++ json_primitive_rules)
unfolding schema_grammar parse numbers_in_range text_lt
object_schema = refl

recursive_schema :
    schema_grammar plain (
      codes
        "{\"$ref\":\"#/$defs/node\",\"$defs\":{\"node\":{\"type\":\"object\",\"properties\":{\"next\":{\"$ref\":\"#/$defs/node\"}}}}}")
    ≡ ok (
        codes
          "root ::= schema-def-node\nschema-def-node ::= schema-def-node-body\nschema-def-node-body ::= \"{\" ws (\"\\\"next\\\"\" ws \":\" ws schema-def-node)? \"}\" ws\n"
        ++ json_primitive_rules)
unfolding schema_grammar parse numbers_in_range text_lt
recursive_schema = refl

failing_schemas :
    (schema_grammar plain (codes "{\"$ref\":\"#/$defs/x\"}")
      ≡ err (unresolvable (codes "#/$defs/x")))
    × (schema_grammar plain (codes "{\"allOf\":[true,true]}") ≡ err many_schemas)
unfolding schema_grammar parse numbers_in_range text_lt
failing_schemas = (refl, refl)

small_parts :
    (sanitize_rule_name (codes "--a b_c-") ≡ codes "a-b-c")
    × (sanitize_rule_name (codes "__") ≡ codes "x")
    × (at_least_one (codes "1") ≡ true)
    × (at_least_one (codes "0.99") ≡ false)
    × (at_least_one (codes "10e-1") ≡ true)
    × (at_least_one (codes "-3") ≡ false)
unfolding sanitize_rule_name at_least_one
small_parts = (refl, refl, refl, refl, refl, refl)
