-- ===== src/Toolchat/Grammar/Compile.antt =====
-- toolchat/schema_grammar.go: compileSchema, compileNode and compileSchemaObject, and SchemaGrammar.
-- A recursive call of the source is `rec`, which `compile_node` ties with fuel.
pub mod Types
pub mod Literals
pub mod Objects
pub mod Typed
pub mod Refs
use go_llama_cpp.Base.{
  ℕ, zero, suc, ◌+◌, ◌*◌, Bool, true, false, not, Option, none, some, List, [], ◌∷◌, ◌++◌, text_beq,
  if◌then◌else◌, Text, length, is_empty, drop, lookup, insert, text_eq, sort_by, Result, ok, err,
  ◌>>=◌,
}
use go_llama_cpp.Strings.{codes, itoa, join, has_prefix}
use go_llama_cpp.Json.{Json, null, bool, num, str, arr, obj, Fields}
use go_llama_cpp.Json.Parse.{parse}
use go_llama_cpp.Toolchat.Grammar.Lexical.{
  Runtime, quote, grammar_json_string_literal, sanitize_rule_name, member, json_primitive_rules,
}
use go_llama_cpp.Toolchat.Grammar.Document.{
  at_least_one, numbers_in_range, get, entries, item_list, marshal,
}
use go_llama_cpp.Toolchat.Grammar.Bodies.{bar, array_body, required_of, object_body}
use go_llama_cpp.Toolchat.Grammar.Fuel.{compile_fuel}
use go_llama_cpp.Toolchat.Grammar.Converter.{
  SchemaConverter, new_schema_converter, reserve, set_rule, define, rules_text,
}
use go_llama_cpp.Toolchat.Grammar.Compile.Types.{
  GrammarError, invalid_schema, false_schema, unsupported_schema, many_schemas, type_item,
  empty_types, bad_type, unsupported_type, unresolvable, unsupported_ref, empty_enum,
  empty_alternatives, out_of_fuel, Compiled, Compile, as_string, as_list, as_object,
}
use go_llama_cpp.Toolchat.Grammar.Compile.Literals.{compile_literals, compile_alternatives}
use go_llama_cpp.Toolchat.Grammar.Compile.Typed.{by_type}
use go_llama_cpp.Toolchat.Grammar.Compile.Refs.{compile_ref}

module _ (go : Runtime) (rec : Compile) where
  unfoldable pub all_of : SchemaConverter → List Json → Text → Compiled
  all_of c (v ∷ []) base = rec c v base
  all_of c vs base = err many_schemas

  -- The chain of keywords; each is tried where those before it are missing.
  unfoldable pub from_all_of : SchemaConverter → Fields → Text → Compiled
  unfolding all_of by_type get
  from_all_of c n base = elim (as_list (get (codes "allOf") n)) [
    | some vs ↦ all_of c vs base
    | none ↦ by_type go rec c n (get (codes "type") n) base
  ]

  unfoldable pub from_one_of : SchemaConverter → Fields → Text → Compiled
  unfolding compile_alternatives from_all_of get
  from_one_of c n base = elim (as_list (get (codes "oneOf") n)) [
    | some vs ↦ compile_alternatives rec c vs base
    | none ↦ from_all_of c n base
  ]

  unfoldable pub from_any_of : SchemaConverter → Fields → Text → Compiled
  unfolding compile_alternatives from_one_of get
  from_any_of c n base = elim (as_list (get (codes "anyOf") n)) [
    | some vs ↦ compile_alternatives rec c vs base
    | none ↦ from_one_of c n base
  ]

  unfoldable pub from_const : SchemaConverter → Fields → Text → Compiled
  unfolding compile_literals from_any_of get
  from_const c n base = elim (get (codes "const") n) [
    | some v ↦ compile_literals go c (v ∷ []) base
    | none ↦ from_any_of c n base
  ]

  unfoldable pub from_enum : SchemaConverter → Fields → Text → Compiled
  unfolding compile_literals from_const get
  from_enum c n base = elim (as_list (get (codes "enum") n)) [
    | some vs ↦ compile_literals go c vs base
    | none ↦ from_const c n base
  ]

  unfoldable pub compile_schema_object : SchemaConverter → Fields → Text → Compiled
  unfolding compile_ref from_enum get
  compile_schema_object c n base = elim (as_string (get (codes "$ref") n)) [
    | some ref ↦ compile_ref rec c ref
    | none ↦ from_enum c n base
  ]

  unfoldable pub node_cases : Compile
  unfolding compile_schema_object
  node_cases c (bool true) base = ok (codes "value", c)
  node_cases c (bool false) base = err false_schema
  node_cases c (obj n) base = compile_schema_object c n base
  node_cases c v base = err unsupported_schema

module _ (go : Runtime) where
  unfoldable pub compile_node : ℕ → Compile
  unfolding node_cases
  compile_node zero c v base = err out_of_fuel
  compile_node (suc fuel) c v base = node_cases go (compile_node fuel) c v base

  -- Fuel for nodes as deep as the document, and once more for each reference that it answers.
  unfoldable pub compile_schema : SchemaConverter → Text → Compiled
  unfolding compile_node compile_fuel
  compile_schema c schema = elim (parse schema) [
    | none ↦ err invalid_schema
    | some doc ↦
        if numbers_in_range doc
        then compile_node (compile_fuel doc) (record c { doc = doc }) doc c.prefix
        else err invalid_schema
  ]

  unfoldable pub schema_grammar : Text → Result GrammarError Text
  unfolding compile_schema new_schema_converter rules_text
  schema_grammar schema = do
    r ← compile_schema (new_schema_converter (codes "schema")) schema
    ok (codes "root ::= " ++ (r.0 ++ 10 ∷ (rules_text r.1 ++ json_primitive_rules)))
