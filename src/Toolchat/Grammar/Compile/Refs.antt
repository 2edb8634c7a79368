-- ===== src/Toolchat/Grammar/Compile/Refs.antt =====
-- toolchat/schema_grammar.go: compileRef.
use go_llama_cpp.Base.{
  Option, none, some, ◌++◌, if◌then◌else◌, Text, length, drop, lookup, insert, text_eq, ok, err,
  ◌>>=◌,
}
use go_llama_cpp.Strings.{codes, has_prefix}
use go_llama_cpp.Json.{Json, null, bool, num, str, arr, obj, Fields}
use go_llama_cpp.Toolchat.Grammar.Lexical.{sanitize_rule_name}
use go_llama_cpp.Toolchat.Grammar.Document.{get}
use go_llama_cpp.Toolchat.Grammar.Converter.{SchemaConverter, reserve, set_rule}
use go_llama_cpp.Toolchat.Grammar.Compile.Types.{
  unresolvable, unsupported_ref, Compiled, Compile, as_object,
}

module _ (rec : Compile) where
  abbrev pub defs_prefix : Text
  defs_prefix = codes "#/$defs/"

  abbrev pub definitions_prefix : Text
  definitions_prefix = codes "#/definitions/"

  -- The target: a member of a section of the root that is not null.
  abbrev pub in_section : Text → Option Fields → Option Json
  in_section name none = none
  in_section name (some fs) = elim (get name fs) [
    | none ↦ none
    | some v ↦ elim v [
      | null ↦ none
      | bool b ↦ some (bool b)
      | num s ↦ some (num s)
      | str s ↦ some (str s)
      | arr vs ↦ some (arr vs)
      | obj ms ↦ some (obj ms)
    ]
  ]

  -- The rule name stands in `refs` before the target is compiled.
  unfoldable pub compile_definition : SchemaConverter → Text → Text → Option Json → Compiled
  unfolding reserve set_rule sanitize_rule_name insert
  compile_definition c ref name none = err (unresolvable ref)
  compile_definition c ref name (some target) =
      let (rule, c') = reserve c (c.prefix ++ (codes "-def-" ++ sanitize_rule_name name)) in
      do
        r ← rec (record c' { refs = insert ref rule c'.refs }) target (rule ++ codes "-body")
        ok (rule, set_rule r.1 rule r.0)

  unfoldable pub resolve : SchemaConverter → Fields → Text → Compiled
  unfolding compile_definition has_prefix get
  resolve c root ref =
      let in_defs = drop (length defs_prefix) ref in
      let in_definitions = drop (length definitions_prefix) ref in
      if has_prefix ref defs_prefix
      then compile_definition c ref in_defs
          (in_section in_defs (as_object (get (codes "$defs") root)))
      else if has_prefix ref definitions_prefix
      then compile_definition c ref in_definitions
          (in_section in_definitions (as_object (get (codes "definitions") root)))
      else err (unsupported_ref ref)

  unfoldable pub in_document : SchemaConverter → Json → Text → Compiled
  unfolding resolve
  in_document c (obj root) ref = resolve c root ref
  in_document c doc ref = err (unresolvable ref)

  unfoldable pub compile_ref : SchemaConverter → Text → Compiled
  unfolding in_document lookup
  compile_ref c ref = elim (lookup ref c.refs) [
    | some name ↦ ok (name, c)
    | none ↦ in_document c c.doc ref
  ]
