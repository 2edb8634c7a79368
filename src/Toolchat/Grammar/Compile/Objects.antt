-- ===== src/Toolchat/Grammar/Compile/Objects.antt =====
-- toolchat/schema_grammar.go: compileArray and compileObject.
use go_llama_cpp.Base.{
  Bool, true, false, not, Option, none, some, List, [], ◌∷◌, ◌++◌, if◌then◌else◌, Text, is_empty,
  text_eq, sort_by, Result, ok, ◌>>=◌,
}
use go_llama_cpp.Strings.{codes}
use go_llama_cpp.Json.{Json, null, bool, num, Fields}
use go_llama_cpp.Toolchat.Grammar.Lexical.{
  Runtime, grammar_json_string_literal, sanitize_rule_name, member,
}
use go_llama_cpp.Toolchat.Grammar.Document.{at_least_one, get, entries}
use go_llama_cpp.Toolchat.Grammar.Bodies.{array_body, required_of, object_body}
use go_llama_cpp.Toolchat.Grammar.Converter.{SchemaConverter, define}
use go_llama_cpp.Toolchat.Grammar.Compile.Types.{
  GrammarError, Compiled, Compile, as_list, as_object,
}

module _ (go : Runtime) (rec : Compile) where
  abbrev pub min_items_positive : Option Json → Bool
  min_items_positive (some (num s)) = at_least_one s
  min_items_positive _ = false

  unfoldable pub compile_items : SchemaConverter → Fields → Option Json → Text → Compiled
  unfolding array_body define at_least_one get
  compile_items c n none base = ok (codes "array", c)
  compile_items c n (some null) base = ok (codes "array", c)
  compile_items c n (some items) base = do
    r ← rec c items (base ++ codes "-item")
    ok (define r.1 base (array_body (min_items_positive (get (codes "minItems") n)) r.0))

  unfoldable pub compile_array : SchemaConverter → Fields → Text → Compiled
  unfolding compile_items
  compile_array c n base = compile_items c n (get (codes "items") n) base

  -- The loop over the sorted properties: the required pairs, the optional ones, the converter.
  unfoldable pub compile_properties :
      SchemaConverter
      → List (Text × Json)
      → List Text
      → Text
      → Result GrammarError (List Text × List Text × SchemaConverter)
  unfolding grammar_json_string_literal sanitize_rule_name
  compile_properties c [] required base = ok ([], [], c)
  compile_properties c ((prop, v) ∷ props) required base = do
    sub ← rec c v (base ++ (b'-' ∷ sanitize_rule_name prop))
    rest ← compile_properties sub.1 props required base
    let kv = grammar_json_string_literal go prop ++ (codes " ws \":\" ws " ++ sub.0)
    ok (
        if member prop required
        then (kv ∷ rest.0, rest.1, rest.2)
        else (rest.0, kv ∷ rest.1, rest.2))

  abbrev pub is_false : Json → Bool
  is_false (bool false) = true
  is_false _ = false

  -- An object without declared properties.
  unfoldable pub empty_properties : SchemaConverter → Option Json → Text → Text × SchemaConverter
  unfolding define
  empty_properties c (some (bool false)) base = define c base (codes "\"{\" ws \"}\" ws")
  empty_properties c ap base = (codes "object", c)

  -- An explicit opt-in to extra keys.
  abbrev pub allows_extra : Option Json → Bool
  allows_extra none = false
  allows_extra (some ap) = not (is_false ap)

  unfoldable pub declared_properties :
      SchemaConverter → Fields → List (Text × Json) → Text → Compiled
  unfolding compile_properties object_body required_of sort_by get define
  declared_properties c n props base = do
    r ←
        compile_properties c (sort_by (λ p. p.0) props)
          (required_of (as_list (get (codes "required") n))) base
    ok (define r.2 base (object_body r.0 r.1))

  abbrev pub property_entries : Option Fields → List (Text × Json)
  property_entries none = []
  property_entries (some fs) = entries fs

  unfoldable pub compile_object : SchemaConverter → Fields → Text → Compiled
  unfolding declared_properties empty_properties entries get
  compile_object c n base =
      let props = property_entries (as_object (get (codes "properties") n)) in
      let extra = get (codes "additionalProperties") n in
      let declared = declared_properties c n props base in
      if is_empty props
      then ok (empty_properties c extra base)
      else if allows_extra extra
      then ok (codes "object", c)
      else declared
