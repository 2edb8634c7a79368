-- ===== src/Toolchat/Grammar/Compile/Typed.antt =====
-- toolchat/schema_grammar.go: compileTyped, and the switch on the type in compileSchemaObject.
use go_llama_cpp.Base.{
  Bool, true, false, Option, none, some, List, [], ◌∷◌, ◌++◌, text_beq, if◌then◌else◌, Text,
  is_empty, text_eq, Result, ok, err, ◌>>=◌,
}
use go_llama_cpp.Strings.{codes, join}
use go_llama_cpp.Json.{Json, null, str, arr, Fields}
use go_llama_cpp.Toolchat.Grammar.Lexical.{Runtime, sanitize_rule_name, member}
use go_llama_cpp.Toolchat.Grammar.Document.{get, item_list}
use go_llama_cpp.Toolchat.Grammar.Bodies.{bar}
use go_llama_cpp.Toolchat.Grammar.Converter.{SchemaConverter, define}
use go_llama_cpp.Toolchat.Grammar.Compile.Types.{
  GrammarError, type_item, empty_types, bad_type, unsupported_type, Compiled, Compile,
}
use go_llama_cpp.Toolchat.Grammar.Compile.Objects.{compile_object, compile_array}

module _ (go : Runtime) (rec : Compile) where
  abbrev pub is_primitive : Text → Bool
  is_primitive t =
      member t
        (codes "string" ∷ codes "number" ∷ codes "integer" ∷ codes "boolean" ∷ codes "null" ∷ [])

  unfoldable pub compile_typed : Text → SchemaConverter → Fields → Text → Compiled
  unfolding compile_object compile_array
  compile_typed t c n base =
      let object = compile_object go rec c n base in
      let array = compile_array go rec c n base in
      if text_beq t (codes "object")
      then object
      else if text_beq t (codes "array")
      then array
      else if is_primitive t
      then ok (t, c)
      else err (unsupported_type t)

  -- The loop over a list of types.
  unfoldable pub compile_types :
      SchemaConverter
      → Fields
      → List Json
      → Text
      → Result GrammarError (List Text × SchemaConverter)
  unfolding compile_typed sanitize_rule_name
  compile_types c n [] base = ok ([], c)
  compile_types c n (str t ∷ ts) base = do
    r ← compile_typed t c n (base ++ (b'-' ∷ sanitize_rule_name t))
    rest ← compile_types r.1 n ts base
    ok (r.0 ∷ rest.0, rest.1)
  compile_types c n (t ∷ ts) base = err type_item

  unfoldable pub type_alternatives : SchemaConverter → Fields → List Json → Text → Compiled
  unfolding compile_types define join
  type_alternatives c n ts base = do
    r ← compile_types c n ts base
    (if is_empty r.0 then err empty_types else ok (define r.1 base (join r.0 bar)))

  abbrev pub present : Option Json → Bool
  present none = false
  present (some v) = true

  unfoldable pub untyped : SchemaConverter → Fields → Text → Compiled
  unfolding compile_object compile_array get
  untyped c n base =
      let object = compile_object go rec c n base in
      let array = compile_array go rec c n base in
      if present (get (codes "properties") n)
      then object
      else if present (get (codes "items") n)
      then array
      else ok (codes "value", c)

  -- `switch t := n["type"].(type)`
  unfoldable pub by_type : SchemaConverter → Fields → Option Json → Text → Compiled
  unfolding compile_typed type_alternatives untyped
  by_type c n none base = untyped c n base
  by_type c n (some null) base = untyped c n base
  by_type c n (some (str t)) base = compile_typed t c n base
  by_type c n (some (arr ts)) base = type_alternatives c n (item_list ts) base
  by_type c n (some other) base = err bad_type
