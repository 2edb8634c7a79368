-- ===== src/Toolchat/Grammar/Rules/Typed.antt =====
-- toolchat/schema_grammar.go: the rule table and the types of a schema.
use go_llama_cpp.Base.{
  ℕ, refl, Option, none, some, List, [], ◌∷◌, ◌++◌, if◌then◌else◌, Text, is_empty, text_beq,
  text_eq, ok, err, arith, Bool-cases, inl, inr,
}
use go_llama_cpp.Strings.{codes, join}
use go_llama_cpp.Json.{Json, null, str, arr, Fields}
use go_llama_cpp.Toolchat.Grammar.Lexical.{Runtime, sanitize_rule_name}
use go_llama_cpp.Toolchat.Grammar.Document.{get, item_list}
use go_llama_cpp.Toolchat.Grammar.Fuel.{fields_depth}
use go_llama_cpp.Toolchat.Grammar.Bodies.{bar}
use go_llama_cpp.Toolchat.Grammar.Converter.{SchemaConverter, define}
use go_llama_cpp.Toolchat.Grammar.Compile.Types.{unsupported_type, empty_types, Compile}
use go_llama_cpp.Toolchat.Grammar.Compile.Typed.{
  is_primitive, compile_typed, compile_types, type_alternatives, present, untyped, by_type,
}
use go_llama_cpp.Toolchat.Grammar.Rules.{
  IsTable, Fits, Extends-Fits, Extends, Extends-refl, Extends-trans, Gives, Extends-Gives, built_in,
  define-Gives, IsOk, >>=-IsOk, if-IsOk,
}
use go_llama_cpp.Toolchat.Grammar.Rules.Nodes.{IsSound, compile_array-Gives, compile_object-Gives}

module _ (go : Runtime) (rec : Compile) {fuel : ℕ} (sound : IsSound fuel rec) where
  primitive-Gives :
      (t : Text) (c : SchemaConverter)
      → IsTable c
      → IsOk (Gives c) (if is_primitive go rec t then ok (t, c) else err (unsupported_type t))
  primitive-Gives t c h = elim (Bool-cases (is_primitive go rec t)) [
    | inl p ↦ rw p (built_in c t h (ground arith))
    | inr p ↦ rw p refl
  ]

  compile_typed-Gives :
      (t : Text) (c : SchemaConverter) (n : Fields) (base : Text)
      → Fits fuel (fields_depth n) c
      → IsOk (Gives c) (compile_typed go rec t c n base)
  unfolding compile_typed
  compile_typed-Gives t c n base h =
      if-IsOk (Gives c) (text_beq t (codes "object")) _ _
        (compile_object-Gives go rec sound c n base h)
        (if-IsOk (Gives c) (text_beq t (codes "array")) _ _
          (compile_array-Gives go rec sound c n base h) (primitive-Gives t c h.table))

  compile_types-Extends :
      (c : SchemaConverter) (n : Fields) (ts : List Json) (base : Text)
      → Fits fuel (fields_depth n) c
      → IsOk (λ r. Extends c r.1) (compile_types go rec c n ts base)
  unfolding compile_types
  compile_types-Extends c n [] base h = Extends-refl c h.table
  compile_types-Extends c n (str t ∷ ts) base h =
      >>=-IsOk (Gives c) (λ r. Extends c r.1)
        (compile_typed go rec t c n (base ++ (b'-' ∷ sanitize_rule_name t))) _
        (compile_typed-Gives t c n (base ++ (b'-' ∷ sanitize_rule_name t)) h)
        λ r first.
          >>=-IsOk (λ s. Extends r.1 s.1) (λ s. Extends c s.1) (compile_types go rec r.1 n ts base)
            _
            (compile_types-Extends r.1 n ts base
              (Extends-Fits fuel (fields_depth n) c r.1 h first.0))
            λ s rest. Extends-trans c r.1 s.1 first.0 rest
  compile_types-Extends c n (v ∷ ts) base h = refl

  type_alternatives-Gives :
      (c : SchemaConverter) (n : Fields) (ts : List Json) (base : Text)
      → Fits fuel (fields_depth n) c
      → IsOk (Gives c) (type_alternatives go rec c n ts base)
  unfolding type_alternatives
  type_alternatives-Gives c n ts base h =
      >>=-IsOk (λ r. Extends c r.1) (Gives c) (compile_types go rec c n ts base)
        (λ r. if is_empty r.0 then err empty_types else ok (define r.1 base (join r.0 bar)))
        (compile_types-Extends c n ts base h)
        λ r all.
          if-IsOk (Gives c) (is_empty r.0) (err empty_types) (ok (define r.1 base (join r.0 bar)))
            refl
            (Extends-Gives c r.1 (define r.1 base (join r.0 bar)) all
              (define-Gives r.1 base (join r.0 bar) all.table))

  untyped-Gives :
      (c : SchemaConverter) (n : Fields) (base : Text)
      → Fits fuel (fields_depth n) c
      → IsOk (Gives c) (untyped go rec c n base)
  unfolding untyped
  untyped-Gives c n base h =
      if-IsOk (Gives c) (present go rec (get (codes "properties") n)) _ _
        (compile_object-Gives go rec sound c n base h)
        (if-IsOk (Gives c) (present go rec (get (codes "items") n)) _ _
          (compile_array-Gives go rec sound c n base h) (built_in c (codes "value") h.table refl))

  pub by_type-Gives :
      (c : SchemaConverter) (n : Fields) (type : Option Json) (base : Text)
      → Fits fuel (fields_depth n) c
      → IsOk (Gives c) (by_type go rec c n type base)
  unfolding by_type
  by_type-Gives c n none base h = untyped-Gives c n base h
  by_type-Gives c n (some null) base h = untyped-Gives c n base h
  by_type-Gives c n (some (str t)) base h = compile_typed-Gives t c n base h
  by_type-Gives c n (some (arr ts)) base h = type_alternatives-Gives c n (item_list ts) base h
  by_type-Gives c n (some other) base h = refl
