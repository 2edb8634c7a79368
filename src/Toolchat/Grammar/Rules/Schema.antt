-- ===== src/Toolchat/Grammar/Rules/Schema.antt =====
-- toolchat/schema_grammar.go: the rule table of a whole schema.
use go_llama_cpp.Base.{
  ℕ, zero, suc, ◌≡◌, refl, List, [], ◌∷◌, ◌++◌, if◌then◌else◌, Text, text_eq, ok, err, arith, ◌≢◌,
  true, false, Result, >>=-eq-ok, ok_inj, subst, sym,
}
use go_llama_cpp.Strings.{codes}
use go_llama_cpp.Json.{Json, bool, obj, Fields}
use go_llama_cpp.Json.Parse.{parse}
use go_llama_cpp.Toolchat.Grammar.Lexical.{Runtime, json_primitive_rules}
use go_llama_cpp.Toolchat.Grammar.Document.{get, numbers_in_range}
use go_llama_cpp.Toolchat.Grammar.Fuel.{depth, fields_depth, compile_fuel, room}
use go_llama_cpp.Toolchat.Grammar.Fuel.Bounds.{IsWithin, as_list-IsWithin}
use go_llama_cpp.Toolchat.Grammar.Converter.{SchemaConverter, new_schema_converter, rules_text}
use go_llama_cpp.Toolchat.Grammar.Compile.Types.{
  invalid_schema, out_of_fuel, GrammarError, Compile, as_string, as_list,
}
use go_llama_cpp.Toolchat.Grammar.Compile.{
  all_of, from_all_of, from_one_of, from_any_of, from_const, from_enum, compile_schema_object,
  node_cases, compile_node, compile_schema, schema_grammar,
}
use go_llama_cpp.Toolchat.Grammar.Rules.{
  IsTable, Fits, Fits-le, is_rule, Gives, built_in, new-IsTable, IsOk, option-IsOk, weaken-IsOk,
  if-IsOk, >>=-IsOk,
}
use go_llama_cpp.Toolchat.Grammar.Rules.Nodes.{
  IsSound, compile_literals-Gives, compile_alternatives-Gives,
}
use go_llama_cpp.Toolchat.Grammar.Compile.Literals.{compile_literals, compile_alternatives}
use go_llama_cpp.Toolchat.Grammar.Compile.Typed.{by_type}
use go_llama_cpp.Toolchat.Grammar.Compile.Refs.{compile_ref}
use go_llama_cpp.Toolchat.Grammar.Rules.Typed.{by_type-Gives}
use go_llama_cpp.Toolchat.Grammar.Rules.Refs.{compile_ref-Gives}

module _ (go : Runtime) (rec : Compile) {fuel : ℕ} (sound : IsSound fuel rec) where
  all_of-Gives :
      (d : ℕ) (c : SchemaConverter) (vs : List Json) (base : Text)
      → IsWithin d vs
      → Fits fuel d c
      → IsOk (Gives c) (all_of go rec c vs base)
  unfolding all_of
  all_of-Gives d c [] base w h = refl
  all_of-Gives d c (v ∷ []) base w h = sound c v base (Fits-le fuel d (depth v) c h w.0)
  all_of-Gives d c (v ∷ u ∷ vs) base w h = refl

  module _ (c : SchemaConverter) (n : Fields) (base : Text) (h : Fits fuel (fields_depth n) c) where
    from_all_of-Gives : IsOk (Gives c) (from_all_of go rec c n base)
    unfolding from_all_of
    from_all_of-Gives =
        option-IsOk (Gives c) (as_list (get (codes "allOf") n)) (λ vs. all_of go rec c vs base)
          (by_type go rec c n (get (codes "type") n) base)
          (λ vs e. all_of-Gives (fields_depth n) c vs base (as_list-IsWithin (codes "allOf") n e) h)
          (λ e. by_type-Gives go rec sound c n (get (codes "type") n) base h)

    from_one_of-Gives : IsOk (Gives c) (from_one_of go rec c n base)
    unfolding from_one_of
    from_one_of-Gives =
        option-IsOk (Gives c) (as_list (get (codes "oneOf") n))
          (λ vs. compile_alternatives rec c vs base) (from_all_of go rec c n base)
          (λ vs e.
            compile_alternatives-Gives go rec sound (fields_depth n) c vs base
              (as_list-IsWithin (codes "oneOf") n e) h)
          (λ e. from_all_of-Gives)

    from_any_of-Gives : IsOk (Gives c) (from_any_of go rec c n base)
    unfolding from_any_of
    from_any_of-Gives =
        option-IsOk (Gives c) (as_list (get (codes "anyOf") n))
          (λ vs. compile_alternatives rec c vs base) (from_one_of go rec c n base)
          (λ vs e.
            compile_alternatives-Gives go rec sound (fields_depth n) c vs base
              (as_list-IsWithin (codes "anyOf") n e) h)
          (λ e. from_one_of-Gives)

    from_const-Gives : IsOk (Gives c) (from_const go rec c n base)
    unfolding from_const
    from_const-Gives =
        option-IsOk (Gives c) (get (codes "const") n) (λ v. compile_literals go c (v ∷ []) base)
          (from_any_of go rec c n base)
          (λ v e. compile_literals-Gives go rec sound c (v ∷ []) base h.table)
          (λ e. from_any_of-Gives)

    from_enum-Gives : IsOk (Gives c) (from_enum go rec c n base)
    unfolding from_enum
    from_enum-Gives =
        option-IsOk (Gives c) (as_list (get (codes "enum") n)) (λ vs. compile_literals go c vs base)
          (from_const go rec c n base)
          (λ vs e. compile_literals-Gives go rec sound c vs base h.table) (λ e. from_const-Gives)

    compile_schema_object-Gives : IsOk (Gives c) (compile_schema_object go rec c n base)
    unfolding compile_schema_object
    compile_schema_object-Gives =
        option-IsOk (Gives c) (as_string (get (codes "$ref") n)) (λ ref. compile_ref rec c ref)
          (from_enum go rec c n base)
          (λ ref e. compile_ref-Gives rec sound (fields_depth n) c ref h) (λ e. from_enum-Gives)

  node_cases-IsSound : IsSound (suc fuel) (node_cases go rec)
  unfolding node_cases depth
  node_cases-IsSound c (bool true) base h = built_in c (codes "value") h.table refl
  node_cases-IsSound c (bool false) base h = refl
  node_cases-IsSound c (obj n) base h =
      compile_schema_object-Gives c n base
        (record { table = h.table; enough = omega (arith, h.enough) })
  node_cases-IsSound c v base h = refl

module _ (go : Runtime) where
  compile_node-IsSound : (fuel : ℕ) → IsSound fuel (compile_node go fuel)
  unfolding compile_node
  compile_node-IsSound zero c v base h = absurd (omega (arith, h.enough))
  compile_node-IsSound (suc fuel) c v base h =
      node_cases-IsSound go (compile_node go fuel) (compile_node-IsSound fuel) c v base h

  -- A document, from an empty table.
  document-Gives :
      (c : SchemaConverter) (fuel : ℕ) (doc : Json) (base : Text)
      → Fits fuel (depth doc) c
      → IsOk (λ r. IsTable r.1 × (is_rule r.1 r.0 ≡ true)) (compile_node go fuel c doc base)
  document-Gives c fuel doc base h =
      weaken-IsOk (Gives c) (λ r. IsTable r.1 × (is_rule r.1 r.0 ≡ true))
        (compile_node go fuel c doc base) (λ r k. (k.0.table, k.1))
        (compile_node-IsSound fuel c doc base h)

  -- The rules of a converter that has compiled a schema: each name of the table once and none of
  -- them built in, and the name that is returned in the table or built in.
  pub compile_schema-Gives :
      (prefix schema : Text)
      → IsOk
          (λ r. IsTable r.1 × (is_rule r.1 r.0 ≡ true))
          (compile_schema go (new_schema_converter prefix) schema)
  unfolding compile_schema compile_fuel room new_schema_converter
  compile_schema-Gives prefix schema =
      let c = new_schema_converter prefix in
      let empty = new-IsTable prefix in
      option-IsOk (λ r. IsTable r.1 × (is_rule r.1 r.0 ≡ true)) (parse schema)
        (λ doc.
          if numbers_in_range doc
          then compile_node go (compile_fuel doc) (record c { doc = doc }) doc c.prefix
          else err invalid_schema)
        (err invalid_schema)
        (λ doc e.
          if-IsOk (λ r. IsTable r.1 × (is_rule r.1 r.0 ≡ true)) (numbers_in_range doc)
            (compile_node go (compile_fuel doc) (record c { doc = doc }) doc c.prefix)
            (err invalid_schema)
            (document-Gives (record c { doc = doc }) (compile_fuel doc) doc c.prefix
              (record {
                table = record {
                  known = empty.known;
                  once = empty.once;
                  own = empty.own;
                  refs = empty.refs;
                };
                enough = omega arith;
              }))
            refl)
        (λ e. refl)

  -- If `SchemaGrammar` returns a grammar, it is a root rule that names a rule of the converter's
  -- table or a built-in one, the rules of that table and the shared rules; the table has each
  -- name once and none that is built in.
  pub schema_grammar_lem :
      (schema : Text) {text : Text}
      → schema_grammar go schema ≡ ok text
      → (root : Text) × (c : SchemaConverter) × IsTable c
        × (is_rule c root ≡ true)
        × (text ≡ codes "root ::= " ++ (root ++ 10 ∷ (rules_text c ++ json_primitive_rules)))
  unfolding schema_grammar
  schema_grammar_lem schema h =
      let compiled = compile_schema go (new_schema_converter (codes "schema")) schema in
      let (r, e, done) = >>=-eq-ok compiled _ h in
      let (table, named) =
        subst (IsOk (λ r. IsTable r.1 × (is_rule r.1 r.0 ≡ true))) e
          (compile_schema-Gives (codes "schema") schema) in
      (r.0, r.1, table, named, sym (ok_inj done))

  IsOk-ne :
      {A : Type 0} (P : A → Type 0) (r : Result GrammarError A) → IsOk P r → r ≢ err out_of_fuel
  IsOk-ne P (ok a) h e = cc
  IsOk-ne P (err x) h e = cc

  -- For every text the compiler of a schema ends: it never runs out of the fuel that it starts
  -- with, from any prefix of the rule names, and nor does `SchemaGrammar`.
  pub compile_schema-ends :
      (prefix schema : Text)
      → (compile_schema go (new_schema_converter prefix) schema ≢ err out_of_fuel)
        × (schema_grammar go schema ≢ err out_of_fuel)
  unfolding schema_grammar
  compile_schema-ends prefix schema = (
    IsOk-ne (λ r. IsTable r.1 × (is_rule r.1 r.0 ≡ true)) _ (compile_schema-Gives prefix schema),
    IsOk-ne (λ t. Unit) _
        (>>=-IsOk (λ r. IsTable r.1 × (is_rule r.1 r.0 ≡ true)) (λ t. Unit)
          (compile_schema go (new_schema_converter (codes "schema")) schema) _
          (compile_schema-Gives (codes "schema") schema) λ r h. tt),
  )
