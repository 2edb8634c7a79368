-- ===== src/Toolchat/Grammar/Rules/Refs.antt =====
-- toolchat/schema_grammar.go: the rule table and references.
use go_llama_cpp.Base.{
  ℕ, suc, ◌≤◌, ◌≡◌, ◌∙◌, subst, refl, mul-le-mul_right, true, Option, none, some, ◌++◌, Text,
  text_eq, lookup, insert, lookup-insert, ok, err, arith, drop, length,
}
use go_llama_cpp.Strings.{codes, has_prefix}
use go_llama_cpp.Json.{Json, obj, Fields}
use go_llama_cpp.Toolchat.Grammar.Lexical.{member, sanitize_rule_name}
use go_llama_cpp.Toolchat.Grammar.Document.{get}
use go_llama_cpp.Toolchat.Grammar.Converter.Fresh.{member-append}
use go_llama_cpp.Toolchat.Grammar.Converter.{SchemaConverter, reserve, set_rule}
use go_llama_cpp.Toolchat.Grammar.Fuel.{depth, targets, section_of, section_refs}
use go_llama_cpp.Toolchat.Grammar.Fuel.Bounds.{
  section-member, drop-prefix, as_object-eq, get-le, insert-IsKept, insert-unfollowed,
}
use go_llama_cpp.Toolchat.Grammar.Compile.Types.{unsupported_ref, Compile, as_object}
use go_llama_cpp.Toolchat.Grammar.Compile.Refs.{
  in_section, defs_prefix, definitions_prefix, compile_definition, resolve, in_document,
  compile_ref,
}
use go_llama_cpp.Toolchat.Grammar.Rules.{
  IsTable, Fits, Extends, Extends-trans, Gives, is_rule-Gives, or_true, reserve-Extends,
  set_rule-Extends, IsOk, option-IsOk, >>=-IsOk, test-IsOk, true_or,
}
use go_llama_cpp.Toolchat.Grammar.Rules.Nodes.{IsSound}

module _ (rec : Compile) {fuel : ℕ} (sound : IsSound fuel rec) where
  -- A reference to a name of the table.
  refer-Extends :
      (c : SchemaConverter) (ref rule : Text)
      → IsTable c
      → member rule c.order ≡ true
      → Extends c (record c { refs = insert ref rule c.refs })
  refer-Extends c ref rule h m = record {
    table = record {
      known = h.known;
      once = h.once;
      own = h.own;
      refs = λ other n k. ground (arith, lookup-insert ref other rule c.refs, h.refs other n, m);
    };
    grows = λ n e. e;
    same = refl;
    kept = insert-IsKept c.refs ref rule;
  }

  -- What a reference that is not followed yet leads to.
  abbrev Answers : ℕ → SchemaConverter → Text → Option Json → Type 0
  Answers d c ref target =
      (lookup ref c.refs ≡ none)
      × ((v : Json)
          → target ≡ some v
          → (member ref (targets c.doc) ≡ true) × (depth v ≤ depth c.doc))

  -- The target fits once its reference is followed.
  refer-Fits :
      (d : ℕ) (c c' : SchemaConverter) (ref rule : Text) (v : Json)
      → Fits fuel d c
      → Extends c c'
      → c'.refs ≡ c.refs
      → Answers d c ref (some v)
      → IsTable (record c' { refs = insert ref rule c'.refs })
      → Fits fuel (depth v) (record c' { refs = insert ref rule c'.refs })
  refer-Fits d c c' ref rule v h more kept (open_ref, found) table = record {
    table = table;
    enough =
        rw (more.same, kept)
          (let (mem, le) = found v refl in
            let fewer = insert-unfollowed c.refs ref rule (targets c.doc) open_ref mem in
            omega (arith, h.enough, le, mul-le-mul_right (suc (depth c.doc)) fewer));
  }

  compile_definition-Gives :
      (d : ℕ) (c : SchemaConverter) (ref name : Text) (target : Option Json)
      → Answers d c ref target
      → Fits fuel d c
      → IsOk (Gives c) (compile_definition rec c ref name target)
  unfolding compile_definition
  compile_definition-Gives d c ref name none a h = refl
  compile_definition-Gives k c ref name (some target) a h =
      let r = reserve c (c.prefix ++ (codes "-def-" ++ sanitize_rule_name name)) in
      let (more, mem) =
        reserve-Extends c h.table (c.prefix ++ (codes "-def-" ++ sanitize_rule_name name)) in
      let d : SchemaConverter = record r.1 { refs = insert ref r.0 r.1.refs } in
      let referred = refer-Extends r.1 ref r.0 more.table mem in
      >>=-IsOk (Gives d) (Gives c) (rec d target (r.0 ++ codes "-body"))
        (λ s. ok (r.0, set_rule s.1 r.0 s.0))
        (sound d target (r.0 ++ codes "-body")
          (refer-Fits k c r.1 ref r.0 target h more refl a referred.table))
        λ s inner.
          let there = inner.0.grows r.0 mem in
          let named = set_rule-Extends s.1 inner.0.table r.0 s.0 there in
          (
            Extends-trans c r.1 (set_rule s.1 r.0 s.0) more (
                Extends-trans r.1 d (set_rule s.1 r.0 s.0) referred
                  (Extends-trans d s.1 (set_rule s.1 r.0 s.0) inner.0 named)),
            or_true _ _ (named.grows r.0 there),
          )

  in_section-eq :
      (name : Text) (o : Option Fields) (v : Json)
      → in_section rec name o ≡ some v
      → (fs : Fields) × (o ≡ some fs) × (get name fs ≡ some v)
  in_section-eq name none v h = cc
  in_section-eq name (some fs) v h = (fs, refl, ground arith)

  -- A reference into a section is among those that the section answers, and its target within it.
  section_answers :
      (root : Fields) (prefix key ref : Text) (v : Json)
      → has_prefix ref prefix ≡ true
      → in_section rec (drop (length prefix) ref) (as_object (get key root)) ≡ some v
      → (member ref (section_of prefix (get key root)) ≡ true) × (depth v ≤ depth (obj root))
  unfolding depth
  section_answers root prefix key ref v p h =
      let name = drop (length prefix) ref in
      let (fs, e, k) = in_section-eq name (as_object (get key root)) v h in
      let there = as_object-eq (get key root) e in
      (
        rw (there, section_of)
            (subst (λ s. member s (section_refs prefix fs) ≡ true) (drop-prefix ref prefix p)
              (section-member prefix name fs k)),
        omega (arith, get-le name fs k, get-le key root there),
      )

  defs_answered :
      (c : SchemaConverter) (root : Fields) (ref : Text) (v : Json)
      → c.doc ≡ obj root
      → has_prefix ref (defs_prefix rec) ≡ true
      → in_section rec (drop 8 ref) (as_object (get (codes "$defs") root)) ≡ some v
      → (member ref (targets c.doc) ≡ true) × (depth v ≤ depth c.doc)
  unfolding targets
  defs_answered c root ref v same p h = rw same (
      let (mem, le) = section_answers root (defs_prefix rec) (codes "$defs") ref v p h in
      (
        member-append ref (section_of (codes "#/$defs/") (get (codes "$defs") root)) _
            ∙ or_true _ _ mem,
        le,
      ))

  definitions_answered :
      (c : SchemaConverter) (root : Fields) (ref : Text) (v : Json)
      → c.doc ≡ obj root
      → has_prefix ref (definitions_prefix rec) ≡ true
      → in_section rec (drop 14 ref) (as_object (get (codes "definitions") root)) ≡ some v
      → (member ref (targets c.doc) ≡ true) × (depth v ≤ depth c.doc)
  unfolding targets
  definitions_answered c root ref v same p h = rw same (
      let (mem, le) =
        section_answers root (definitions_prefix rec) (codes "definitions") ref v p h in
      (
        member-append ref (section_of (codes "#/$defs/") (get (codes "$defs") root)) _
            ∙ true_or _ _ mem,
        le,
      ))

  resolve-Gives :
      (d : ℕ) (c : SchemaConverter) (root : Fields) (ref : Text)
      → lookup ref c.refs ≡ none
      → c.doc ≡ obj root
      → Fits fuel d c
      → IsOk (Gives c) (resolve rec c root ref)
  unfolding resolve
  resolve-Gives d c root ref e same h =
      test-IsOk (Gives c) (has_prefix ref (defs_prefix rec)) _ _
        (λ p.
          compile_definition-Gives d c ref (drop 8 ref) _
            (e, λ v k. defs_answered c root ref v same p k) h)
        λ q.
          test-IsOk (Gives c) (has_prefix ref (definitions_prefix rec)) _
            (err (unsupported_ref ref))
            (λ p.
              compile_definition-Gives d c ref (drop 14 ref) _
                (e, λ v k. definitions_answered c root ref v same p k) h)
            λ p. refl

  in_document-Gives :
      (d : ℕ) (c : SchemaConverter) (doc : Json) (ref : Text)
      → lookup ref c.refs ≡ none
      → c.doc ≡ doc
      → Fits fuel d c
      → IsOk (Gives c) (in_document rec c doc ref)
  unfolding in_document
  in_document-Gives d c (obj root) ref e same h = resolve-Gives d c root ref e same h
  in_document-Gives d c doc ref e same h = refl

  pub compile_ref-Gives :
      (d : ℕ) (c : SchemaConverter) (ref : Text)
      → Fits fuel d c
      → IsOk (Gives c) (compile_ref rec c ref)
  unfolding compile_ref
  compile_ref-Gives d c ref h =
      option-IsOk (Gives c) (lookup ref c.refs) (λ name. ok (name, c)) (in_document rec c c.doc ref)
        (λ name e. is_rule-Gives c name h.table (or_true _ _ (h.table.refs ref name e)))
        (λ e. in_document-Gives d c c.doc ref e refl h)
