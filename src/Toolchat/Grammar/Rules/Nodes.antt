-- ===== src/Toolchat/Grammar/Rules/Nodes.antt =====
-- toolchat/schema_grammar.go: the parts of compileNode, each of which extends the rule table.
use go_llama_cpp.Base.{
  ℕ, suc, ◌≤◌, ◌≡◌, inl, inr, Option-cases, sort_by-All, refl, Bool, true, false, Option, none,
  some, List, [], ◌∷◌, ◌++◌, if◌then◌else◌, Text, is_empty, text_eq, ok, ◌>>=◌, sort_by,
}
use go_llama_cpp.Strings.{codes, itoa}
use go_llama_cpp.Json.{Json, null, bool, Fields}
use go_llama_cpp.Toolchat.Grammar.Lexical.{Runtime, member, sanitize_rule_name}
use go_llama_cpp.Toolchat.Grammar.Document.{get}
use go_llama_cpp.Toolchat.Grammar.Fuel.{depth, fields_depth}
use go_llama_cpp.Toolchat.Grammar.Fuel.Bounds.{IsWithin, AreWithin, get-le, as_object-AreWithin}
use go_llama_cpp.Toolchat.Grammar.Bodies.{array_body, required_of, object_body}
use go_llama_cpp.Toolchat.Grammar.Converter.{SchemaConverter, define}
use go_llama_cpp.Toolchat.Grammar.Compile.Types.{Compile, as_list, as_object}
use go_llama_cpp.Toolchat.Grammar.Compile.Literals.{
  compile_literals, alternatives, compile_alternatives,
}
use go_llama_cpp.Toolchat.Grammar.Compile.Objects.{
  min_items_positive, compile_items, compile_array, compile_properties, empty_properties,
  declared_properties, allows_extra, compile_object, property_entries,
}
use go_llama_cpp.Toolchat.Grammar.Rules.{
  IsTable, Fits, Fits-le, Extends-Fits, Extends, Extends-refl, Extends-trans, Gives, Extends-Gives,
  built_in, define-Gives, IsOk, >>=-IsOk, if-IsOk,
}

-- A part that extends the table that it is given.
abbrev pub IsSound : ℕ → Compile → Type 0
IsSound fuel f =
    (c : SchemaConverter) (v : Json) (base : Text)
    → Fits fuel (depth v) c
    → IsOk (Gives c) (f c v base)

-- The same of a part that returns a list of names.
abbrev pub GivesMany {ℓ} : {A : Type ℓ} → SchemaConverter → A × SchemaConverter → Type 0
GivesMany c (names, c') = Extends c c'

module _ (go : Runtime) (rec : Compile) {fuel : ℕ} (sound : IsSound fuel rec) where
  pub compile_literals-Gives :
      (c : SchemaConverter) (vs : List Json) (base : Text)
      → IsTable c
      → IsOk (Gives c) (compile_literals go c vs base)
  unfolding compile_literals
  compile_literals-Gives c vs base h =
      if-IsOk (Gives c) (is_empty vs) _ _ refl (define-Gives c base _ h)

  alternatives-Extends :
      (d : ℕ) (c : SchemaConverter) (i : ℕ) (vs : List Json) (base : Text)
      → IsWithin d vs
      → Fits fuel d c
      → IsOk (λ r. Extends c r.1) (alternatives rec c i vs base)
  unfolding alternatives
  alternatives-Extends d c i [] base w h = Extends-refl c h.table
  alternatives-Extends d c i (v ∷ vs) base w h =
      >>=-IsOk (Gives c) (λ r. Extends c r.1) (rec c v (base ++ (codes "-alt-" ++ itoa i))) _
        (sound c v (base ++ (codes "-alt-" ++ itoa i)) (Fits-le fuel d (depth v) c h w.0))
        λ r first.
          >>=-IsOk (λ s. Extends r.1 s.1) (λ s. Extends c s.1)
            (alternatives rec r.1 (suc i) vs base) _
            (alternatives-Extends d r.1 (suc i) vs base w.1 (Extends-Fits fuel d c r.1 h first.0))
            λ s rest. Extends-trans c r.1 s.1 first.0 rest

  pub compile_alternatives-Gives :
      (d : ℕ) (c : SchemaConverter) (alts : List Json) (base : Text)
      → IsWithin d alts
      → Fits fuel d c
      → IsOk (Gives c) (compile_alternatives rec c alts base)
  unfolding compile_alternatives
  compile_alternatives-Gives d c alts base w h = if-IsOk (Gives c) (is_empty alts) _ _ refl (
      >>=-IsOk (λ r. Extends c r.1) (Gives c) (alternatives rec c 0 alts base) _
        (alternatives-Extends d c 0 alts base w h)
        λ r all. Extends-Gives c r.1 _ all (define-Gives r.1 base _ all.table))

  -- A recursive call, and a rule that is defined from its name.
  defined-Gives :
      (c : SchemaConverter) (v : Json) (inner base : Text) (body : Text × SchemaConverter → Text)
      → Fits fuel (depth v) c
      → IsOk (Gives c) (rec c v inner >>= λ r. ok (define r.1 base (body r)))
  defined-Gives c v inner base body h =
      >>=-IsOk (Gives c) (Gives c) (rec c v inner) _ (sound c v inner h) λ r first.
        Extends-Gives c r.1 (define r.1 base (body r)) first.0
          (define-Gives r.1 base (body r) first.0.table)

  compile_items-Gives :
      (c : SchemaConverter) (n : Fields) (items : Option Json) (base : Text)
      → ((v : Json) → items ≡ some v → depth v ≤ fields_depth n)
      → Fits fuel (fields_depth n) c
      → IsOk (Gives c) (compile_items go rec c n items base)
  unfolding compile_items
  compile_items-Gives c n none base w h = built_in c (codes "array") h.table refl
  compile_items-Gives c n (some null) base w h = built_in c (codes "array") h.table refl
  compile_items-Gives c n (some v) base w h =
      defined-Gives c v (base ++ codes "-item") base
        (λ r. array_body (min_items_positive go rec (get (codes "minItems") n)) r.0)
        (Fits-le fuel (fields_depth n) (depth v) c h (w v refl))

  pub compile_array-Gives :
      (c : SchemaConverter) (n : Fields) (base : Text)
      → Fits fuel (fields_depth n) c
      → IsOk (Gives c) (compile_array go rec c n base)
  unfolding compile_array
  compile_array-Gives c n base h =
      compile_items-Gives c n (get (codes "items") n) base (λ v e. get-le (codes "items") n e) h

  -- The converter of either of two triples that share it.
  either :
      (b : Bool) (P : SchemaConverter → Type 0) (x y : List Text × List Text × SchemaConverter)
      → P x.2
      → P y.2
      → P (if◌then◌else◌ {A = List Text × List Text × SchemaConverter} b x y).2
  either true P x y h k = h
  either false P x y h k = k

  compile_properties-Extends :
      (d : ℕ) (c : SchemaConverter) (props : List (Text × Json)) (required : List Text)
      (base : Text)
      → AreWithin d props
      → Fits fuel d c
      → IsOk (λ r. Extends c r.2) (compile_properties go rec c props required base)
  unfolding compile_properties
  compile_properties-Extends d c [] required base w h = Extends-refl c h.table
  compile_properties-Extends d c ((prop, v) ∷ props) required base w h =
      >>=-IsOk (Gives c) (λ r. Extends c r.2) (rec c v (base ++ (b'-' ∷ sanitize_rule_name prop))) _
        (sound c v (base ++ (b'-' ∷ sanitize_rule_name prop)) (Fits-le fuel d (depth v) c h w.0))
        λ sub first.
          >>=-IsOk (λ s. Extends sub.1 s.2) (λ s. Extends c s.2)
            (compile_properties go rec sub.1 props required base) _
            (compile_properties-Extends d sub.1 props required base w.1
              (Extends-Fits fuel d c sub.1 h first.0))
            λ rest more.
              let extended = Extends-trans c sub.1 rest.2 first.0 more in
              either (member prop required) (λ c'. Extends c c') _ _ extended extended

  empty_properties-Gives :
      (c : SchemaConverter) (ap : Option Json) (base : Text)
      → IsTable c
      → Gives c (empty_properties go rec c ap base)
  unfolding empty_properties
  empty_properties-Gives c (some (bool false)) base h = define-Gives c base _ h
  empty_properties-Gives c ap base h = built_in c (codes "object") h refl

  declared_properties-Gives :
      (d : ℕ) (c : SchemaConverter) (n : Fields) (props : List (Text × Json)) (base : Text)
      → AreWithin d props
      → Fits fuel d c
      → IsOk (Gives c) (declared_properties go rec c n props base)
  unfolding declared_properties
  declared_properties-Gives d c n props base w h =
      let sorted = sort_by (λ p. p.0) props in
      let required = required_of (as_list (get (codes "required") n)) in
      >>=-IsOk (λ r. Extends c r.2) (Gives c) (compile_properties go rec c sorted required base)
        (λ r. ok (define r.2 base (object_body r.0 r.1)))
        (compile_properties-Extends d c sorted required base
          (sort_by-All (λ p. p.0) (λ p. depth p.1 ≤ d) props w) h)
        λ r all.
          Extends-Gives c r.2 (define r.2 base (object_body r.0 r.1)) all
            (define-Gives r.2 base (object_body r.0 r.1) all.table)

  property_entries-AreWithin :
      (key : Text) (n : Fields)
      → AreWithin (fields_depth n) (property_entries go rec (as_object (get key n)))
  property_entries-AreWithin key n = elim (Option-cases (as_object (get key n))) [
    | inl e ↦ rw e tt
    | inr (fs, e) ↦ rw e (as_object-AreWithin key n e)
  ]

  pub compile_object-Gives :
      (c : SchemaConverter) (n : Fields) (base : Text)
      → Fits fuel (fields_depth n) c
      → IsOk (Gives c) (compile_object go rec c n base)
  unfolding compile_object
  compile_object-Gives c n base h =
      let props = property_entries go rec (as_object (get (codes "properties") n)) in
      let extra = get (codes "additionalProperties") n in
      if-IsOk (Gives c) (is_empty props) _ _ (empty_properties-Gives c extra base h.table) (
        if-IsOk (Gives c) (allows_extra go rec extra) _ _ (built_in c (codes "object") h.table refl)
          (declared_properties-Gives (fields_depth n) c n props base
            (property_entries-AreWithin (codes "properties") n) h))
