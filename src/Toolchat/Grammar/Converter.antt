-- ===== src/Toolchat/Grammar/Converter.antt =====
-- toolchat/schema_grammar.go: schemaConverter, its rules and how names are reserved.
pub mod Fresh
use go_llama_cpp.Base.{
  ℕ, zero, suc, ◌+◌, Bool, true, false, ◌||◌, Option, none, some, List, [], ◌∷◌, ◌++◌, Text, length,
  lookup, insert, text_eq,
}
use go_llama_cpp.Strings.{codes, itoa}
use go_llama_cpp.Json.{Json, null}
use go_llama_cpp.Toolchat.Grammar.Lexical.{member, grammar_builtin_names}

pub record SchemaConverter : Type 0 where
  pub doc : Json
  pub prefix : Text
  pub rules : List (Text × Text)
  pub order : List Text
  pub refs : List (Text × Text)

-- `newSchemaConverter`
unfoldable pub new_schema_converter : Text → SchemaConverter
new_schema_converter prefix = record {
  doc = null;
  prefix = prefix;
  rules = [];
  order = [];
  refs = [];
}

abbrev pub has_rule : Option Text → Bool
has_rule none = false
has_rule (some body) = true

-- A name that the loop of `reserve` passes over.
unfoldable pub is_taken : SchemaConverter → Text → Bool
is_taken c name = has_rule (lookup name c.rules) || member name grammar_builtin_names

-- The candidates: the base, then the base with a number.
abbrev candidate : Text → ℕ → Text
candidate base i = base ++ (b'-' ∷ itoa i)

-- The loop, with `i` and the fuel; `name` is the current candidate.
free_name : ℕ → SchemaConverter → Text → ℕ → Text → Text
free_name zero c base i name = name
free_name (suc fuel) c base i name = elim (is_taken c name) [
  | true ↦ free_name fuel c base (suc i) (candidate base i)
  | false ↦ name
]

-- One more round than there are names to pass over.
abbrev name_fuel : SchemaConverter → ℕ
name_fuel c = length c.rules + 14

unfoldable pub reserve : SchemaConverter → Text → Text × SchemaConverter
unfolding free_name is_taken
reserve c base =
    let name = free_name (name_fuel c) c base 2 base in
    (name, record c { rules = insert name [] c.rules; order = c.order ++ name ∷ [] })

unfoldable pub set_rule : SchemaConverter → Text → Text → SchemaConverter
set_rule c name body = record c { rules = insert name body c.rules }

unfoldable pub define : SchemaConverter → Text → Text → Text × SchemaConverter
unfolding reserve set_rule
define c base body = let (name, c') = reserve c base in (name, set_rule c' name body)

abbrev body_or_empty : Option Text → Text
body_or_empty none = []
body_or_empty (some body) = body

rules_in_order : List (Text × Text) → List Text → Text
rules_in_order rules [] = []
rules_in_order rules (name ∷ names) =
    name
    ++ (codes " ::= " ++ (body_or_empty (lookup name rules) ++ 10 ∷ rules_in_order rules names))

unfoldable pub rules_text : SchemaConverter → Text
unfolding rules_in_order
rules_text c = rules_in_order c.rules c.order
