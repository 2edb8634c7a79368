-- ===== src/Toolchat/Grammar/Fuel.antt =====
-- toolchat/schema_grammar.go: how many calls of compileNode stand within each other.
pub mod Bounds
use go_llama_cpp.Base.{
  ℕ, zero, suc, ◌+◌, ◌*◌, List, [], ◌∷◌, ◌++◌, Text, Option, none, some, if◌then◌else◌, ltb,
  text_eq, lookup,
}
use go_llama_cpp.Strings.{codes}
use go_llama_cpp.Json.{Json, null, bool, num, str, arr, obj, Items, nil, cons, Fields, end, field}
use go_llama_cpp.Toolchat.Grammar.Document.{get}

abbrev pub max : ℕ → ℕ → ℕ
max m n = if ltb m n then n else m

-- How deep a document nests.
unfoldable mutual
  pub depth : Json → ℕ
  depth (arr vs) = suc (items_depth vs)
  depth (obj fs) = suc (fields_depth fs)
  depth v = 0

  pub items_depth : Items → ℕ
  items_depth nil = 0
  items_depth (cons v vs) = max (depth v) (items_depth vs)

  pub fields_depth : Fields → ℕ
  fields_depth end = 0
  fields_depth (field key raw v fs) = max (depth v) (fields_depth fs)

-- The references that a section of the document answers.
unfoldable pub section_refs : Text → Fields → List Text
section_refs prefix end = []
section_refs prefix (field key raw v fs) = (prefix ++ key) ∷ section_refs prefix fs

abbrev pub section_of : Text → Option Json → List Text
section_of prefix (some (obj fs)) = section_refs prefix fs
section_of prefix _ = []

unfoldable pub targets : Json → List Text
unfolding section_refs get
targets (obj root) =
    section_of (codes "#/$defs/") (get (codes "$defs") root)
    ++ section_of (codes "#/definitions/") (get (codes "definitions") root)
targets doc = []

-- How many references are not followed yet.
unfoldable pub unfollowed : List (Text × Text) → List Text → ℕ
unfolding lookup
unfollowed refs [] = 0
unfollowed refs (t ∷ ts) = elim (lookup t refs) [
  | none ↦ suc (unfollowed refs ts)
  | some name ↦ unfollowed refs ts
]

-- Nodes stand within each other as deep as the document, and once more for each reference.
unfoldable pub room : Json → List (Text × Text) → Json → ℕ
unfolding depth targets unfollowed
room doc refs v = depth v + unfollowed refs (targets doc) * suc (depth doc)

unfoldable pub compile_fuel : Json → ℕ
unfolding room
compile_fuel doc = suc (room doc [] doc)
