-- ===== src/Toolchat/Grammar/Compile/Types.antt =====
-- toolchat/schema_grammar.go: the results of the converter, and the type assertions on a document.
use go_llama_cpp.Base.{Option, none, some, List, Text, text_eq, Result}
use go_llama_cpp.Json.{Json, str, arr, obj, Fields}
use go_llama_cpp.Toolchat.Grammar.Document.{item_list}
use go_llama_cpp.Toolchat.Grammar.Converter.{SchemaConverter}

pub data GrammarError : Type 0 where
  invalid_schema false_schema unsupported_schema many_schemas type_item empty_types bad_type :
      GrammarError
  unsupported_type unresolvable unsupported_ref : Text → GrammarError
  empty_enum empty_alternatives : GrammarError
  out_of_fuel : GrammarError

-- A rule name and the converter after it.
abbrev pub Compiled : Type 0
Compiled = Result GrammarError (Text × SchemaConverter)

abbrev pub Compile : Type 0
Compile = SchemaConverter → Json → Text → Compiled

-- `n[key].(string)`, `n[key].([]any)`, `n[key].(map[string]any)`
abbrev pub as_string : Option Json → Option Text
as_string (some (str s)) = some s
as_string _ = none

abbrev pub as_list : Option Json → Option (List Json)
as_list (some (arr vs)) = some (item_list vs)
as_list _ = none

abbrev pub as_object : Option Json → Option Fields
as_object (some (obj fs)) = some fs
as_object _ = none
