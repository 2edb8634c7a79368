-- ===== src/Toolchat/Tools.antt =====
-- toolchat/toolchat.go: normalizeTools.
pub mod Laws
use go_llama_cpp.Base.{
  Bool, true, false, ◌&&◌, ◌||◌, not, Option, none, some, List, [], ◌∷◌, if◌then◌else◌, Text,
  Result, ok, err, ◌>>=◌, ◌>>◌, check, is_empty, lookup, insert, text_eq, sort_by,
}
use go_llama_cpp.Strings.{codes}
use go_llama_cpp.Json.Parse.{valid}
use go_llama_cpp.Toolchat.Types.{
  ToolChoice, is_never, is_required, Error, needs_tool, duplicate_name, invalid_schema, needs_call,
  Tool,
}
use go_llama_cpp.Toolchat.Names.{validate_tool_name}

abbrev default_schema : Text
default_schema = codes "{\"type\":\"object\",\"additionalProperties\":true}"

-- A tool without a schema takes any object.
pub with_schema : Tool → Tool
with_schema t = if is_empty t.schema then record t { schema = default_schema } else t

abbrev when : Bool → Error → Option Error
when b e = if b then some e else none

abbrev is_taken : Option Tool → Bool
is_taken none = false
is_taken (some t) = true

abbrev lacks_call : Tool → Bool
lacks_call t = elim t.call [ none ↦ true | some f ↦ false ]

module _ (choice : ToolChoice) (require_call : Bool) where
  -- One round of the loop, up to the write into the map.
  check_tool : List (Text × Tool) → Tool → Result Error Tool
  check_tool seen t = do
    check (validate_tool_name t.name)
    check (when (is_taken (lookup t.name seen)) (duplicate_name t.name))
    check (when (not (is_empty t.schema) && not (valid t.schema)) (invalid_schema t.name))
    check (when (require_call && (not (is_never choice) && lacks_call t)) (needs_call t.name))
    ok (with_schema t)

  -- The loop: the tools in their order, and the map by name.
  collect : List (Text × Tool) → List Tool → Result Error (List Tool × List (Text × Tool))
  collect seen [] = ok ([], seen)
  collect seen (t ∷ ts) = do
    t' ← check_tool seen t
    rest ← collect (insert t.name t' seen) ts
    ok (t' ∷ rest.0, rest.1)

abbrev pub by_name : Tool → Text
by_name t = t.name

unfoldable pub normalize_tools :
    List Tool → ToolChoice → Bool → Result Error (List Tool × List (Text × Tool))
unfolding collect check_tool with_schema validate_tool_name
normalize_tools tools choice require_call =
    if is_required choice && is_empty tools
    then err needs_tool
    else (do r ← collect choice require_call [] tools; ok (sort_by by_name r.0, r.1))
