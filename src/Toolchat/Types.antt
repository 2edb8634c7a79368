-- ===== src/Toolchat/Types.antt =====
-- toolchat/toolchat.go: the data that the package passes around, and its errors.
use go_llama_cpp.Base.{ℕ, Bool, true, false, Option, Text, Result}

-- A `ToolChoice` is a string: `unset` is the empty one, `other` any that is not a constant.
pub data ToolChoice : Type 0 where
  unset auto required never : ToolChoice
  other : Text → ToolChoice

-- The constants.
abbrev pub is_choice : ToolChoice → Bool
is_choice auto = true
is_choice required = true
is_choice never = true
is_choice _ = false

abbrev pub is_never : ToolChoice → Bool
is_never never = true
is_never _ = false

abbrev pub is_required : ToolChoice → Bool
is_required required = true
is_required _ = false

abbrev pub is_auto : ToolChoice → Bool
is_auto auto = true
is_auto _ = false

-- The default for an empty choice.
abbrev pub choice_or_auto : ToolChoice → ToolChoice
choice_or_auto unset = auto
choice_or_auto c = c

-- The errors that the package makes, with what their messages show; `nil_call` stands for the panic
-- of calling a function that is nil.
pub data Error : Type 0 where
  no_model : Error
  unsupported_choice : ToolChoice → Error
  needs_tool : Error
  empty_name : Error
  bad_character : Text → ℕ → Error
  leading_digit : Text → Error
  duplicate_name : Text → Error
  invalid_schema : Text → Error
  needs_call : Text → Error
  no_json_object : Error
  bad_json : Error
  bad_type : Error
  no_tool_call : Error
  missing_name : ℕ → Error
  invalid_json : Error
  string_without_json : Error
  arguments : Text → Error → Error
  no_tool_calls : Error
  unknown_tool : Text → Error
  invalid_arguments : Text → Error
  tool_failed : Text → Text → Error
  marshal_failed : Text → Text → Error
  cancelled : Text → Error
  template_failed : Text → Error
  predict_failed : Text → Error
  parse_failed : Error → Error
  choice_is_never : Error
  unsupported_type : Text → Error
  max_turns_reached : ℕ → Error
  nil_call : Text → Error

pub record ToolCall : Type 0 where
  pub id : Text
  pub name : Text
  pub arguments : Text

pub record ToolResult : Type 0 where
  pub call : ToolCall
  pub content : Text
  pub error : Text

-- The `any` that a tool returns: the cases that `marshalToolOutput` tells apart. `other` carries
-- what `json.Marshal` makes of any further value.
pub data Value : Type 0 where
  nothing : Value
  raw_message bytes : Text → Value
  other : Result Text Text → Value

-- A tool; `call` names its function, if it has one: what a function does is the world's affair.
pub record Tool : Type 0 where
  pub name : Text
  pub description : Text
  pub schema : Text
  pub call : Option ℕ
