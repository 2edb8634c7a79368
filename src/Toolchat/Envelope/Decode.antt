-- ===== src/Toolchat/Envelope/Decode.antt =====
-- toolchat/toolchat.go: responseEnvelope, toolCallEnvelope and functionCallEnvelope, and how
-- `json.Unmarshal` fills them. A JSON `null` leaves a field as it is; a key matches a field's name
-- without regard to case, and a value of another type is an error. Of a repeated key "tool_calls"
-- the later list is written over the earlier one, item by item, as Go does within its length.
use go_llama_cpp.Base.{Option, none, some, List, [], ◌∷◌, if◌then◌else◌, Text}
use go_llama_cpp.Strings.{codes}
use go_llama_cpp.Json.Keys.{is_key, text_field}
use go_llama_cpp.Json.{Json, null, arr, obj, Items, nil, cons, Fields, end, field}

pub record FunctionCallEnvelope : Type 0 where
  pub name : Text
  pub arguments : Text

pub record ToolCallEnvelope : Type 0 where
  pub id : Text
  pub type : Text
  pub tool : Text
  pub name : Text
  pub arguments : Text
  pub function : Option FunctionCallEnvelope

pub record ResponseEnvelope : Type 0 where
  pub type : Text
  pub content : Text
  pub tool : Text
  pub name : Text
  pub arguments : Text
  pub tool_calls : List ToolCallEnvelope

abbrev no_function : FunctionCallEnvelope
no_function = record { name = []; arguments = [] }

abbrev pub no_call : ToolCallEnvelope
no_call = record { id = []; type = []; tool = []; name = []; arguments = []; function = none }

abbrev no_response : ResponseEnvelope
no_response = record {
  type = [];
  content = [];
  tool = [];
  name = [];
  arguments = [];
  tool_calls = [];
}

set_function : FunctionCallEnvelope → Text → Text → Json → Option FunctionCallEnvelope
unfolding is_key
set_function e key raw v =
    if is_key (codes "name") key
    then text_field (λ t. record e { name = t }) e.name v
    else if is_key (codes "arguments") key
    then some (record e { arguments = raw })
    else some e

decode_function : FunctionCallEnvelope → Fields → Option FunctionCallEnvelope
unfolding set_function
decode_function e end = some e
decode_function e (field key raw v fs) = elim (set_function e key raw v) [
  | none ↦ none
  | some e' ↦ decode_function e' fs
]

abbrev function_or_new : Option FunctionCallEnvelope → FunctionCallEnvelope
function_or_new none = no_function
function_or_new (some e) = e

-- The pointer field: `null` sets nil, an object fills the value, allocating it if it is nil.
function_field : ToolCallEnvelope → Json → Option ToolCallEnvelope
unfolding decode_function
function_field c null = some (record c { function = none })
function_field c (obj fs) = elim (decode_function (function_or_new c.function) fs) [
  | none ↦ none
  | some e ↦ some (record c { function = some e })
]
function_field c _ = none

set_call : ToolCallEnvelope → Text → Text → Json → Option ToolCallEnvelope
unfolding is_key function_field
set_call c key raw v =
    if is_key (codes "id") key
    then text_field (λ t. record c { id = t }) c.id v
    else if is_key (codes "type") key
    then text_field (λ t. record c { type = t }) c.type v
    else if is_key (codes "tool") key
    then text_field (λ t. record c { tool = t }) c.tool v
    else if is_key (codes "name") key
    then text_field (λ t. record c { name = t }) c.name v
    else if is_key (codes "arguments") key
    then some (record c { arguments = raw })
    else if is_key (codes "function") key
    then function_field c v
    else some c

decode_call_fields : ToolCallEnvelope → Fields → Option ToolCallEnvelope
unfolding set_call
decode_call_fields c end = some c
decode_call_fields c (field key raw v fs) = elim (set_call c key raw v) [
  | none ↦ none
  | some c' ↦ decode_call_fields c' fs
]

decode_call : ToolCallEnvelope → Json → Option ToolCallEnvelope
unfolding decode_call_fields
decode_call c null = some c
decode_call c (obj fs) = decode_call_fields c fs
decode_call c _ = none

abbrev prepend {ℓ} : {A : Type ℓ} → Option A → Option (List A) → Option (List A)
prepend none rest = none
prepend (some a) none = none
prepend (some a) (some as') = some (a ∷ as')

abbrev head_or : ToolCallEnvelope → List ToolCallEnvelope → ToolCallEnvelope
head_or c [] = c
head_or c (x ∷ xs) = x

abbrev rest_of : List ToolCallEnvelope → List ToolCallEnvelope
rest_of [] = []
rest_of (x ∷ xs) = xs

decode_calls : List ToolCallEnvelope → Items → Option (List ToolCallEnvelope)
unfolding decode_call
decode_calls old nil = some []
decode_calls old (cons v vs) =
    prepend (decode_call (head_or no_call old) v) (decode_calls (rest_of old) vs)

calls_field : ResponseEnvelope → Json → Option ResponseEnvelope
unfolding decode_calls
calls_field e null = some (record e { tool_calls = [] })
calls_field e (arr vs) = elim (decode_calls e.tool_calls vs) [
  | none ↦ none
  | some cs ↦ some (record e { tool_calls = cs })
]
calls_field e _ = none

set_response : ResponseEnvelope → Text → Text → Json → Option ResponseEnvelope
unfolding is_key calls_field
set_response e key raw v =
    if is_key (codes "type") key
    then text_field (λ t. record e { type = t }) e.type v
    else if is_key (codes "content") key
    then text_field (λ t. record e { content = t }) e.content v
    else if is_key (codes "tool") key
    then text_field (λ t. record e { tool = t }) e.tool v
    else if is_key (codes "name") key
    then text_field (λ t. record e { name = t }) e.name v
    else if is_key (codes "arguments") key
    then some (record e { arguments = raw })
    else if is_key (codes "tool_calls") key
    then calls_field e v
    else some e

decode_response_fields : ResponseEnvelope → Fields → Option ResponseEnvelope
unfolding set_response
decode_response_fields e end = some e
decode_response_fields e (field key raw v fs) = elim (set_response e key raw v) [
  | none ↦ none
  | some e' ↦ decode_response_fields e' fs
]

-- `json.Unmarshal` of a parsed document into an empty responseEnvelope.
unfoldable pub decode_response : Json → Option ResponseEnvelope
unfolding decode_response_fields
decode_response null = some no_response
decode_response (obj fs) = decode_response_fields no_response fs
decode_response _ = none
