-- ===== src/Llama/Info.antt =====
-- llama.go: ModelInfo and how `json.Unmarshal` fills it, MediaMarker and BuiltinChatTemplates.
use go_llama_cpp.Base.{
  ℕ, zero, suc, ◌+◌, ◌-◌, ◌*◌, ◌^◌, ℤ, pos, negsuc, Bool, false, ◌&&◌, Option, none, some, List, [],
  ◌∷◌, leb, ltb, nat_beq, if◌then◌else◌, Text, Result, ok, err, insert, text_eq, is_zero,
}
use go_llama_cpp.Strings.{codes}
use go_llama_cpp.Json.{Json, null, bool, num, str, arr, obj, Items, nil, cons, Fields, end, field}
use go_llama_cpp.Json.Keys.{is_key, text_field}
use go_llama_cpp.Json.Parse.{parse}
use go_llama_cpp.Llama.Native.{Native}
use go_llama_cpp.Llama.System.{Go, ◌>>=◌, return, receive, Block}
use go_llama_cpp.Llama.Predict.{LLama}
use go_llama_cpp.Llama.Tokens.{replied, string_of}

-- The metadata by key, as the last member of a key says.
pub record ModelInfo : Type 0 where
  pub description : Text
  pub size : ℕ
  pub parameters : ℕ
  pub ftype : ℤ
  pub ftype_name : Text
  pub context_train : ℤ
  pub embedding_length : ℤ
  pub embedding_input_length : ℤ
  pub embedding_output_length : ℤ
  pub layers : ℤ
  pub heads : ℤ
  pub heads_kv : ℤ
  pub vocab_size : ℤ
  pub rope_type : ℤ
  pub has_encoder : Bool
  pub has_decoder : Bool
  pub is_recurrent : Bool
  pub is_hybrid : Bool
  pub is_diffusion : Bool
  pub chat_template : Text
  pub metadata : List (Text × Text)

abbrev pub no_info : ModelInfo
no_info = record {
  description = [];
  size = 0;
  parameters = 0;
  ftype = pos 0;
  ftype_name = [];
  context_train = pos 0;
  embedding_length = pos 0;
  embedding_input_length = pos 0;
  embedding_output_length = pos 0;
  layers = pos 0;
  heads = pos 0;
  heads_kv = pos 0;
  vocab_size = pos 0;
  rope_type = pos 0;
  has_encoder = false;
  has_decoder = false;
  is_recurrent = false;
  is_hybrid = false;
  is_diffusion = false;
  chat_template = [];
  metadata = [];
}

-- The digits of a literal behind the value `n` of those before; a fraction or an exponent is none.
digits : ℕ → Text → Option ℕ
digits n [] = some n
digits n (c ∷ s) =
    let rest = digits (n * 10 + (c - b'0')) s in if leb b'0' c && leb c b'9' then rest else none

abbrev below : ℕ → Option ℕ → Option ℕ
below bound none = none
below bound (some n) = if ltb n bound then some n else none

-- A literal in a field of type uint64, and in one of type int, which has 64 bits.
unfoldable pub uint_literal : Text → Option ℕ
unfolding digits
uint_literal s = below (2 ^ 64) (digits 0 s)

abbrev negated : Option ℕ → Option ℤ
negated none = none
negated (some zero) = some (pos 0)
negated (some (suc n)) = some (negsuc n)

abbrev positive : Option ℕ → Option ℤ
positive none = none
positive (some n) = some (pos n)

unfoldable pub int_literal : Text → Option ℤ
unfolding digits
int_literal [] = none
int_literal (c ∷ s) =
    if nat_beq c b'-'
    then negated (below (2 ^ 63 + 1) (digits 0 s))
    else positive (below (2 ^ 63) (digits 0 (c ∷ s)))

-- What a member does to a struct: `none` is a value of another type.
abbrev Setter : Type 0
Setter = ModelInfo → Json → Option ModelInfo

abbrev texts : (ModelInfo → Text → ModelInfo) → (ModelInfo → Text) → Setter
texts set old info v = text_field (set info) (old info) v

uints : (ModelInfo → ℕ → ModelInfo) → Setter
unfolding uint_literal
uints set info null = some info
uints set info (num s) = elim (uint_literal s) [ none ↦ none | some n ↦ some (set info n) ]
uints set info v = none

ints : (ModelInfo → ℤ → ModelInfo) → Setter
unfolding int_literal
ints set info null = some info
ints set info (num s) = elim (int_literal s) [ none ↦ none | some n ↦ some (set info n) ]
ints set info v = none

bools : (ModelInfo → Bool → ModelInfo) → Setter
bools set info null = some info
bools set info (bool b) = some (set info b)
bools set info v = none

-- The members of a map; a `null` is the empty string.
fill_map : List (Text × Text) → Fields → Option (List (Text × Text))
unfolding insert
fill_map m end = some m
fill_map m (field k raw (str t) fs) = fill_map (insert k t m) fs
fill_map m (field k raw null fs) = fill_map (insert k [] m) fs
fill_map m (field k raw v fs) = none

-- A `null` sets the map to nil; a later object adds to the map of an earlier one.
metadata_field : Setter
unfolding fill_map
metadata_field info null = some (record info { metadata = [] })
metadata_field info (obj fs) = elim (fill_map info.metadata fs) [
  | none ↦ none
  | some m ↦ some (record info { metadata = m })
]
metadata_field info v = none

-- The fields by the names of their tags.
info_fields : List (Text × Setter)
unfolding uints ints bools metadata_field
info_fields =
    (codes "description", texts (λ i t. record i { description = t }) (λ i. i.description))
    ∷ (codes "size", uints (λ i n. record i { size = n }))
    ∷ (codes "parameters", uints (λ i n. record i { parameters = n }))
    ∷ (codes "ftype", ints (λ i n. record i { ftype = n }))
    ∷ (codes "ftype_name", texts (λ i t. record i { ftype_name = t }) (λ i. i.ftype_name))
    ∷ (codes "context_train", ints (λ i n. record i { context_train = n }))
    ∷ (codes "embedding_length", ints (λ i n. record i { embedding_length = n }))
    ∷ (codes "embedding_input_length", ints (λ i n. record i { embedding_input_length = n }))
    ∷ (codes "embedding_output_length", ints (λ i n. record i { embedding_output_length = n }))
    ∷ (codes "layers", ints (λ i n. record i { layers = n }))
    ∷ (codes "heads", ints (λ i n. record i { heads = n }))
    ∷ (codes "heads_kv", ints (λ i n. record i { heads_kv = n }))
    ∷ (codes "vocab_size", ints (λ i n. record i { vocab_size = n }))
    ∷ (codes "rope_type", ints (λ i n. record i { rope_type = n }))
    ∷ (codes "has_encoder", bools (λ i b. record i { has_encoder = b }))
    ∷ (codes "has_decoder", bools (λ i b. record i { has_decoder = b }))
    ∷ (codes "is_recurrent", bools (λ i b. record i { is_recurrent = b }))
    ∷ (codes "is_hybrid", bools (λ i b. record i { is_hybrid = b }))
    ∷ (codes "is_diffusion", bools (λ i b. record i { is_diffusion = b }))
    ∷ (codes "chat_template", texts (λ i t. record i { chat_template = t }) (λ i. i.chat_template))
    ∷ (codes "metadata", metadata_field)
    ∷ []

-- A key of no field is skipped.
set_info : List (Text × Setter) → ModelInfo → Text → Json → Option ModelInfo
unfolding is_key
set_info [] info key v = some info
set_info ((name, set) ∷ rest) info key v =
    if is_key name key then set info v else set_info rest info key v

decode_info_fields : ModelInfo → Fields → Option ModelInfo
unfolding set_info info_fields
decode_info_fields info end = some info
decode_info_fields info (field k raw v fs) = elim (set_info info_fields info k v) [
  | none ↦ none
  | some info' ↦ decode_info_fields info' fs
]

unfoldable pub decode_info : Json → Option ModelInfo
unfolding decode_info_fields
decode_info null = some no_info
decode_info (obj fs) = decode_info_fields no_info fs
decode_info v = none

-- `[]string`; a `null` item is the empty string.
decode_names : Items → Option (List Text)
decode_names nil = some []
decode_names (cons (str t) vs) = elim (decode_names vs) [ none ↦ none | some ts ↦ some (t ∷ ts) ]
decode_names (cons null vs) = elim (decode_names vs) [ none ↦ none | some ts ↦ some ([] ∷ ts) ]
decode_names (cons v vs) = none

unfoldable pub decode_templates : Json → Option (List Text)
unfolding decode_names
decode_templates null = some []
decode_templates (arr vs) = decode_names vs
decode_templates v = none

-- `json.Unmarshal` of a text, with the error that it has on that text.
unfoldable pub unmarshal {ℓ} :
    {A : Type ℓ} → (Text → Text) → (Json → Option A) → Text → Result Text A
unfolding parse
unmarshal json_error decode text = elim (parse text) [
  | none ↦ err (json_error text)
  | some v ↦ elim (decode v) [ none ↦ err (json_error text) | some a ↦ ok a ]
]

module _ {N : Type 0} (json_error : Text → Text) (c : Native N) where
  unfoldable pub media_marker : Text
  media_marker = c.media_marker

  -- The string of a reply is decoded and freed.
  unfoldable pub decoded_reply {ℓ} :
      {A : Type ℓ} → (Json → Option A) → Result Text Text → Result Text A
  unfolding unmarshal
  decoded_reply decode (err e) = err e
  decoded_reply decode (ok text) = unmarshal json_error decode text

  unfoldable pub model_info : LLama → Go N (Result Text ModelInfo)
  unfolding receive string_of decoded_reply decode_info
  model_info l = if nat_beq l.state 0 then return (err (codes "model is not loaded")) else (do
    reply ← replied c (c.model_info_json l.state)
    result ← string_of c (codes "model info") reply
    return (decoded_reply decode_info result))

  -- The two errors of the call are worded apart.
  unfoldable pub templates_of : ℤ × Option Block → Go N (Result Text Text)
  unfolding string_of
  templates_of (ret, out) =
      if is_zero ret
      then string_of c (codes "builtin chat templates") (ret, out)
      else return (err (codes "failed to load builtin chat templates"))

  unfoldable pub builtin_chat_templates : Go N (Result Text (List Text))
  unfolding receive templates_of decoded_reply decode_templates
  builtin_chat_templates = do
    reply ← replied c c.builtin_chat_templates_json
    result ← templates_of reply
    return (decoded_reply decode_templates result)
