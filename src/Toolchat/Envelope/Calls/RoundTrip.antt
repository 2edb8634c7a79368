-- ===== src/Toolchat/Envelope/Calls/RoundTrip.antt =====
-- toolchat/toolchat.go: arguments that were written, through normalizeArguments.
use go_llama_cpp.Base.{◌≡◌, refl, false, some, [], ◌∷◌, Text, ok, is_empty}
use go_llama_cpp.Strings.{trim_left, trim_right, trim_space}
use go_llama_cpp.Strings.Trim.{trim_space-append}
use go_llama_cpp.Json.{obj, Fields}
use go_llama_cpp.Json.Parse.{parse}
use go_llama_cpp.Toolchat.Envelope.Extract.Laws.{braced, brace-IsSolid}
use go_llama_cpp.Toolchat.Envelope.Decode.{ToolCallEnvelope, ResponseEnvelope, no_call}
use go_llama_cpp.Toolchat.Envelope.Calls.{
  from_document, parsed_arguments, trimmed_arguments, normalize_arguments, normalize_tool_calls,
  requested_calls, named_call, from_function, name_or_tool,
}

pub trim_space-braced : (mid : Text) → trim_space (braced mid) ≡ braced mid
unfolding trim_left trim_right
trim_space-braced mid = trim_space-append [] mid [] b'{' b'}' brace-IsSolid.0 brace-IsSolid.1

pub normalize_arguments-braced :
    (mid : Text) (fs : Fields)
    → parse (braced mid) ≡ some (obj fs)
    → normalize_arguments (braced mid) ≡ ok (braced mid)
unfolding normalize_arguments trimmed_arguments parsed_arguments from_document
normalize_arguments-braced mid fs h = rw (trim_space-braced mid, h) refl

abbrev pub one_call : Text → Text → ToolCallEnvelope
one_call name raw = record no_call { name = name; arguments = raw }

pub normalize_tool_calls-one :
    (env : ResponseEnvelope) (name raw written : Text)
    → env.tool_calls ≡ one_call name raw ∷ []
    → is_empty name ≡ false
    → normalize_arguments raw ≡ ok written
    → normalize_tool_calls env ≡ ok (one_call name written ∷ [])
unfolding normalize_tool_calls requested_calls named_call from_function name_or_tool
normalize_tool_calls-one env name raw written c h e = rw (c, h, e, h) refl
