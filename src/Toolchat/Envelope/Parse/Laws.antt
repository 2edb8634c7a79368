-- ===== src/Toolchat/Envelope/Parse/Laws.antt =====
-- toolchat/toolchat.go: properties of parseEnvelope.
use go_llama_cpp.Base.{
  ok_inj, ◌≡◌, ◌≢◌, ◌⊎◌, inl, inr, subst, [], Text, text_beq, text_beq_iff, All, ok, >>=-eq-ok,
  Bool-cases,
}
use go_llama_cpp.Toolchat.Envelope.Extract.{extract_json_object}
use go_llama_cpp.Toolchat.Envelope.Decode.{ResponseEnvelope}
use go_llama_cpp.Toolchat.Envelope.Calls.{normalize_tool_calls}
use go_llama_cpp.Toolchat.Envelope.Calls.Laws.{IsWellFormed, normalize_tool_calls-IsWellFormed}
use go_llama_cpp.Toolchat.Envelope.Parse.{
  final_type, tool_call_type, unmarshal, inferred_type, typed, parse_envelope,
}

-- The two envelopes of the protocol.
abbrev pub IsProtocol : ResponseEnvelope → Type 0
IsProtocol env =
    (env.type ≡ final_type)
    ⊎ ((env.type ≡ tool_call_type) × (All IsWellFormed env.tool_calls × (env.tool_calls ≢ [])))

typed-IsProtocol :
    (env : ResponseEnvelope) {out : ResponseEnvelope} → typed env ≡ ok out → IsProtocol out
unfolding typed
typed-IsProtocol env h = elim (Bool-cases (text_beq env.type final_type)) [
  | inl final ↦
      subst IsProtocol (ok_inj (rw (final, typed) at h))
        (inl ((text_beq_iff env.type final_type).0 final))
  | inr other ↦ elim (Bool-cases (text_beq env.type tool_call_type)) [
    | inl call ↦
        let (cs, normalized, same) =
          >>=-eq-ok (normalize_tool_calls env) _ (rw (other, call, typed) at h) in
        subst IsProtocol (ok_inj same) (
          inr (
            (text_beq_iff env.type tool_call_type).0 call,
            normalize_tool_calls-IsWellFormed env normalized,
          ))
    | inr unknown ↦ cc (rw (other, unknown, typed) at h)
  ]
]

-- Every envelope that is accepted is a final answer, or asks for at least one tool, each by a
-- name and with arguments that are valid JSON.
pub parse_envelope-IsProtocol :
    (raw : Text) {env : ResponseEnvelope} → parse_envelope raw ≡ ok env → IsProtocol env
unfolding parse_envelope
parse_envelope-IsProtocol raw h =
    let (body, _, h') = >>=-eq-ok (extract_json_object raw) _ h in
    let (e, _, done) = >>=-eq-ok (unmarshal body) _ h' in
    typed-IsProtocol (record e { type = inferred_type e }) done
