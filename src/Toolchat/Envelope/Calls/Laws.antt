-- ===== src/Toolchat/Envelope/Calls/Laws.antt =====
-- toolchat/toolchat.go: properties of normalizeToolCalls and normalizeArguments.
use go_llama_cpp.Base.{
  ok_inj, ℕ, suc, ◌≡◌, ◌≢◌, refl, inl, inr, true, false, Option, none, some, List, [], ◌∷◌, arith,
  Text, All, is_empty, ok, ap, subst, Result-cases, >>=-eq-ok, Bool-cases,
}
use go_llama_cpp.Strings.{trim_space}
use go_llama_cpp.Json.{Json, str}
use go_llama_cpp.Json.Parse.{parse, valid, valid_of_parse}
use go_llama_cpp.Toolchat.Envelope.Decode.{ToolCallEnvelope, ResponseEnvelope}
use go_llama_cpp.Toolchat.Envelope.Calls.{
  empty_object, unquoted, from_document, parsed_arguments, trimmed_arguments, normalize_arguments,
  named_call, normalize_call, normalize_calls_from, requested_calls, normalize_tool_calls,
}

empty_object-valid : valid empty_object ≡ true
unfolding valid parse
empty_object-valid = refl

unquoted-valid : (s : Text) {a : Text} → unquoted s ≡ ok a → valid a ≡ true
unfolding unquoted
unquoted-valid s h = ground (arith, empty_object-valid)

from_document-valid :
    (raw : Text) (v : Json) {a : Text}
    → valid raw ≡ true
    → from_document raw v ≡ ok a
    → valid a ≡ true
unfolding from_document
from_document-valid raw (str t) e h = unquoted-valid _ h
from_document-valid raw _ e h = ground arith

parsed_arguments-valid :
    (raw : Text) (d : Option Json) {a : Text}
    → parse raw ≡ d
    → parsed_arguments raw d ≡ ok a
    → valid a ≡ true
unfolding parsed_arguments
parsed_arguments-valid raw none e h = cc
parsed_arguments-valid raw (some v) e h = from_document-valid raw v (valid_of_parse raw v e) h

trimmed_arguments-valid : (raw : Text) {a : Text} → trimmed_arguments raw ≡ ok a → valid a ≡ true
unfolding trimmed_arguments
trimmed_arguments-valid raw {a} h =
    ground (arith, empty_object-valid, parsed_arguments-valid raw (parse raw) {a = a} refl)

-- Whatever the model wrote, arguments that are accepted are valid JSON.
pub normalize_arguments-valid :
    (raw : Text) {a : Text} → normalize_arguments raw ≡ ok a → valid a ≡ true
unfolding normalize_arguments
normalize_arguments-valid raw h = trimmed_arguments-valid (trim_space raw) h

-- A call that can be executed: a name, and arguments that are JSON.
pub record IsWellFormed (c : ToolCallEnvelope) : Type 0 where
  pub named : c.name ≢ []
  pub json : valid c.arguments ≡ true

named_call-IsWellFormed :
    (i : ℕ) (c : ToolCallEnvelope) {c' : ToolCallEnvelope}
    → named_call i c ≡ ok c'
    → IsWellFormed c'
unfolding named_call
named_call-IsWellFormed i c h = elim (Result-cases (normalize_arguments c.arguments)) [
  | inl (e, failed) ↦ ground arith
  | inr (args, done) ↦ ground (arith, normalize_arguments-valid c.arguments done)
]

normalize_calls_from-IsWellFormed :
    (i : ℕ) (cs : List ToolCallEnvelope) {cs' : List ToolCallEnvelope}
    → normalize_calls_from i cs ≡ ok cs'
    → All IsWellFormed cs' × (is_empty cs' ≡ is_empty cs)
unfolding normalize_calls_from normalize_call
normalize_calls_from-IsWellFormed i [] h = ground arith
normalize_calls_from-IsWellFormed i (c ∷ cs) h =
    let (c', here, h') = >>=-eq-ok (normalize_call i c) _ h in
    let (rest, there, same) = >>=-eq-ok (normalize_calls_from (suc i) cs) _ h' in
    let (wells, _) = normalize_calls_from-IsWellFormed (suc i) cs there in
    subst (λ l. All IsWellFormed l × (is_empty l ≡ false)) (ok_inj same)
      ((named_call-IsWellFormed i _ here, wells), refl)

-- The calls that `normalizeToolCalls` returns are not none, and each has a name and arguments
-- that are valid JSON.
pub normalize_tool_calls-IsWellFormed :
    (env : ResponseEnvelope) {cs : List ToolCallEnvelope}
    → normalize_tool_calls env ≡ ok cs
    → All IsWellFormed cs × (cs ≢ [])
unfolding normalize_tool_calls
normalize_tool_calls-IsWellFormed env {cs} h = elim (Bool-cases (is_empty (requested_calls env))) [
  | inl bare ↦ cc (rw (bare, normalize_tool_calls) at h)
  | inr some_calls ↦
      let (wells, same) =
        normalize_calls_from-IsWellFormed 0 (requested_calls env)
          (rw (some_calls, normalize_tool_calls) at h) in
      (wells, λ e. cc (ap is_empty e))
]
