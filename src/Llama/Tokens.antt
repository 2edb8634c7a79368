-- ===== src/Llama/Tokens.antt =====
-- llama.go: ApplyChatTemplate, Detokenize and TokenizeString.
pub mod Laws
use go_llama_cpp.Base.{
  ℕ, ltb, ◌*◌, ℤ, pos, negsuc, is_zero, Bool, Option, none, some, List, [], ◌++◌, map, take, length,
  nat_beq, is_empty, if◌then◌else◌, Text, Result, ok, err,
}
use go_llama_cpp.Strings.{codes}
use go_llama_cpp.Options.Types.{Float32, PredictOption, PredictOptions}
use go_llama_cpp.Options.Predict.{new_predict_options}
use go_llama_cpp.Llama.Types.{ChatMessage}
use go_llama_cpp.Llama.Params.{c_string, itoa_ℤ}
use go_llama_cpp.Llama.Native.{Reply, Native}
use go_llama_cpp.Llama.System.{Go, ◌>>=◌, return, allocate_all, free, free_all, receive, Block}
use go_llama_cpp.Llama.Predict.{LLama, new_c_predict_params, free_params}

-- What TokenizeString returns; `panicked` is `make` with a length that it refuses.
pub data Tokenized : Type 0 where
  tokenized : ℤ → List ℤ → Tokenized
  refused : ℤ → Text → Tokenized
  panicked : Tokenized

-- `if po.Tokens == 0`
abbrev pub tokenize_options : PredictOptions → PredictOptions
tokenize_options po = if is_zero po.tokens then record po { tokens = pos 4096 } else po

module _ {N : Type 0} (c : Native N) where
  abbrev pub replied : (N → Reply × N) → Go N (ℤ × Option Block)
  unfolding receive
  replied f s =
      let r = f s.native in
      (do out ← receive r.0.out; return (r.0.ret, out)) (record s { native = r.1 })

  -- The string of a reply, which is freed; `what` names the call in an error.
  unfoldable pub string_of : Text → ℤ × Option Block → Go N (Result Text Text)
  unfolding free
  string_of what (ret, none) =
      if is_zero ret
      then return (err (what ++ codes " returned no output"))
      else return (err (what ++ codes " failed"))
  string_of what (ret, some (p, text)) =
      if is_zero ret
      then (do _ ← free p; return (ok text))
      else return (err (what ++ codes " failed"))

  abbrev pub c_message : ChatMessage → Text × Text
  unfolding c_string
  c_message m = (c_string m.role, c_string m.content)

  -- Each message is two C strings.
  unfoldable pub apply_chat_template : LLama → List ChatMessage → Bool → Go N (Result Text Text)
  unfolding allocate_all receive string_of free_all c_string
  apply_chat_template l messages add_generation_prompt =
      if nat_beq l.state 0
      then return (err (codes "model is not loaded"))
      else if is_empty messages
      then return (ok [])
      else (do
        cstrings ← allocate_all (2 * length messages)
        reply ←
            replied (c.apply_chat_template l.state (map c_message messages) add_generation_prompt)
        result ← string_of (codes "chat template formatting") reply
        _ ← free_all cstrings
        return result)

  unfoldable pub detokenize : LLama → List ℤ → Bool → Bool → Go N (Result Text Text)
  unfolding receive string_of
  detokenize l tokens remove_special unparse_special =
      if nat_beq l.state 0
      then return (err (codes "model is not loaded"))
      else if is_empty tokens
      then return (ok [])
      else (do
        reply ← replied (c.detokenize_tokens l.state tokens remove_special unparse_special)
        string_of (codes "detokenize") reply)

  -- The first `min(len(out), tokRet)` numbers of the buffer.
  unfoldable pub counted : ℤ → List ℤ → ℕ → Tokenized
  counted (negsuc n) out size =
      refused (negsuc n)
        (codes "llama_tokenize_string returned negative count " ++ itoa_ℤ (negsuc n))
  counted (pos n) out size = tokenized (pos n) (take n (take size out))

module _ {N : Type 0} (format_float : Float32 → Text) (c : Native N) where
  unfoldable pub tokenize_with : LLama → Text → PredictOptions → ℕ → Go N Tokenized
  unfolding new_c_predict_params free_params counted
  tokenize_with l text po size = do
    params ← new_c_predict_params format_float text po
    reply ← (λ s.
        let r = c.tokenize_string params.args l.state s.native in (r.0, record s { native = r.1 }))
    _ ← free_params params
    return (counted c reply.0 reply.1 size)

  -- The buffer has room for `po.Tokens` numbers. `make` panics for a negative length and for one
  -- beyond what a slice of C ints may have, which is `longest` here.
  unfoldable pub tokenize_string : ℕ → LLama → Text → List PredictOption → Go N Tokenized
  unfolding new_predict_options tokenize_with
  tokenize_string longest l text opts =
      let po = tokenize_options (new_predict_options opts) in
      elim po.tokens [
        | negsuc n ↦ return panicked
        | pos size ↦ if ltb longest size then return panicked else tokenize_with l text po size
      ]
