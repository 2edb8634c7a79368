-- ===== src/Llama/Predict.antt =====
-- llama.go: the parameters on the C heap, Predict, SpeculativeSampling and Eval.
pub mod Laws
pub mod Calls
pub mod Effects
pub mod Clean
pub mod Balance
use go_llama_cpp.Base.{
  ℕ, ◌+◌, ℤ, pos, is_zero, c_int, Bool, true, false, not, Option, none, some, List, [], ◌∷◌, ◌++◌,
  map, if◌then◌else◌, Text, Result, ok, err, length, is_empty,
}
use go_llama_cpp.Strings.{codes, contains, repeat, trim_suffix}
use go_llama_cpp.Options.Types.{Float32, TokenCallback, PredictOption, PredictOptions}
use go_llama_cpp.Options.Predict.{new_predict_options}
use go_llama_cpp.Llama.Params.{CPredictParams, c_string, c_predict_params}
use go_llama_cpp.Llama.Native.{Reply, Native}
use go_llama_cpp.Llama.System.{
  System, Go, ◌>>=◌, ◌>>◌, return, skip, allocate, allocate_all, free, free_all, receive, Block,
  binding_error, set_callback, token_callback,
}

-- `LLama` without its lock; `state` is 0 for nil.
pub record LLama : Type 0 where
  pub state : ℕ
  pub embeddings : Bool
  pub context_size : ℤ

-- `cPredictParams`: `ptr` is the block of `llama_allocate_params`, with `args` in it.
pub record Params : Type 0 where
  pub args : CPredictParams
  pub ptr : ℕ
  pub cstrings : List ℕ

abbrev pub default_tokens : ℤ
default_tokens = pos 99999999

-- `if po.Tokens == 0`
unfoldable pub with_tokens : PredictOptions → PredictOptions
with_tokens po = if is_zero po.tokens then record po { tokens = default_tokens } else po

-- `cleanPredictionResult`
unfoldable pub clean_prediction_result : Text → List Text → Text
clean_prediction_result res [] = res
clean_prediction_result res (s ∷ stop_prompts) =
    clean_prediction_result (if is_empty s then res else trim_suffix res s) stop_prompts

-- A media prompt without a marker gets one in front for each file.
unfoldable pub media_prompt : Text → List Text → Text → Text
unfolding contains repeat
media_prompt marker [] text = text
media_prompt marker (path ∷ paths) text =
    if contains text marker
    then text
    else repeat (marker ++ codes "\n") (length (path ∷ paths)) ++ text

module _ {N : Type 0} where
  -- `params.free()`
  unfoldable pub free_params : Params → Go N (Unit {0})
  unfolding free free_all
  free_params params = do _ ← free params.ptr; free_all params.cstrings

  -- `if po.TokenCallback != nil`
  pub set_given : ℕ → Option TokenCallback → Go N (Unit {0})
  unfolding set_callback
  set_given state none = skip
  set_given state (some callback) = set_callback state (some callback)

  -- The deferred `setCallback(l.state, nil)`
  pub unset_given : ℕ → Option TokenCallback → Go N (Unit {0})
  unfolding set_callback
  unset_given state none = skip
  unset_given state (some callback) = set_callback state none

  -- A call of the library: its strings land on the C heap.
  unfoldable pub native_call :
      (TokenCallback → N → Reply × N) → ℕ → Go N (ℤ × Option Block × Option Block)
  unfolding token_callback receive
  native_call f state s =
      let r = f (token_callback s.callbacks state) s.native in
      (do out ← receive r.0.out; message ← receive r.0.message; return (r.0.ret, out, message))
        (record s { native = r.1 })

  pub failed : Text → Option Block → Go N (Result Text Text)
  unfolding binding_error
  failed context message = do
    text ← binding_error message (codes "unknown cause")
    return (err (context ++ text))

  -- What `Predict` and `SpeculativeSampling` make of a reply.
  pub prediction : List Text → ℤ × Option Block × Option Block → Go N (Result Text Text)
  unfolding failed clean_prediction_result free
  prediction stop_prompts (ret, none, message) =
      if is_zero ret
      then return (err (codes "inference returned no output"))
      else failed (codes "inference failed: ") message
  prediction stop_prompts (ret, some (p, text), message) =
      if is_zero ret
      then (do _ ← free p; return (ok (clean_prediction_result text stop_prompts)))
      else failed (codes "inference failed: ") message

module _ {N : Type 0} (format_float : Float32 → Text) where
  -- `newCPredictParams`: a C string for the prompt, for each stop prompt, and for the logit bias,
  -- the sequence breakers, the cache path, the GPU, the tensor split, the grammar and the negative
  -- prompt.
  unfoldable pub new_c_predict_params : Text → PredictOptions → Go N Params
  unfolding c_predict_params allocate allocate_all
  new_c_predict_params prompt po = do
    cstrings ← allocate_all (length po.stop_prompts + 8)
    ptr ← allocate
    return
        (record { args = c_predict_params format_float prompt po; ptr = ptr; cstrings = cstrings })

module _ {N : Type 0} where
  -- `setCallback` if there is a callback, and its deferred removal
  pub with_callback : {A : Type 0} → ℕ → Option TokenCallback → Go N A → Go N A
  unfolding set_given unset_given
  with_callback state callback m = do
    _ ← set_given state callback
    a ← m
    _ ← unset_given state callback
    return a

  -- The result, and the deferred `params.free()`
  pub finish : List Text → Params → ℤ × Option Block × Option Block → Go N (Result Text Text)
  unfolding prediction free_params
  finish stop_prompts params reply = do
    result ← prediction stop_prompts reply
    _ ← free_params params
    return result

  -- `none` is success.
  unfoldable pub evaluated : ℤ × Option Block × Option Block → Go N (Option Text)
  unfolding binding_error
  evaluated (ret, out, message) = if is_zero ret then return none else (do
    text ← binding_error message (codes "unknown cause")
    return (some (codes "eval failed: " ++ text)))

module _ {N : Type 0} (c : Native N) where
  -- The call of a prediction: with media files it is that of the multimodal library.
  unfoldable pub called : ℕ → PredictOptions → CPredictParams → TokenCallback → N → Reply × N
  unfolding c_string
  called state po args =
      if is_empty po.media_paths
      then c.predict args state po.debug_mode
      else c.predict_mtmd args state (map c_string po.media_paths) po.debug_mode

module _ {N : Type 0} (format_float : Float32 → Text) (c : Native N) where
  -- `Predict` from the lock on, with the parameters that it frees at the end.
  pub predict_with : LLama → Text → PredictOptions → Go N (Result Text Text)
  unfolding new_c_predict_params allocate_all called native_call finish
  predict_with l text po = do
    params ← new_c_predict_params format_float text po
    media ← allocate_all (length po.media_paths)
    reply ← native_call (called c l.state po params.args) l.state
    finish po.stop_prompts (record params { cstrings = params.cstrings ++ media }) reply

  unfoldable pub predict : LLama → Text → List PredictOption → Go N (Result Text Text)
  unfolding new_predict_options with_tokens media_prompt with_callback predict_with
  predict l text opts =
      let po = with_tokens (new_predict_options opts) in
      with_callback l.state po.token_callback
        (predict_with l (media_prompt c.media_marker po.media_paths text) po)

  pub speculative_sampling_with : LLama → LLama → Text → PredictOptions → Go N (Result Text Text)
  unfolding new_c_predict_params native_call finish
  speculative_sampling_with l ll text po = do
    params ← new_c_predict_params format_float text po
    reply ← native_call (c.speculative_sampling params.args l.state ll.state po.debug_mode) l.state
    finish po.stop_prompts params reply

  unfoldable pub speculative_sampling :
      LLama → LLama → Text → List PredictOption → Go N (Result Text Text)
  unfolding new_predict_options with_tokens with_callback speculative_sampling_with
  speculative_sampling l ll text opts =
      let po = with_tokens (new_predict_options opts) in
      with_callback l.state po.token_callback (speculative_sampling_with l ll text po)

  unfoldable pub eval : LLama → Text → List PredictOption → Go N (Option Text)
  unfolding new_predict_options with_tokens new_c_predict_params native_call free_params evaluated
  eval l text opts =
      let po = with_tokens (new_predict_options opts) in
      do
        params ← new_c_predict_params format_float text po
        reply ← native_call (c.eval params.args l.state) l.state
        result ← evaluated reply
        _ ← free_params params
        return result
