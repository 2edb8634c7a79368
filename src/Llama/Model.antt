-- ===== src/Llama/Model.antt =====
-- llama.go: New, Free, SupportsVision, SupportsAudio, LoadState, SaveState and SetTokenCallback.
pub mod Laws
pub mod Ledger
use go_llama_cpp.Base.{
  ℕ, pos, is_zero, is_positive, Bool, ◌&&◌, not, Option, none, some, List, ◌++◌, nat_beq, is_empty,
  if◌then◌else◌, Text, Result, ok, err,
}
use go_llama_cpp.Strings.{codes}
use go_llama_cpp.Options.Types.{TokenCallback, ModelOption, ModelOptions}
use go_llama_cpp.Options.Model.{new_model_options}
use go_llama_cpp.Llama.Params.{c_string}
use go_llama_cpp.Llama.Load.{load_args}
use go_llama_cpp.Llama.Native.{Native}
use go_llama_cpp.Llama.System.{
  Go, ◌>>=◌, return, allocate_all, free_all, receive, Block, binding_error, set_callback,
}
use go_llama_cpp.Llama.Predict.{LLama}

module _ {N : Type 0} (c : Native N) where
  unfoldable pub opened : ModelOptions → ℕ → LLama
  opened mo state = record {
    state = state;
    embeddings = mo.embeddings;
    context_size = mo.context_size;
  }

  unfoldable pub load_failed : Option Block → Go N (Result Text LLama)
  unfolding binding_error
  load_failed message = do
    text ← binding_error message (codes "unknown cause")
    return (err (codes "failed loading model: " ++ text))

  abbrev pub free_model : ℕ → Go N (Unit {0})
  free_model state s = (tt, record s { native = c.free_model state s.native })

  -- The projector, if one is named; without it the model is freed again.
  unfoldable pub with_mmproj : ModelOptions → ℕ → Go N (Result Text LLama)
  unfolding c_string allocate_all receive load_failed free_all opened
  with_mmproj mo state = do
    mmproj ← allocate_all 1
    reply ← (λ s.
        let r =
          c.load_mmproj state (c_string mo.mmproj) (is_positive mo.n_gpu_layers) (pos 0) s.native in
        (r.0, record s { native = r.1 }))
    message ← receive reply.message
    result ←
        (if is_zero reply.ret
          then return (ok (opened mo state))
          else (do _ ← free_model state; load_failed message))
    _ ← free_all mmproj
    return result

  -- `New`: the path, the LoRA base and adapter, the GPU and the tensor split are C strings.
  unfoldable pub new : Text → List ModelOption → Go N (Result Text LLama)
  unfolding new_model_options load_args allocate_all receive load_failed with_mmproj free_all opened
  new model opts =
      let mo = new_model_options opts in
      do
        cstrings ← allocate_all 5
        result ← (λ s.
            let r = c.load_model (load_args model mo) s.native in (r.0, record s { native = r.1 }))
        message ← receive result.1
        loaded ←
            (if nat_beq result.0 0
              then load_failed message
              else if is_empty mo.mmproj
              then return (ok (opened mo result.0))
              else with_mmproj mo result.0)
        _ ← free_all cstrings
        return loaded

  -- `Free`, which sets the receiver's `state` to nil; once it is, nothing happens.
  unfoldable pub free_llama : LLama → Go N LLama
  unfolding set_callback
  free_llama l = if nat_beq l.state 0 then return l else (do
    _ ← set_callback l.state none
    _ ← free_model l.state
    return (record l { state = 0 }))

  -- `LoadState` and `SaveState`: two C strings, the path and the mode; `none` is success.
  unfoldable pub load_state : LLama → Text → Go N (Option Text)
  unfolding c_string allocate_all free_all
  load_state l state = do
    cstrings ← allocate_all 2
    result ← (λ s.
        let r = c.load_state l.state (c_string state) (codes "rb") s.native in
        (r.0, record s { native = r.1 }))
    _ ← free_all cstrings
    return (if is_zero result then none else some (codes "error while loading state"))

  unfoldable pub save_state : LLama → Text → Go N (Option Text)
  unfolding c_string allocate_all free_all
  save_state l dst = do
    cstrings ← allocate_all 2
    result ← (λ s.
        let r = c.save_state l.state (c_string dst) (codes "wb") s.native in
        (r.0, record s { native = r.1 }))
    _ ← free_all cstrings
    return (if is_zero result then none else some (codes "error while saving state"))

  unfoldable pub supports_vision : LLama → N → Bool
  supports_vision l n = not (nat_beq l.state 0) && not (is_zero (c.supports_vision l.state n))

  unfoldable pub supports_audio : LLama → N → Bool
  supports_audio l n = not (nat_beq l.state 0) && not (is_zero (c.supports_audio l.state n))

  unfoldable pub set_token_callback : LLama → Option TokenCallback → Go N (Unit {0})
  unfolding set_callback
  set_token_callback l callback = set_callback l.state callback
