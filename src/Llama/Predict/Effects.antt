-- ===== src/Llama/Predict/Effects.antt =====
-- llama.go: Predict and SpeculativeSampling, the callbacks and the library.
use go_llama_cpp.Base.{
  ℕ, ◌+◌, ◌≡◌, ap, ap₂, ◌∙◌, ◌&&◌, none, List, ◌++◌, if◌then◌else◌, Text, Result, length, lookup,
  nat_eq, nat_beq,
}
use go_llama_cpp.Options.Types.{Float32, TokenCallback, PredictOption, PredictOptions}
use go_llama_cpp.Options.Predict.{new_predict_options}
use go_llama_cpp.Llama.Params.{CPredictParams, c_predict_params}
use go_llama_cpp.Llama.Native.{Reply, Native}
use go_llama_cpp.Llama.System.{System, Go, ◌>>=◌, allocate, allocate_all}
use go_llama_cpp.Llama.Predict.{
  LLama, with_tokens, media_prompt, with_callback, finish, called, predict_with, set_given,
  native_call, new_c_predict_params, predict, speculative_sampling, speculative_sampling_with,
}
use go_llama_cpp.Llama.Predict.Laws.{
  allocate-IsHeapOnly, allocate_all-IsHeapOnly, set_given-native, unset_given-native,
}
use go_llama_cpp.Llama.Predict.Calls.{
  is_some, HasOutcome, IsCall, running, set_given-running, unset_given-set_given, IsCall,
  before-IsCall, outcome, finish-IsCall,
}

module _ {N : Type 0} (format_float : Float32 → Text) (c : Native N) where
  -- The arguments of the call of `Predict`.
  abbrev pub predict_args : Text → PredictOptions → CPredictParams
  predict_args text po = c_predict_params format_float text po

  predict_with-IsCall :
      (l : LLama) (text : Text) (po : PredictOptions)
      → IsCall
          (called c l.state po (predict_args text po))
          l.state
          (HasOutcome po.stop_prompts)
          (predict_with format_float c l text po)
  unfolding predict_with new_c_predict_params
  predict_with-IsCall l text po =
      let f = called c l.state po (predict_args text po) in
      let P = HasOutcome po.stop_prompts in
      let last = λ (cs : List ℕ) (ptr : ℕ) (media : List ℕ).
        native_call f l.state
        >>= finish po.stop_prompts
            (record { args = predict_args text po; ptr = ptr; cstrings = cs ++ media }) in
      let third = λ (cs : List ℕ) (ptr : ℕ).
        allocate_all (length po.media_paths) >>= λ media. last cs ptr media in
      before-IsCall f l.state P (allocate_all (length po.stop_prompts + 8))
        (λ cs. allocate >>= λ ptr. third cs ptr)
        (allocate_all-IsHeapOnly (length po.stop_prompts + 8))
        λ cs.
          before-IsCall f l.state P allocate (λ ptr. third cs ptr) allocate-IsHeapOnly
            λ ptr.
              before-IsCall f l.state P (allocate_all (length po.media_paths))
                (λ media. last cs ptr media) (allocate_all-IsHeapOnly (length po.media_paths))
                λ media.
                  finish-IsCall f l.state po.stop_prompts
                    (record { args = predict_args text po; ptr = ptr; cstrings = cs ++ media })

-- What a step under `with_callback` is to do: one call under the callback that was given or, without
-- one, under that of the registry; afterwards the given callback is gone.
abbrev pub IsPrediction :
    {N : Type 0}
    → (TokenCallback → N → Reply × N)
    → ℕ
    → PredictOptions
    → System N
    → Result Text Text × System N
    → Type 0
IsPrediction f state po s (result, after) =
    let r = f (running s.callbacks state po.token_callback) s.native in
    (result ≡ outcome po.stop_prompts r.0)
    × (after.native ≡ r.1)
    × ((j : ℕ)
        → lookup j after.callbacks
          ≡ (if is_some po.token_callback && nat_beq state j then none else lookup j s.callbacks))

module _ {N : Type 0} where
  with_callback-IsPrediction :
      (f : TokenCallback → N → Reply × N) (state : ℕ) (po : PredictOptions)
      (m : Go N (Result Text Text)) (s : System N)
      → IsCall f state (HasOutcome po.stop_prompts) m
      → IsPrediction f state po s (with_callback state po.token_callback m s)
  unfolding with_callback
  with_callback-IsPrediction f state po m s h =
      let before = (set_given state po.token_callback s).1 in
      let (x, y, z) = h before in
      let e =
        ap₂ (λ cb n. f cb n) (set_given-running state po.token_callback s)
          (set_given-native state po.token_callback s) in
      (
        z ∙ ap (λ r. outcome po.stop_prompts r.0) e,
        unset_given-native state po.token_callback (m before).1 ∙ (y ∙ ap (λ r. r.1) e),
        λ j. unset_given-set_given state po.token_callback s (m before).1 j x,
      )

module _ {N : Type 0} (format_float : Float32 → Text) (c : Native N) where
  -- `Predict` makes one call of the library, with the arguments of its options and prompt, and
  -- under the callback of the options or, where they have none, that of the registry; its result
  -- is that of the reply. Afterwards the model has no callback if the options gave one, and every
  -- other callback is as before.
  pub predict-IsPrediction :
      (l : LLama) (text : Text) (opts : List PredictOption) (s : System N)
      → let po = with_tokens (new_predict_options opts) in
        let prompt = media_prompt c.media_marker po.media_paths text in
        IsPrediction
          (called c l.state po (c_predict_params format_float prompt po))
          l.state
          po
          s
          (predict format_float c l text opts s)
  unfolding predict
  predict-IsPrediction l text opts s =
      let po = with_tokens (new_predict_options opts) in
      let prompt = media_prompt c.media_marker po.media_paths text in
      with_callback-IsPrediction (called c l.state po (c_predict_params format_float prompt po))
        l.state po (predict_with format_float c l prompt po) s
        (predict_with-IsCall format_float c l prompt po)

  speculative_sampling_with-IsCall :
      (l ll : LLama) (text : Text) (po : PredictOptions)
      → IsCall
          (c.speculative_sampling
            (predict_args format_float c text po)
            l.state
            ll.state
            po.debug_mode)
          l.state
          (HasOutcome po.stop_prompts)
          (speculative_sampling_with format_float c l ll text po)
  unfolding speculative_sampling_with new_c_predict_params
  speculative_sampling_with-IsCall l ll text po =
      let f =
        c.speculative_sampling (predict_args format_float c text po) l.state ll.state
          po.debug_mode in
      let last = λ (cs : List ℕ) (ptr : ℕ).
        native_call f l.state
        >>= finish po.stop_prompts
            (record { args = predict_args format_float c text po; ptr = ptr; cstrings = cs }) in
      before-IsCall f l.state (HasOutcome po.stop_prompts)
        (allocate_all (length po.stop_prompts + 8)) (λ cs. allocate >>= λ ptr. last cs ptr)
        (allocate_all-IsHeapOnly (length po.stop_prompts + 8))
        λ cs.
          before-IsCall f l.state (HasOutcome po.stop_prompts) allocate (λ ptr. last cs ptr)
            allocate-IsHeapOnly
            λ ptr.
              finish-IsCall f l.state po.stop_prompts
                (record { args = predict_args format_float c text po; ptr = ptr; cstrings = cs })

  -- `SpeculativeSampling` makes one call of the library's own function with both models, and does
  -- else what `Predict` does: its result is that of the reply, and the callbacks are left the
  -- same way.
  pub speculative_sampling-IsPrediction :
      (l ll : LLama) (text : Text) (opts : List PredictOption) (s : System N)
      → let po = with_tokens (new_predict_options opts) in
        IsPrediction
          (c.speculative_sampling
            (c_predict_params format_float text po)
            l.state
            ll.state
            po.debug_mode)
          l.state
          po
          s
          (speculative_sampling format_float c l ll text opts s)
  unfolding speculative_sampling
  speculative_sampling-IsPrediction l ll text opts s =
      let po = with_tokens (new_predict_options opts) in
      with_callback-IsPrediction
        (c.speculative_sampling (c_predict_params format_float text po) l.state ll.state
          po.debug_mode)
        l.state po (speculative_sampling_with format_float c l ll text po) s
        (speculative_sampling_with-IsCall l ll text po)
