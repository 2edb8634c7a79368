-- ===== src/Llama/Predict/Balance/Speculative.antt =====
-- llama.go: SpeculativeSampling and the C heap.
use go_llama_cpp.Base.{
  ℕ, ◌+◌, ◌≡◌, refl, ap, ◌∙◌, Bool, false, ◌||◌, List, nat_beq, Text, length, arith,
}
use go_llama_cpp.Options.Types.{Float32, TokenCallback, PredictOption, PredictOptions}
use go_llama_cpp.Options.Predict.{new_predict_options}
use go_llama_cpp.Llama.Params.{CPredictParams, c_predict_params}
use go_llama_cpp.Llama.Native.{Native}
use go_llama_cpp.Llama.System.{System, allocate, allocate_all}
use go_llama_cpp.Llama.System.Heap.{elem, IsHeap, Owns, Owns-allocate, Owns-allocate_all, Owns-none}
use go_llama_cpp.Llama.Predict.{
  LLama, with_tokens, set_given, with_callback, new_c_predict_params, speculative_sampling_with,
  speculative_sampling,
}
use go_llama_cpp.Llama.Predict.Balance.{IsReply, finish-Owns, set_given-Owns, unset_given-live}

module _ {N : Type 0} (format_float : Float32 → Text) (c : Native N) where
  -- The contract of the call, for the options `po`.
  abbrev pub IsSpeculation : LLama → LLama → PredictOptions → Type 0
  IsSpeculation l ll po =
      (args : CPredictParams) (cb : TokenCallback) (n : N)
      → IsReply (c.speculative_sampling args l.state ll.state po.debug_mode cb n).0

  speculative-Owns :
      (s : System N) (base : IsHeap s) (l ll : LLama) (text : Text) (po : PredictOptions)
      (t : System N)
      → IsSpeculation l ll po
      → Owns s (λ p. false) t
      → Owns s (λ p. false) (speculative_sampling_with format_float c l ll text po t).1
  unfolding speculative_sampling_with new_c_predict_params allocate
  speculative-Owns s base l ll text po t tidy h =
      let args = c_predict_params format_float text po in
      let cs = allocate_all (length po.stop_prompts + 8) t in
      let ptr = allocate cs.1 in
      let own : ℕ → Bool = λ p. nat_beq p ptr.0 || (elem p cs.0 || false) in
      let h2 : Owns s own ptr.1 =
        Owns-allocate s (λ p. elem p cs.0 || false) cs.1
          (Owns-allocate_all s (λ p. false) (length po.stop_prompts + 8) t h) in
      finish-Owns s base (c.speculative_sampling args l.state ll.state po.debug_mode) l.state
        po.stop_prompts (record { args = args; ptr = ptr.0; cstrings = cs.0 }) own ptr.1 (tidy args)
        h2.fresh (λ p. ground arith) h2

  -- On every path `SpeculativeSampling` leaves the C heap as it was, if no block beyond the next
  -- new address was live, and if its call puts a string into `*result` only on success and one
  -- into `*error_out` only on failure.
  pub speculative_sampling-live :
      (l ll : LLama) (text : Text) (opts : List PredictOption) (s : System N)
      → IsHeap s
      → IsSpeculation l ll (with_tokens (new_predict_options opts))
      → (p : ℕ)
      → elem p (speculative_sampling format_float c l ll text opts s).1.live ≡ elem p s.live
  unfolding speculative_sampling with_callback
  speculative_sampling-live l ll text opts s base tidy p =
      let po = with_tokens (new_predict_options opts) in
      let before = (set_given l.state po.token_callback s).1 in
      let after = (speculative_sampling_with format_float c l ll text po before).1 in
      ap (elem p) (unset_given-live s base l.state po.token_callback after)
      ∙ Owns-none s (λ q. false) after
          (speculative-Owns s base l ll text po before tidy
            (set_given-Owns s base l.state po.token_callback))
          (λ q. refl) p
