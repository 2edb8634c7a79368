-- ===== src/Llama/Embeddings.antt =====
-- llama.go: embeddingSize, TokenEmbeddings and Embeddings.
use go_llama_cpp.Base.{
  ℕ, ℤ, pos, is_zero, is_positive, is_empty, c_int, not, Option, none, some, List, [], ◌++◌, map,
  length, if◌then◌else◌, Text, Result, ok, err,
}
use go_llama_cpp.Strings.{codes}
use go_llama_cpp.Options.Types.{Float32, PredictOption, PredictOptions}
use go_llama_cpp.Options.Predict.{new_predict_options}
use go_llama_cpp.Llama.Params.{CPredictParams, itoa_ℤ}
use go_llama_cpp.Llama.Native.{Reply, Native}
use go_llama_cpp.Llama.System.{
  Go, ◌>>=◌, return, allocate_all, free_all, receive, Block, binding_error,
}
use go_llama_cpp.Llama.Predict.{LLama, with_tokens, new_c_predict_params, free_params}

-- The numbers that are returned, and the error; an error of the library comes with the numbers.
abbrev pub Floats : Type 0
Floats = List Float32 × Option Text

module _ {N : Type 0} (c : Native N) where
  -- `embeddingSize`
  unfoldable pub embedding_size : LLama → Go N (Result Text ℤ)
  embedding_size l s =
      let size = c.embedding_size l.state s.native in
      (
        if is_positive size then ok size else err (codes "invalid embedding size " ++ itoa_ℤ size),
        s,
      )

  unfoldable pub inferred : List Float32 → ℤ → Option Block → Go N Floats
  unfolding binding_error
  inferred floats ret message = if is_zero ret then return (floats, none) else (do
    text ← binding_error message (codes "unknown cause")
    return (floats, some (codes "embedding inference failed: " ++ text)))

module _ {N : Type 0} (format_float : Float32 → Text) (c : Native N) where
  -- The part from the parameters on; `blocks` is the count of the other blocks that are freed at
  -- the end.
  unfoldable pub infer :
      ℕ → Text → PredictOptions → (CPredictParams → N → (Reply × List Float32) × N) → Go N Floats
  unfolding allocate_all new_c_predict_params receive inferred free_params free_all
  infer blocks text po f = do
    arrays ← allocate_all blocks
    params ← new_c_predict_params format_float text po
    reply ← (λ s. let r = f params.args s.native in (r.0, record s { native = r.1 }))
    message ← receive reply.0.message
    result ← inferred c reply.1 reply.0.ret message
    _ ← free_params params
    _ ← free_all arrays
    return result

  -- The array of the tokens is allocated where there are any.
  unfoldable pub token_embeddings : LLama → List ℤ → List PredictOption → Go N Floats
  unfolding new_predict_options embedding_size infer c_int
  token_embeddings l tokens opts =
      if not l.embeddings
      then return ([], some (codes "model loaded without embeddings"))
      else embedding_size c l >>= λ size. elim size [
        | err e ↦ return ([], some e)
        | ok n ↦
            infer (if is_empty tokens then 0 else 1) [] (new_predict_options opts)
              (λ args. c.get_token_embeddings args l.state (map c_int tokens) (pos (length tokens)))
      ]

  unfoldable pub embeddings : LLama → Text → List PredictOption → Go N Floats
  unfolding new_predict_options with_tokens embedding_size infer
  embeddings l text opts =
      if not l.embeddings
      then return ([], some (codes "model loaded without embeddings"))
      else embedding_size c l >>= λ size. elim size [
        | err e ↦ return ([], some e)
        | ok n ↦
            infer 0 text (with_tokens (new_predict_options opts))
              (λ args. c.get_embeddings args l.state n)
      ]
