-- ===== src/Llama/Balance/Inference.antt =====
-- llama.go: Eval, Embeddings, TokenEmbeddings, SpeculativeSampling and TokenizeString and the C heap.
use go_llama_cpp.Base.{
  ltb, ℕ, ℤ, pos, negsuc, c_int, is_zero, ◌≡◌, refl, sym, ap, subst, ◌∙◌, true, not, Option, none,
  some, List, [], map, is_empty, if◌then◌else◌, Text, Result, ok, err, length, arith, Bool-cases,
  inl, inr,
}
use go_llama_cpp.Strings.{codes}
use go_llama_cpp.Options.Types.{Float32, TokenCallback, PredictOption, PredictOptions}
use go_llama_cpp.Options.Predict.{new_predict_options}
use go_llama_cpp.Llama.Params.{CPredictParams}
use go_llama_cpp.Llama.Native.{Reply, Native}
use go_llama_cpp.Llama.System.{
  System, Go, ◌>>=◌, return, Block, receive, binding_error, token_callback,
}
use go_llama_cpp.Llama.System.Heap.{Owns, receive-none, freed, Owns-freed}
use go_llama_cpp.Llama.Predict.{
  LLama, Params, with_tokens, new_c_predict_params, free_params, native_call, evaluated, eval,
}
use go_llama_cpp.Llama.Embeddings.{
  Floats, embedding_size, inferred, infer, token_embeddings, embeddings,
}
use go_llama_cpp.Llama.Tokens.{
  Tokenized, panicked, tokenize_options, counted, tokenize_with, tokenize_string,
}
use go_llama_cpp.Llama.Balance.{
  IsTidy, IsBalanced, IsTidy-IsBalanced, return-IsTidy, if-IsTidy, >>=-IsTidy, bracket-IsTidy,
  params-IsTidy, Owns-native,
}

-- The contract of a call with `error_out` and no `*result`: a message comes only with a failure.
pub record IsMessage (r : Reply) : Type 0 where
  pub quiet : r.out ≡ none
  pub success : is_zero r.ret ≡ true → r.message ≡ none

module _ {N : Type 0} where
  evaluated-freed :
      (ret : ℤ) (message : Option Block) (t : System N)
      → (is_zero ret ≡ true → message ≡ none)
      → (evaluated (ret, none, message) t).1 ≡ freed message t
  unfolding evaluated binding_error freed
  evaluated-freed ret none t h = ground arith
  evaluated-freed ret (some (q, text)) t h = elim (Bool-cases (is_zero ret)) [
    | inl z ↦ cc (h z)
    | inr z ↦ rw z refl
  ]

  receive-quiet : (out : Option Text) (t : System N) → out ≡ none → receive out t ≡ (none, t)
  unfolding receive
  receive-quiet out t e = rw e refl

  evaluation-IsTidy :
      (f : TokenCallback → N → Reply × N) (state : ℕ)
      → ((cb : TokenCallback) (n : N) → IsMessage (f cb n).0)
      → IsTidy (native_call f state >>= evaluated)
  unfolding native_call
  evaluation-IsTidy f state tidy s own t base h =
      let r = f (token_callback t.callbacks state) t.native in
      let rep = tidy (token_callback t.callbacks state) t.native in
      let t' : System N = record t { native = r.1 } in
      let message = receive r.0.message t' in
      let quiet =
        ap
          (λ (o : Option Block × System N).
            let m = receive r.0.message o.1 in (evaluated (r.0.ret, o.0, m.0) m.1).1)
          (receive-quiet r.0.out t' rep.quiet) in
      let heard =
        evaluated-freed r.0.ret message.0 message.1
          (λ z. receive-none r.0.message t' (rep.success z)) in
      subst (Owns s own) (sym (quiet ∙ heard))
        (Owns-freed s own r.0.message t' base (Owns-native s own t r.1 h))

module _ {N : Type 0} (format_float : Float32 → Text) (c : Native N) where
  eval-IsTidy :
      (l : LLama) (text : Text) (opts : List PredictOption)
      → ((args : CPredictParams) (cb : TokenCallback) (n : N)
          → IsMessage (c.eval args l.state cb n).0)
      → IsTidy (eval format_float c l text opts)
  unfolding eval
  eval-IsTidy l text opts tidy =
      params-IsTidy format_float text (with_tokens (new_predict_options opts))
        (λ params. native_call (c.eval params.args l.state) l.state >>= evaluated)
        (λ params. evaluation-IsTidy (c.eval params.args l.state) l.state (tidy params.args))

  inferred-freed :
      (floats : List Float32) (ret : ℤ) (message : Option Block) (t : System N)
      → (is_zero ret ≡ true → message ≡ none)
      → (inferred c floats ret message t).1 ≡ freed message t
  unfolding inferred binding_error freed
  inferred-freed floats ret none t h = ground arith
  inferred-freed floats ret (some (q, text)) t h = elim (Bool-cases (is_zero ret)) [
    | inl z ↦ cc (h z)
    | inr z ↦ rw z refl
  ]

  -- The contract of the two calls that fill a buffer: a message comes only with a failure.
  abbrev pub IsFilling : (CPredictParams → N → (Reply × List Float32) × N) → Type 0
  IsFilling f =
      (args : CPredictParams) (n : N)
      → is_zero (f args n).0.0.ret ≡ true
      → (f args n).0.0.message ≡ none

  -- The call of `infer` and what is made of its reply.
  abbrev fill : (CPredictParams → N → (Reply × List Float32) × N) → Params → Go N Floats
  fill f params =
      (λ s. let r = f params.args s.native in (r.0, record s { native = r.1 })) >>= λ reply.
      receive reply.0.message >>= λ message. inferred c reply.1 reply.0.ret message

  fill-IsTidy :
      (f : CPredictParams → N → (Reply × List Float32) × N)
      → IsFilling f
      → (params : Params) → IsTidy (fill f params)
  fill-IsTidy f tidy params s own t base h =
      let r = f params.args t.native in
      let t' : System N = record t { native = r.1 } in
      let message = receive r.0.0.message t' in
      subst (Owns s own)
        (sym (
          inferred-freed r.0.1 r.0.0.ret message.0 message.1
            (λ z. receive-none r.0.0.message t' (tidy params.args t.native z))))
        (Owns-freed s own r.0.0.message t' base (Owns-native s own t r.1 h))

  infer-IsTidy :
      (blocks : ℕ) (text : Text) (po : PredictOptions)
      (f : CPredictParams → N → (Reply × List Float32) × N)
      → IsFilling f
      → IsTidy (infer format_float c blocks text po f)
  unfolding infer
  infer-IsTidy blocks text po f tidy =
      bracket-IsTidy {A = Floats} blocks
        (λ arrays. new_c_predict_params format_float text po >>= λ params.
          fill f params >>= λ result. free_params params >>= λ _. return result)
        (λ arrays. params-IsTidy format_float text po (fill f) (fill-IsTidy f tidy))

  sized-IsTidy :
      (r : Result Text ℤ) (k : ℤ → Go N Floats)
      → ((n : ℤ) → IsTidy (k n))
      → IsTidy {A = Floats} (elim r [ err e ↦ return ([], some e) | ok n ↦ k n ])
  sized-IsTidy (err e) k h = return-IsTidy {A = Floats} ([], some e)
  sized-IsTidy (ok n) k h = h n

  abbrev without_embeddings : Floats
  without_embeddings = ([], some (codes "model loaded without embeddings"))

  -- The part of both methods behind `embeddingSize`.
  embedding-IsTidy :
      (l : LLama) (k : ℤ → Go N Floats)
      → ((n : ℤ) → IsTidy (k n))
      → IsTidy {A = Floats} (
          if not l.embeddings
          then return without_embeddings
          else embedding_size c l >>= λ size. elim size [
            | err e ↦ return ([], some e)
            | ok n ↦ k n
          ])
  unfolding embedding_size
  embedding-IsTidy l k h =
      if-IsTidy {A = Floats} (not l.embeddings) _ _ (return-IsTidy {A = Floats} without_embeddings)
        (>>=-IsTidy {B = Floats} (embedding_size c l)
          (λ size. elim size [ err e ↦ return ([], some e) | ok n ↦ k n ]) (λ s own t base o. o)
          (λ size. sized-IsTidy size k h))

  token_embeddings-IsTidy :
      (l : LLama) (tokens : List ℤ) (opts : List PredictOption)
      → IsFilling
          (λ args. c.get_token_embeddings args l.state (map c_int tokens) (pos (length tokens)))
      → IsTidy (token_embeddings format_float c l tokens opts)
  unfolding token_embeddings
  token_embeddings-IsTidy l tokens opts tidy =
      embedding-IsTidy l
        (λ n.
          infer format_float c (if is_empty tokens then 0 else 1) [] (new_predict_options opts)
            (λ args. c.get_token_embeddings args l.state (map c_int tokens) (pos (length tokens))))
        (λ n.
          infer-IsTidy (if is_empty tokens then 0 else 1) [] (new_predict_options opts)
            (λ args. c.get_token_embeddings args l.state (map c_int tokens) (pos (length tokens)))
            tidy)

  embeddings-IsTidy :
      (l : LLama) (text : Text) (opts : List PredictOption)
      → ((n : ℤ) → IsFilling (λ args. c.get_embeddings args l.state n))
      → IsTidy (embeddings format_float c l text opts)
  unfolding embeddings
  embeddings-IsTidy l text opts tidy =
      let po = with_tokens (new_predict_options opts) in
      embedding-IsTidy l
        (λ n. infer format_float c 0 text po (λ args. c.get_embeddings args l.state n))
        (λ n. infer-IsTidy 0 text po (λ args. c.get_embeddings args l.state n) (tidy n))

  -- The call of TokenizeString, which hands over no string.
  abbrev count_call : LLama → Params → Go N (ℤ × List ℤ)
  count_call l params s =
      let r = c.tokenize_string params.args l.state s.native in (r.0, record s { native = r.1 })

  tokenize_with-IsTidy :
      (l : LLama) (text : Text) (po : PredictOptions) (size : ℕ)
      → IsTidy (tokenize_with format_float c l text po size)
  unfolding tokenize_with
  tokenize_with-IsTidy l text po size =
      >>=-IsTidy {B = Tokenized}
        (new_c_predict_params format_float text po >>= λ params.
          count_call l params >>= λ reply. free_params params >>= λ _. return reply)
        (λ reply. return (counted c reply.0 reply.1 size))
        (params-IsTidy format_float text po (count_call l) (λ params s own t base h.
          Owns-native s own t (c.tokenize_string params.args l.state t.native).1 h))
        (λ reply. return-IsTidy (counted c reply.0 reply.1 size))

  tokenized-IsTidy :
      (longest : ℕ) (l : LLama) (text : Text) (po : PredictOptions) (tokens : ℤ)
      → IsTidy {A = Tokenized} (elim tokens [
        | negsuc n ↦ return panicked
        | pos size ↦
            if ltb longest size
            then return panicked
            else tokenize_with format_float c l text po size
      ])
  tokenized-IsTidy longest l text po (negsuc n) = return-IsTidy panicked
  tokenized-IsTidy longest l text po (pos size) =
      if-IsTidy (ltb longest size) (return panicked) (tokenize_with format_float c l text po size)
        (return-IsTidy panicked) (tokenize_with-IsTidy l text po size)

  tokenize_string-IsTidy :
      (longest : ℕ) (l : LLama) (text : Text) (opts : List PredictOption)
      → IsTidy (tokenize_string format_float c longest l text opts)
  unfolding tokenize_string
  tokenize_string-IsTidy longest l text opts =
      let po = tokenize_options (new_predict_options opts) in
      tokenized-IsTidy longest l text po po.tokens

  -- `Eval`, `Embeddings`, `TokenEmbeddings` and `TokenizeString` leave the C heap as it was, on
  -- every path, if no block beyond the next new address was live, if `eval` puts no string into a
  -- result, and if each of the first three calls gives a message only with a failure.
  pub inference-IsBalanced :
      (longest : ℕ) (l : LLama) (text : Text) (tokens : List ℤ) (opts : List PredictOption)
      → ((args : CPredictParams) (cb : TokenCallback) (n : N)
          → IsMessage (c.eval args l.state cb n).0)
      → ((n : ℤ) → IsFilling (λ args. c.get_embeddings args l.state n))
      → IsFilling
          (λ args. c.get_token_embeddings args l.state (map c_int tokens) (pos (length tokens)))
      → IsBalanced (eval format_float c l text opts)
        × IsBalanced (embeddings format_float c l text opts)
        × IsBalanced (token_embeddings format_float c l tokens opts)
        × IsBalanced (tokenize_string format_float c longest l text opts)
  inference-IsBalanced longest l text tokens opts e f g = (
    IsTidy-IsBalanced (eval format_float c l text opts) (eval-IsTidy l text opts e),
    IsTidy-IsBalanced (embeddings format_float c l text opts) (embeddings-IsTidy l text opts f),
    IsTidy-IsBalanced (token_embeddings format_float c l tokens opts)
        (token_embeddings-IsTidy l tokens opts g),
    IsTidy-IsBalanced (tokenize_string format_float c longest l text opts)
        (tokenize_string-IsTidy longest l text opts),
  )
