-- ===== src/Llama/Predict/Balance.antt =====
-- llama.go: Predict and the C heap.
pub mod Speculative
use go_llama_cpp.Base.{
  ℕ, ◌+◌, ℤ, is_zero, ◌≡◌, refl, ap, ◌∙◌, Bool, true, false, ◌&&◌, ◌||◌, not, Option, none, some,
  List, ◌∷◌, ◌++◌, nat_beq, nat_beq_iff, leb, Text, length, arith, Bool-cases, inl, inr,
}
use go_llama_cpp.Options.Types.{Float32, TokenCallback, PredictOption, PredictOptions}
use go_llama_cpp.Options.Predict.{new_predict_options}
use go_llama_cpp.Llama.Params.{CPredictParams, c_predict_params}
use go_llama_cpp.Llama.Native.{Reply, Native}
use go_llama_cpp.Llama.System.{
  System, Block, allocate, allocate_all, free, free_all, receive, binding_error, set_callback,
  token_callback,
}
use go_llama_cpp.Llama.System.Heap.{
  elem, IsHeap, Owns, is_block, Owns-refl, Owns-same, Owns-allocate, Owns-allocate_all,
  Owns-receive, Owns-free, Owns-free_all, Owns-none, elem-append, receive-none,
}
use go_llama_cpp.Llama.Predict.{
  LLama, Params, with_tokens, media_prompt, called, predict, predict_with, with_callback, set_given,
  unset_given, prediction, failed, finish, native_call, new_c_predict_params, free_params,
}

-- The contract of a call: a string is put into `*result` only on success, and into `*error_out`
-- only on failure.
pub record IsReply (r : Reply) : Type 0 where
  pub success : is_zero r.ret ≡ true → r.message ≡ none
  pub failure : is_zero r.ret ≡ false → r.out ≡ none

module _ {N : Type 0} (s : System N) (base : IsHeap s) where
  -- The strings of a reply are freed.
  prediction-Owns :
      (own : ℕ → Bool) (stops : List Text) (ret : ℤ) (out message : Option Block) (t : System N)
      → (is_zero ret ≡ true → message ≡ none)
      → (is_zero ret ≡ false → out ≡ none)
      → ((p : ℕ) → (is_block p out || is_block p message) ≡ true → leb s.next p ≡ true)
      → Owns s own t
      → Owns s
          (λ p. not (is_block p out || is_block p message) && own p)
          (prediction stops (ret, out, message) t).1
  unfolding prediction failed binding_error free
  prediction-Owns own stops ret none none t ok bad new h = elim (Bool-cases (is_zero ret)) [
    | inl z ↦ rw z h
    | inr z ↦ rw z h
  ]
  prediction-Owns own stops ret none (some (q, m)) t ok bad new h =
      elim (Bool-cases (is_zero ret)) [
        | inl z ↦ cc (ok z)
        | inr z ↦ rw z (
            Owns-same s (λ p. not (nat_beq p q) && own p)
              (λ p. not (is_block p none || is_block p (some (q, m))) && own p) (free q t).1
              (λ p. ground arith)
              (Owns-free s own q t base (new q (ground (arith, nat_beq_iff q q))) h))
      ]
  prediction-Owns own stops ret (some (q, m)) none t ok bad new h =
      elim (Bool-cases (is_zero ret)) [
        | inl z ↦ rw z (
            Owns-same s (λ p. not (nat_beq p q) && own p)
              (λ p. not (is_block p (some (q, m)) || is_block p none) && own p) (free q t).1
              (λ p. ground arith)
              (Owns-free s own q t base (new q (ground (arith, nat_beq_iff q q))) h))
        | inr z ↦ cc (bad z)
      ]
  prediction-Owns own stops ret (some (q, m)) (some (q', m')) t ok bad new h =
      elim (Bool-cases (is_zero ret)) [ inl z ↦ cc (ok z) | inr z ↦ cc (bad z) ]

  -- A call, its result, and the parameters that are freed behind it.
  finish-Owns :
      (f : TokenCallback → N → Reply × N) (state : ℕ) (stops : List Text) (params : Params)
      (own : ℕ → Bool) (t : System N)
      → ((cb : TokenCallback) (n : N) → IsReply (f cb n).0)
      → ((p : ℕ) → own p ≡ true → leb s.next p ≡ true)
      → ((p : ℕ) → own p ≡ (elem p (params.ptr ∷ params.cstrings)))
      → Owns s own t
      → Owns s
          (λ p. false)
          (let called = native_call f state t in finish stops params called.0 called.1).1
  unfolding finish free_params native_call free_all
  finish-Owns f state stops params own t tidy fresh mine h =
      let r = f (token_callback t.callbacks state) t.native in
      let rep = tidy (token_callback t.callbacks state) t.native in
      let t5 : System N = record t { native = r.1 } in
      let out = receive r.0.out t5 in
      let message = receive r.0.message out.1 in
      let h5 : Owns s own t5 = record {
        live = h.live;
        fresh = h.fresh;
        later = h.later;
        heap = h.heap;
      } in
      let h7 =
        Owns-receive s (λ p. is_block p out.0 || own p) r.0.message out.1
          (Owns-receive s own r.0.out t5 h5) in
      let own7 : ℕ → Bool = λ p. is_block p message.0 || (is_block p out.0 || own p) in
      let own8 : ℕ → Bool = λ p. not (is_block p out.0 || is_block p message.0) && own7 p in
      let done = prediction stops (r.0.ret, out.0, message.0) message.1 in
      let h8 : Owns s own8 done.1 =
        prediction-Owns own7 stops r.0.ret out.0 message.0 message.1
          (λ z. receive-none r.0.message out.1 (rep.success z))
          (λ z. receive-none r.0.out t5 (rep.failure z)) (λ p e. ground (arith, h7.fresh p)) h7 in
      let ps = params.ptr ∷ params.cstrings in
      Owns-same s (λ p. not (elem p ps) && own8 p) (λ p. false) (free_all ps done.1).1
        (λ p. ground (arith, mine p))
        (Owns-free_all s own8 ps done.1 base (λ p e. ground (arith, mine p, fresh p)) h8)

  set_given-Owns :
      (state : ℕ) (cb : Option TokenCallback) → Owns s (λ p. false) (set_given state cb s).1
  unfolding set_given set_callback
  set_given-Owns state none = Owns-refl s base
  set_given-Owns state (some f) =
      let h = Owns-refl s base in
      record { live = h.live; fresh = h.fresh; later = h.later; heap = h.heap }

  unset_given-live :
      (state : ℕ) (cb : Option TokenCallback) (t : System N)
      → (unset_given state cb t).1.live ≡ t.live
  unfolding unset_given set_callback
  unset_given-live state none t = refl
  unset_given-live state (some f) t = refl

module _ {N : Type 0} (format_float : Float32 → Text) (c : Native N) where
  predict_with-Owns :
      (s : System N) (base : IsHeap s) (l : LLama) (text : Text) (po : PredictOptions)
      (t : System N)
      → ((args : CPredictParams) (cb : TokenCallback) (n : N)
          → IsReply (called c l.state po args cb n).0)
      → Owns s (λ p. false) t
      → Owns s (λ p. false) (predict_with format_float c l text po t).1
  unfolding predict_with new_c_predict_params allocate
  predict_with-Owns s base l text po t tidy h =
      let cs = allocate_all (length po.stop_prompts + 8) t in
      let h1 = Owns-allocate_all s (λ p. false) (length po.stop_prompts + 8) t h in
      let own1 : ℕ → Bool = λ p. elem p cs.0 || false in
      let ptr = allocate cs.1 in
      let h2 : Owns s (λ p. nat_beq p ptr.0 || own1 p) ptr.1 = Owns-allocate s own1 cs.1 h1 in
      let own2 : ℕ → Bool = λ p. nat_beq p ptr.0 || own1 p in
      let media = allocate_all (length po.media_paths) ptr.1 in
      let own3 : ℕ → Bool = λ p. elem p media.0 || own2 p in
      let h3 : Owns s own3 media.1 = Owns-allocate_all s own2 (length po.media_paths) ptr.1 h2 in
      finish-Owns s base (called c l.state po (c_predict_params format_float text po)) l.state
        po.stop_prompts
        (record {
          args = c_predict_params format_float text po;
          ptr = ptr.0;
          cstrings = cs.0 ++ media.0;
        })
        own3 media.1 (tidy (c_predict_params format_float text po)) h3.fresh
        (λ p. ground (arith, elem-append p cs.0 media.0)) h3

  -- On every path `Predict` leaves the C heap as it was: the blocks that are live after it are
  -- those that were live before, if no block beyond the next new address was live, and if each
  -- call of the library puts a string into `*result` only on success and one into `*error_out`
  -- only on failure.
  pub predict-live :
      (l : LLama) (text : Text) (opts : List PredictOption) (s : System N)
      → IsHeap s
      → ((args : CPredictParams) (cb : TokenCallback) (n : N)
          → IsReply (called c l.state (with_tokens (new_predict_options opts)) args cb n).0)
      → (p : ℕ) → elem p (predict format_float c l text opts s).1.live ≡ elem p s.live
  unfolding predict with_callback
  predict-live l text opts s base tidy p =
      let po = with_tokens (new_predict_options opts) in
      let prompt = media_prompt c.media_marker po.media_paths text in
      let before = (set_given l.state po.token_callback s).1 in
      let after = (predict_with format_float c l prompt po before).1 in
      let h =
        predict_with-Owns s base l prompt po before tidy
          (set_given-Owns s base l.state po.token_callback) in
      ap (elem p) (unset_given-live s base l.state po.token_callback after)
      ∙ Owns-none s (λ q. false) after h (λ q. refl) p
