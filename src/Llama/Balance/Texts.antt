-- ===== src/Llama/Balance/Texts.antt =====
-- llama.go: ApplyChatTemplate, Detokenize, ModelInfo and BuiltinChatTemplates and the C heap.
use go_llama_cpp.Base.{
  ◌*◌, ℤ, is_zero, ◌≡◌, refl, sym, subst, Bool, false, Option, none, some, List, [], map, nat_beq,
  is_empty, Text, Result, length, arith, Bool-cases, inl, inr, ok, err,
}
use go_llama_cpp.Strings.{codes}
use go_llama_cpp.Llama.Types.{ChatMessage}
use go_llama_cpp.Llama.Native.{Reply, Native}
use go_llama_cpp.Llama.System.{System, Go, ◌>>=◌, return, Block, receive}
use go_llama_cpp.Llama.System.Heap.{Owns, receive-none, freed, Owns-freed}
use go_llama_cpp.Llama.Balance.{
  IsTidy, IsBalanced, IsTidy-IsBalanced, return-IsTidy, if-IsTidy, >>=-IsTidy, bracket-IsTidy,
  Owns-native,
}
use go_llama_cpp.Llama.Predict.{LLama}
use go_llama_cpp.Llama.Tokens.{replied, string_of, c_message, apply_chat_template, detokenize}
use go_llama_cpp.Llama.Info.{
  ModelInfo, decode_info, decode_templates, decoded_reply, model_info, templates_of,
  builtin_chat_templates,
}

-- The contract of a call without `error_out`: a string is put into `*result` only on success.
abbrev pub IsOut : {N : Type 0} → (N → Reply × N) → Type 0
IsOut {N} f = (n : N) → is_zero (f n).0.ret ≡ false → (f n).0.out ≡ none

-- A step on a reply that frees its string.
abbrev Frees : {N A : Type 0} → (ℤ × Option Block → Go N A) → Type 0
Frees {N} k =
    (ret : ℤ) (out : Option Block) (t : System N)
    → (is_zero ret ≡ false → out ≡ none)
    → (k (ret, out) t).1 ≡ freed out t

module _ {N : Type 0} (c : Native N) where
  string_of-Frees : (what : Text) → Frees (string_of c what)
  unfolding string_of freed
  string_of-Frees what ret none t h = ground arith
  string_of-Frees what ret (some (q, text)) t h = elim (Bool-cases (is_zero ret)) [
    | inl z ↦ rw z refl
    | inr z ↦ cc (h z)
  ]

  -- A call whose string is freed.
  call-IsTidy :
      {A : Type 0} (f : N → Reply × N) (k : ℤ × Option Block → Go N A)
      → IsOut f
      → Frees k
      → IsTidy (replied c f >>= k)
  unfolding receive
  call-IsTidy f k tidy frees s own t base h =
      let r = f t.native in
      let t' : System N = record t { native = r.1 } in
      let out = receive r.0.out t' in
      subst (Owns s own)
        (sym (frees r.0.ret out.0 out.1 (λ z. receive-none r.0.out t' (tidy t.native z))))
        (Owns-freed s own r.0.out t' base (Owns-native s own t r.1 h))

  templates_of-Frees : (json_error : Text → Text) → Frees (templates_of json_error c)
  unfolding templates_of freed string_of
  templates_of-Frees json_error ret none t h = ground arith
  templates_of-Frees json_error ret (some (q, text)) t h = elim (Bool-cases (is_zero ret)) [
    | inl z ↦ rw z refl
    | inr z ↦ cc (h z)
  ]

  abbrev not_loaded : {A : Type 0} → Result Text A
  not_loaded = err (codes "model is not loaded")

  apply_chat_template-IsTidy :
      (l : LLama) (messages : List ChatMessage) (prompt : Bool)
      → IsOut (c.apply_chat_template l.state (map (c_message c) messages) prompt)
      → IsTidy (apply_chat_template c l messages prompt)
  unfolding apply_chat_template
  apply_chat_template-IsTidy l messages prompt tidy =
      let call = c.apply_chat_template l.state (map (c_message c) messages) prompt in
      let what = codes "chat template formatting" in
      if-IsTidy (nat_beq l.state 0) _ _ (return-IsTidy {A = Result Text Text} not_loaded) (
        if-IsTidy (is_empty messages) _ _ (return-IsTidy {A = Result Text Text} (ok [])) (
          bracket-IsTidy (2 * length messages) (λ cs. replied c call >>= string_of c what)
            (λ cs. call-IsTidy call (string_of c what) tidy (string_of-Frees what))))

  detokenize-IsTidy :
      (l : LLama) (tokens : List ℤ) (remove_special unparse_special : Bool)
      → IsOut (c.detokenize_tokens l.state tokens remove_special unparse_special)
      → IsTidy (detokenize c l tokens remove_special unparse_special)
  unfolding detokenize
  detokenize-IsTidy l tokens rs us tidy =
      if-IsTidy (nat_beq l.state 0) _ _ (return-IsTidy {A = Result Text Text} not_loaded) (
        if-IsTidy (is_empty tokens) _ _ (return-IsTidy {A = Result Text Text} (ok [])) (
          call-IsTidy (c.detokenize_tokens l.state tokens rs us) (string_of c (codes "detokenize"))
            tidy (string_of-Frees (codes "detokenize"))))

  model_info-IsTidy :
      (json_error : Text → Text) (l : LLama)
      → IsOut (c.model_info_json l.state)
      → IsTidy (model_info json_error c l)
  unfolding model_info
  model_info-IsTidy json_error l tidy =
      if-IsTidy (nat_beq l.state 0) _ _ (return-IsTidy {A = Result Text ModelInfo} not_loaded) (
        >>=-IsTidy (replied c (c.model_info_json l.state) >>= string_of c (codes "model info"))
          (λ result. return (decoded_reply json_error c decode_info result))
          (call-IsTidy (c.model_info_json l.state) (string_of c (codes "model info")) tidy
            (string_of-Frees (codes "model info")))
          (λ result. return-IsTidy (decoded_reply json_error c decode_info result)))

  builtin_chat_templates-IsTidy :
      (json_error : Text → Text)
      → IsOut c.builtin_chat_templates_json
      → IsTidy (builtin_chat_templates json_error c)
  unfolding builtin_chat_templates
  builtin_chat_templates-IsTidy json_error tidy =
      >>=-IsTidy (replied c c.builtin_chat_templates_json >>= templates_of json_error c)
        (λ result. return (decoded_reply json_error c decode_templates result))
        (call-IsTidy c.builtin_chat_templates_json (templates_of json_error c) tidy
          (templates_of-Frees json_error))
        (λ result. return-IsTidy (decoded_reply json_error c decode_templates result))

  -- `ApplyChatTemplate`, `Detokenize`, `ModelInfo` and `BuiltinChatTemplates` leave the C heap as
  -- it was, on every path, if no block beyond the next new address was live, and if each call
  -- puts a string into its result only on success.
  pub texts-IsBalanced :
      (json_error : Text → Text) (l : LLama) (messages : List ChatMessage) (tokens : List ℤ)
      (flag other : Bool)
      → IsOut (c.apply_chat_template l.state (map (c_message c) messages) flag)
      → IsOut (c.detokenize_tokens l.state tokens flag other)
      → IsOut (c.model_info_json l.state)
      → IsOut c.builtin_chat_templates_json
      → IsBalanced (apply_chat_template c l messages flag)
        × IsBalanced (detokenize c l tokens flag other)
        × IsBalanced (model_info json_error c l)
        × IsBalanced (builtin_chat_templates json_error c)
  texts-IsBalanced json_error l messages tokens flag other h k m b = (
    IsTidy-IsBalanced (apply_chat_template c l messages flag)
        (apply_chat_template-IsTidy l messages flag h),
    IsTidy-IsBalanced (detokenize c l tokens flag other) (detokenize-IsTidy l tokens flag other k),
    IsTidy-IsBalanced (model_info json_error c l) (model_info-IsTidy json_error l m),
    IsTidy-IsBalanced (builtin_chat_templates json_error c)
        (builtin_chat_templates-IsTidy json_error b),
  )
