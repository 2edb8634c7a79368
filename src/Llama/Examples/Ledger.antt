-- ===== src/Llama/Examples/Ledger.antt =====
-- New at a small library.
use go_llama_cpp.Base.{
  ℕ, pos, Bool, true, not, ◌&&◌, ◌||◌, ◌≢◌, arith, nat_beq_iff, ◌≡◌, refl, false, none, some, [],
  ◌∷◌, text_eq, nat_eq, nat_beq, if◌then◌else◌,
}
use go_llama_cpp.Strings.{codes}
use go_llama_cpp.Llama.Native.{Native}
use go_llama_cpp.Llama.System.{System}
use go_llama_cpp.Llama.Model.{new}
use go_llama_cpp.Llama.Model.Ledger.{IsLedger, IsNew, new-IsNew}
use go_llama_cpp.Llama.Load.{LoadArgs}
use go_llama_cpp.Options.Model.{set_mmproj}
use go_llama_cpp.Llama.Examples.{reply, refusal}

-- A library that holds one model, at the address 1, and has no projector.
abbrev single : Native Bool
single = record {
  load_model = λ args n. if n then ((0, some (codes "busy")), n) else ((1, none), true);
  load_mmproj = λ state path gpu threads n. (refusal, n);
  free_model = λ state n. n && not (nat_beq state 1);
  media_marker = [];
  supports_vision = λ state n. pos 0;
  supports_audio = λ state n. pos 0;
  load_state = λ state path mode n. (pos 0, n);
  save_state = λ state path mode n. (pos 0, n);
  embedding_size = λ state n. pos 1;
  get_embeddings = λ args state size n. ((reply [], 0 ∷ []), n);
  get_token_embeddings = λ args state tokens count n. ((reply [], 0 ∷ []), n);
  eval = λ args state callback n. (refusal, n);
  predict = λ args state debug callback n. (refusal, n);
  predict_mtmd = λ args state media debug callback n. (refusal, n);
  speculative_sampling = λ args state draft debug callback n. (refusal, n);
  apply_chat_template = λ state messages prompt n. (reply [], n);
  detokenize_tokens = λ state tokens remove unparse n. (reply [], n);
  tokenize_string = λ args state n. ((pos 0, []), n);
  model_info_json = λ state n. (reply (codes "{\"description\":\"d\"}"), n);
  builtin_chat_templates_json = λ n. (reply (codes "[\"chatml\"]"), n);
}

abbrev is_held : Bool → ℕ → Bool
is_held n p = n && nat_beq p 1

refused_lem :
    (args : LoadArgs) (n : Bool)
    → (single.load_model args n).0.0 ≡ 0
    → (p : ℕ) → is_held (single.load_model args n).1 p ≡ is_held n p
refused_lem args true h p = refl
refused_lem args false h p = absurd (omega (arith, h))

loaded_lem :
    (args : LoadArgs) (n : Bool)
    → (single.load_model args n).0.0 ≢ 0
    → (is_held n (single.load_model args n).0.0 ≡ false)
      × ((p : ℕ)
          → is_held (single.load_model args n).1 p
            ≡ (nat_beq p (single.load_model args n).0.0 || is_held n p))
loaded_lem args true h = absurd (h refl)
loaded_lem args false h = (refl, λ p. ground arith)

single-IsLedger : IsLedger single is_held
single-IsLedger = record {
  refused = refused_lem;
  loaded = loaded_lem;
  projector = λ state path gpu threads n p. refl;
  freed = λ state n p. ground (arith, nat_beq_iff p 1, nat_beq_iff state 1, nat_beq_iff p state);
}

abbrev empty_system : System Bool
empty_system = record { native = false; callbacks = []; live = []; next = 1 }

-- The projector is missing, so the model is closed again.
new-IsNew_example :
    let out = new single (codes "m.gguf") (set_mmproj (codes "p.gguf") ∷ []) empty_system in
    IsNew is_held false out.0 out.1.native
new-IsNew_example =
    new-IsNew single is_held single-IsLedger (codes "m.gguf") (set_mmproj (codes "p.gguf") ∷ [])
      empty_system
