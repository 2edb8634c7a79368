-- ===== src/Llama/Examples.antt =====
-- The package llama at small inputs.
mod Pools
mod Ledger
mod Balance
use go_llama_cpp.Base.{
  ℕ, suc, pos, Bool, true, not, ◌&&◌, ◌||◌, ◌≢◌, ◌↔◌, arith, nat_beq_iff, ◌≡◌, refl, false, none,
  some, List, [], ◌∷◌, ◌++◌, Text, Result, ok, lookup, insert, delete, text_eq, nat_eq, text_beq,
  nat_beq, if◌then◌else◌, IsSorted,
}
use go_llama_cpp.Strings.{codes}
use go_llama_cpp.Options.Types.{Float32, TokenCallback, PredictOption}
use go_llama_cpp.Options.Predict.{set_token_callback, set_stop_words, new_predict_options}
use go_llama_cpp.Llama.Params.{CPredictParams, c_predict_params}
use go_llama_cpp.Llama.Native.{Reply, Native}
use go_llama_cpp.Llama.System.{System}
use go_llama_cpp.Llama.Predict.{
  LLama, with_tokens, media_prompt, clean_prediction_result, called, predict, speculative_sampling,
}
use go_llama_cpp.Llama.Predict.Effects.{
  IsPrediction, predict-IsPrediction, speculative_sampling-IsPrediction,
}
use go_llama_cpp.Llama.Predict.Clean.{Cleaned, clean_prediction_result_iff}
use go_llama_cpp.Llama.Predict.Balance.{IsReply, predict-live}
use go_llama_cpp.Llama.System.Heap.{elem, IsHeap}
use go_llama_cpp.Llama.Model.{free_llama, new}
use go_llama_cpp.Llama.Model.Ledger.{IsLedger, IsNew, new-IsNew}
use go_llama_cpp.Llama.Load.{LoadArgs}
use go_llama_cpp.Options.Model.{set_mmproj}
use go_llama_cpp.Llama.Model.Laws.{free_llama_twice}
use go_llama_cpp.Llama.Tokens.{tokenize_options, tokenize_string}
use go_llama_cpp.Llama.Tokens.Laws.{IsTokenized, tokenize_string-IsTokenized}

abbrev pub reply : Text → Reply
reply text = record { ret = pos 0; out = some text; message = none }

abbrev pub refusal : Reply
refusal = record { ret = pos 1; out = none; message = some (codes "no") }

-- A library that predicts "token", or nothing where the callback stops it; the state counts calls.
abbrev said : TokenCallback → ℕ → Reply × ℕ
said callback n = (reply (if callback (codes "token") then codes "token" else []), suc n)

abbrev pub library : Native ℕ
library = record {
  load_model = λ args n. ((1, none), suc n);
  load_mmproj = λ state path gpu threads n. (refusal, n);
  free_model = λ state n. suc n;
  media_marker = codes "<__media__>";
  supports_vision = λ state n. pos 0;
  supports_audio = λ state n. pos 0;
  load_state = λ state path mode n. (pos 0, n);
  save_state = λ state path mode n. (pos 0, n);
  embedding_size = λ state n. pos 1;
  get_embeddings = λ args state size n. ((reply [], 0 ∷ []), n);
  get_token_embeddings = λ args state tokens count n. ((reply [], 0 ∷ []), n);
  eval = λ args state callback n. (record { ret = pos 0; out = none; message = none }, n);
  predict = λ args state debug callback n. said callback n;
  predict_mtmd = λ args state media debug callback n. said callback n;
  speculative_sampling = λ args state draft debug callback n. said callback n;
  apply_chat_template = λ state messages prompt n. (reply [], n);
  detokenize_tokens = λ state tokens remove unparse n. (reply [], n);
  tokenize_string = λ args state n. ((pos 0, []), n);
  model_info_json = λ state n. (reply (codes "{\"description\":\"d\"}"), n);
  builtin_chat_templates_json = λ n. (reply (codes "[\"chatml\"]"), n);
}

abbrev pub no_float : Float32 → Text
no_float f = []

abbrev pub model : LLama
model = record { state = 1; embeddings = false; context_size = pos 512 }

abbrev pub system : System ℕ
system = record { native = 0; callbacks = []; live = []; next = 1 }

abbrev pub stopping : List PredictOption
stopping = set_token_callback (some (λ token. false)) ∷ set_stop_words (codes "ken" ∷ []) ∷ []

predict-IsPrediction_example :
    let po = with_tokens (new_predict_options stopping) in
    let prompt = media_prompt library.media_marker po.media_paths (codes "hi") in
    IsPrediction
      (called library model.state po (c_predict_params no_float prompt po))
      model.state
      po
      system
      (predict no_float library model (codes "hi") stopping system)
predict-IsPrediction_example =
    predict-IsPrediction no_float library model (codes "hi") stopping system

speculative_sampling-IsPrediction_example :
    let po = with_tokens (new_predict_options stopping) in
    IsPrediction
      (library.speculative_sampling
        (c_predict_params no_float (codes "hi") po)
        model.state
        model.state
        po.debug_mode)
      model.state
      po
      system
      (speculative_sampling no_float library model model (codes "hi") stopping system)
speculative_sampling-IsPrediction_example =
    speculative_sampling-IsPrediction no_float library model model (codes "hi") stopping system

pub system-IsHeap : IsHeap system
system-IsHeap p h = refl

library-tidy :
    (args : CPredictParams) (cb : TokenCallback) (n : ℕ)
    → IsReply (called library model.state (with_tokens (new_predict_options stopping)) args cb n).0
unfolding called with_tokens new_predict_options set_token_callback set_stop_words
library-tidy args cb n = record { success = λ z. refl; failure = λ z. cc }

predict-live_example :
    elem 1 (predict no_float library model (codes "hi") stopping system).1.live ≡ elem 1 system.live
predict-live_example =
    predict-live no_float library model (codes "hi") stopping system system-IsHeap library-tidy 1

free_llama_twice_example :
    let once = free_llama library model system in
    (once.0.state ≡ 0)
    × (free_llama library once.0 once.1 ≡ once)
    × ((j : ℕ)
        → lookup j once.1.callbacks ≡ (
            if nat_beq 1 0
            then lookup j system.callbacks
            else if nat_beq 1 j
            then none
            else lookup j system.callbacks))
free_llama_twice_example = free_llama_twice library model system

tokenize_string-IsTokenized_example :
    IsTokenized 4096
      (tokenize_options (new_predict_options stopping)).tokens
      (tokenize_string no_float library 4096 model (codes "hi") stopping system).0
tokenize_string-IsTokenized_example =
    tokenize_string-IsTokenized no_float library 4096 model (codes "hi") stopping system

clean_prediction_result_example :
    Cleaned (codes "token") (codes "ken" ∷ codes "x" ∷ []) (codes "to")
    ↔ (codes "to" ≡ clean_prediction_result (codes "token") (codes "ken" ∷ codes "x" ∷ []))
clean_prediction_result_example =
    clean_prediction_result_iff (codes "token") (codes "ken" ∷ codes "x" ∷ []) (codes "to")
