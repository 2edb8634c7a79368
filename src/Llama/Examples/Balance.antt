-- ===== src/Llama/Examples/Balance.antt =====
-- The C heap at small inputs.
use go_llama_cpp.Base.{ℕ, pos, true, ◌≡◌, refl, false, List, [], ◌∷◌, Text, text_eq, nat_eq}
use go_llama_cpp.Strings.{codes}
use go_llama_cpp.Options.Types.{TokenCallback}
use go_llama_cpp.Options.Predict.{set_token_callback, set_stop_words, new_predict_options}
use go_llama_cpp.Llama.Params.{CPredictParams}
use go_llama_cpp.Llama.Predict.{with_tokens, speculative_sampling}
use go_llama_cpp.Llama.System.Heap.{elem}
use go_llama_cpp.Llama.Model.{new}
use go_llama_cpp.Options.Model.{set_mmproj}
use go_llama_cpp.Llama.Tokens.{tokenize_string}
use go_llama_cpp.Llama.Params.{CPredictParams}
use go_llama_cpp.Llama.Types.{ChatMessage}
use go_llama_cpp.Llama.Tokens.{apply_chat_template, detokenize}
use go_llama_cpp.Llama.Info.{model_info, builtin_chat_templates}
use go_llama_cpp.Llama.Embeddings.{embeddings, token_embeddings}
use go_llama_cpp.Llama.Model.{load_state, save_state}
use go_llama_cpp.Llama.Predict.{eval}
use go_llama_cpp.Llama.Predict.Balance.Speculative.{IsSpeculation, speculative_sampling-live}
use go_llama_cpp.Llama.Balance.{IsBalanced}
use go_llama_cpp.Llama.Balance.Texts.{texts-IsBalanced}
use go_llama_cpp.Llama.Balance.Inference.{IsMessage, inference-IsBalanced}
use go_llama_cpp.Llama.Balance.Files.{files-IsBalanced}
use go_llama_cpp.Llama.Examples.{library, no_float, model, system, system-IsHeap, stopping}

abbrev greeting : List ChatMessage
greeting = record { role = codes "user"; content = codes "hi" } ∷ []

abbrev bad_document : Text → Text
bad_document text = codes "invalid character"

texts-IsBalanced_example :
    IsBalanced (apply_chat_template library model greeting true)
    × IsBalanced (detokenize library model (pos 1 ∷ []) true false)
    × IsBalanced (model_info bad_document library model)
    × IsBalanced (builtin_chat_templates bad_document library)
texts-IsBalanced_example =
    texts-IsBalanced library bad_document model greeting (pos 1 ∷ []) true false (λ n z. cc)
      (λ n z. cc) (λ n z. cc) (λ n z. cc)

library-IsMessage :
    (args : CPredictParams) (cb : TokenCallback) (n : ℕ)
    → IsMessage (library.eval args model.state cb n).0
library-IsMessage args cb n = record { quiet = refl; success = λ z. refl }

inference-IsBalanced_example :
    IsBalanced (eval no_float library model (codes "hi") stopping)
    × IsBalanced (embeddings no_float library model (codes "hi") stopping)
    × IsBalanced (token_embeddings no_float library model (pos 1 ∷ []) stopping)
    × IsBalanced (tokenize_string no_float library 4096 model (codes "hi") stopping)
inference-IsBalanced_example =
    inference-IsBalanced no_float library 4096 model (codes "hi") (pos 1 ∷ []) stopping
      library-IsMessage (λ n args m z. refl) (λ args m z. refl)

files-IsBalanced_example :
    IsBalanced (new library (codes "m.gguf") (set_mmproj (codes "p.gguf") ∷ []))
    × IsBalanced (load_state library model (codes "s"))
    × IsBalanced (save_state library model (codes "s"))
files-IsBalanced_example =
    files-IsBalanced library (codes "m.gguf") (set_mmproj (codes "p.gguf") ∷ []) model (codes "s")
      (λ n z. refl) (λ state path gpu threads n z. cc)

speculation :
    IsSpeculation no_float library model model (with_tokens (new_predict_options stopping))
unfolding with_tokens new_predict_options set_token_callback set_stop_words
speculation args cb n = record { success = λ z. refl; failure = λ z. cc }

speculative_sampling-live_example :
    elem 1 (speculative_sampling no_float library model model (codes "hi") stopping system).1.live
    ≡ elem 1 system.live
speculative_sampling-live_example =
    speculative_sampling-live no_float library model model (codes "hi") stopping system
      system-IsHeap speculation 1
