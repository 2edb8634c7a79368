-- ===== src/Llama/Native.antt =====
-- binding.h: the functions of the C library that llama.go calls.
use go_llama_cpp.Base.{ℕ, ℤ, Bool, Option, List, Text}
use go_llama_cpp.Options.Types.{Float32, TokenCallback}
use go_llama_cpp.Llama.Params.{CPredictParams}
use go_llama_cpp.Llama.Load.{LoadArgs}

-- What a call reports: its status, the string it puts into `*result`, and the one into
-- `*error_out`, each `none` where it leaves the pointer nil.
pub record Reply : Type 0 where
  pub ret : ℤ
  pub out : Option Text
  pub message : Option Text

-- `N` is the state of the library and of the files it reads and writes. A call that generates
-- tokens gets the callback that `tokenCallback` finds for its model.
pub record Native (N : Type 0) : Type 0 where
  pub load_model : LoadArgs → N → (ℕ × Option Text) × N
  pub load_mmproj : ℕ → Text → Bool → ℤ → N → Reply × N
  pub free_model : ℕ → N → N
  pub media_marker : Text
  pub supports_vision : ℕ → N → ℤ
  pub supports_audio : ℕ → N → ℤ
  pub load_state : ℕ → Text → Text → N → ℤ × N
  pub save_state : ℕ → Text → Text → N → ℤ × N
  pub embedding_size : ℕ → N → ℤ
  pub get_embeddings : CPredictParams → ℕ → ℤ → N → (Reply × List Float32) × N
  pub get_token_embeddings : CPredictParams → ℕ → List ℤ → ℤ → N → (Reply × List Float32) × N
  pub eval : CPredictParams → ℕ → TokenCallback → N → Reply × N
  pub predict : CPredictParams → ℕ → Bool → TokenCallback → N → Reply × N
  pub predict_mtmd : CPredictParams → ℕ → List Text → Bool → TokenCallback → N → Reply × N
  pub speculative_sampling : CPredictParams → ℕ → ℕ → Bool → TokenCallback → N → Reply × N
  pub apply_chat_template : ℕ → List (Text × Text) → Bool → N → Reply × N
  pub detokenize_tokens : ℕ → List ℤ → Bool → Bool → N → Reply × N
  pub tokenize_string : CPredictParams → ℕ → N → (ℤ × List ℤ) × N
  pub model_info_json : ℕ → N → Reply × N
  pub builtin_chat_templates_json : N → Reply × N
