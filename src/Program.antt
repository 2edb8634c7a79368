-- ===== src/Program.antt =====
-- examples/main.go: the example program, which predicts from prompts of several lines. Reads of the
-- terminal are its input; what it prints is left out.
pub mod Laws
mod Examples
use go_llama_cpp.Base.{
  ℕ, zero, suc, ℤ, pos, negsuc, true, Option, none, some, List, [], ◌∷◌, ◌++◌, if◌then◌else◌, Text,
  is_empty, length, Result, ok, err,
}
use go_llama_cpp.Strings.{codes, trim_space, join}
use go_llama_cpp.Options.Types.{Float32, ModelOption, PredictOption}
use go_llama_cpp.Options.Model.{enable_f16_memory, set_context, enable_embeddings, set_gpu_layers}
use go_llama_cpp.Options.Predict.{
  debug, set_token_callback, set_tokens, set_threads, set_top_k, set_top_p, set_stop_words,
  set_seed,
}
use go_llama_cpp.Llama.Native.{Native}
use go_llama_cpp.Llama.System.{Go, ◌>>=◌, return}
use go_llama_cpp.Llama.Predict.{LLama, predict}
use go_llama_cpp.Llama.Embeddings.{embeddings}
use go_llama_cpp.Llama.Model.{new}

-- The variables that the flags set.
pub record Flags : Type 0 where
  pub model : Text
  pub gpulayers : ℤ
  pub threads : ℤ
  pub tokens : ℤ
  pub seed : ℤ

-- Without flags; `cpus` is `runtime.NumCPU()`.
abbrev pub default_flags : ℤ → Flags
default_flags cpus = record {
  model = codes "./models/7B/model.gguf";
  gpulayers = pos 0;
  threads = cpus;
  tokens = pos 512;
  seed = negsuc 0;
}

-- What `reader.ReadString` gives: a line with its end, or an error. After the last one comes
-- `io.EOF`, which takes a last line without an end with it.
pub data Input : Type 0 where
  line : Text → Input
  failure : Text → Input

-- What `readMultiLineInput` does: it returns a prompt, with the rest of the input, or exits.
pub data Read : Type 0 where
  sent : Text → List Input → Read
  exited : ℕ → Read

-- The loop, with `lines`.
unfoldable pub read_lines : List Text → List Input → Read
unfolding trim_space join
read_lines lines [] = exited 0
read_lines lines (failure e ∷ input) = exited 1
read_lines lines (line text ∷ input) =
    let more = read_lines (lines ++ text ∷ []) input in
    if is_empty (trim_space text) then sent (join lines []) input else more

unfoldable pub read_multi_line_input : List Input → Read
unfolding read_lines
read_multi_line_input input = read_lines [] input

-- How the program ends.
pub data Outcome : Type 0 where
  exit : ℕ → Outcome
  panicked : Text → Outcome
  out_of_fuel : Outcome

abbrev pub model_options : Flags → List ModelOption
model_options flags =
    enable_f16_memory
    ∷ set_context (pos 128)
    ∷ enable_embeddings
    ∷ set_gpu_layers flags.gpulayers
    ∷ []

-- 0.86 as a float32.
abbrev pub top_p : Float32
top_p = 0x3f5c28f6

abbrev pub predict_options : Flags → List PredictOption
predict_options flags =
    debug
    ∷ set_token_callback (some (λ token. true))
    ∷ set_tokens flags.tokens
    ∷ set_threads flags.threads
    ∷ set_top_k (pos 90)
    ∷ set_top_p top_p
    ∷ set_stop_words (codes "llama" ∷ [])
    ∷ set_seed flags.seed
    ∷ []

module _ {N : Type 0} (format_float : Float32 → Text) (c : Native N) (flags : Flags) where
  -- After `Predict`: the embeddings, and what comes after them.
  unfoldable pub after_predict : LLama → Text → Go N Outcome → Result Text Text → Go N Outcome
  unfolding embeddings
  after_predict l text next (err e) = return (panicked e)
  after_predict l text next (ok prediction) = embeddings format_float c l text [] >>= λ embeds. next

  -- One prompt, and what comes after it unless the prediction fails.
  unfoldable pub answer : LLama → Text → Go N Outcome → Go N Outcome
  unfolding predict after_predict
  answer l text next =
      predict format_float c l text (predict_options flags) >>= after_predict l text next

  -- The loop of `main`.
  unfoldable pub session : ℕ → LLama → List Input → Go N Outcome
  unfolding answer read_multi_line_input
  session zero l input = return out_of_fuel
  session (suc fuel) l input = elim (read_multi_line_input input) [
    | exited code ↦ return (exit code)
    | sent text rest ↦ answer l text (session fuel l rest)
  ]

  -- After `New`; each prompt takes a line at least.
  unfoldable pub after_load : List Input → Result Text LLama → Go N Outcome
  unfolding session
  after_load input (err e) = return (exit 1)
  after_load input (ok l) = session (suc (length input)) l input

  -- `main` after the flags
  unfoldable pub run : List Input → Go N Outcome
  unfolding new after_load
  run input = new c flags.model (model_options flags) >>= after_load input
