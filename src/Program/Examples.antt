-- ===== src/Program/Examples.antt =====
-- examples/main.go at small inputs.
use go_llama_cpp.Base.{pos, ◌≡◌, refl, List, [], ◌∷◌}
use go_llama_cpp.Strings.{codes}
use go_llama_cpp.Options.Model.{enable_f16_memory, set_context, enable_embeddings, set_gpu_layers}
use go_llama_cpp.Options.Predict.{
  debug, set_token_callback, set_tokens, set_threads, set_top_k, set_top_p, set_stop_words,
  set_seed,
}
use go_llama_cpp.Llama.System.{◌>>=◌}
use go_llama_cpp.Llama.Model.{new}
use go_llama_cpp.Llama.Examples.{library, no_float, system}
use go_llama_cpp.Program.{
  Flags, default_flags, Input, line, failure, exit, model_options, sent, read_multi_line_input, run,
}
use go_llama_cpp.Program.Laws.{prompts, exit_code, answers, run-answers, IsEnd, run-IsEnd}

abbrev flags : Flags
flags = default_flags (pos 8)

-- A prompt of two lines, and a line that no blank line follows.
abbrev input : List Input
input = line (codes "a\n") ∷ line (codes "b\n") ∷ line (codes " \n") ∷ line (codes "c\n") ∷ []

first_prompt : read_multi_line_input input ≡ sent (codes "a\nb\n") (line (codes "c\n") ∷ [])
unfolding read_multi_line_input
first_prompt = refl

-- The last line is in no prompt.
two_lines : prompts input ≡ codes "a\nb\n" ∷ []
unfolding prompts
two_lines = refl

broken : exit_code (line (codes "a\n") ∷ failure (codes "no") ∷ []) ≡ 1
broken = refl

run-answers_example :
    run no_float library flags input system
    ≡ (new library flags.model (model_options flags) >>= answers no_float library flags input)
        system
run-answers_example = run-answers no_float library flags input system

run_end : (run no_float library flags input system).0 ≡ exit 0
unfolding run set_gpu_layers enable_embeddings set_context enable_f16_memory set_seed set_stop_words
    set_top_p set_top_k set_threads set_tokens set_token_callback debug
run_end = refl

run-IsEnd_example :
    IsEnd no_float library flags input
      (new library flags.model (model_options flags) system).0
      (run no_float library flags input system).0
run-IsEnd_example = run-IsEnd no_float library flags input system
