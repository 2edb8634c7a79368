-- ===== src/Options/Predict.antt =====
-- options.go: the options of a prediction. An option is a function on the record, as in the source,
-- where it writes through a pointer.
use go_llama_cpp.Base.{ℤ, Bool, true, Option, List, [], ◌∷◌, ◌++◌, Text}
use go_llama_cpp.Options.Types.{
  Float32, TokenCallback, LogitBias, PredictOption, PredictOptions, default_options,
}

unfoldable pub set_prediction_tensor_split : Text → PredictOption
set_prediction_tensor_split maingpu p = record p { tensor_split = maingpu }

unfoldable pub set_prediction_main_gpu : Text → PredictOption
set_prediction_main_gpu maingpu p = record p { main_gpu = maingpu }

unfoldable pub set_rope_freq_base : Float32 → PredictOption
set_rope_freq_base rfb p = record p { rope_freq_base = rfb }

unfoldable pub set_rope_freq_scale : Float32 → PredictOption
set_rope_freq_scale rfs p = record p { rope_freq_scale = rfs }

unfoldable pub set_n_draft : ℤ → PredictOption
set_n_draft nd p = record p { n_draft = nd }

unfoldable pub set_negative_prompt_scale : Float32 → PredictOption
set_negative_prompt_scale nps p = record p { negative_prompt_scale = nps }

unfoldable pub set_negative_prompt : Text → PredictOption
set_negative_prompt np p = record p { negative_prompt = np }

unfoldable pub enable_f16_kv : PredictOption
enable_f16_kv p = record p { f16_kv = true }

unfoldable pub debug : PredictOption
debug p = record p { debug_mode = true }

unfoldable pub enable_prompt_cache_all : PredictOption
enable_prompt_cache_all p = record p { prompt_cache_all = true }

unfoldable pub enable_prompt_cache_ro : PredictOption
enable_prompt_cache_ro p = record p { prompt_cache_ro = true }

unfoldable pub ignore_eos : PredictOption
ignore_eos p = record p { ignore_eos = true }

unfoldable pub with_grammar : Text → PredictOption
with_grammar s p = record p { grammar = s }

unfoldable pub with_media : List Text → PredictOption
with_media paths p = record p { media_paths = p.media_paths ++ paths }

unfoldable pub set_mlock : Bool → PredictOption
set_mlock b p = record p { mlock = b }

unfoldable pub set_memory_map : Bool → PredictOption
set_memory_map b p = record p { mmap = b }

unfoldable pub set_token_callback : Option TokenCallback → PredictOption
set_token_callback fn p = record p { token_callback = fn }

unfoldable pub set_stop_words : List Text → PredictOption
set_stop_words stop p = record p { stop_prompts = stop }

unfoldable pub set_seed : ℤ → PredictOption
set_seed seed p = record p { seed = seed }

unfoldable pub set_threads : ℤ → PredictOption
set_threads threads p = record p { threads = threads }

unfoldable pub set_tokens : ℤ → PredictOption
set_tokens tokens p = record p { tokens = tokens }

unfoldable pub set_top_k : ℤ → PredictOption
set_top_k topk p = record p { top_k = topk }

unfoldable pub set_top_p : Float32 → PredictOption
set_top_p topp p = record p { top_p = topp }

unfoldable pub set_temperature : Float32 → PredictOption
set_temperature temp p = record p { temperature = temp }

unfoldable pub set_path_prompt_cache : Text → PredictOption
set_path_prompt_cache f p = record p { path_prompt_cache = f }

unfoldable pub set_penalty : Float32 → PredictOption
set_penalty penalty p = record p { penalty = penalty }

unfoldable pub set_repeat : ℤ → PredictOption
set_repeat repeat p = record p { repeat = repeat }

unfoldable pub set_batch : ℤ → PredictOption
set_batch size p = record p { batch = size }

unfoldable pub set_n_keep : ℤ → PredictOption
set_n_keep n p = record p { n_keep = n }

unfoldable pub set_tail_free_sampling_z : Float32 → PredictOption
set_tail_free_sampling_z tfz p = record p { tail_free_sampling_z = tfz }

unfoldable pub set_typical_p : Float32 → PredictOption
set_typical_p tp p = record p { typical_p = tp }

unfoldable pub set_min_p : Float32 → PredictOption
set_min_p mp p = record p { min_p = mp }

unfoldable pub set_top_n_sigma : Float32 → PredictOption
set_top_n_sigma tns p = record p { top_n_sigma = tns }

unfoldable pub set_xtc : Float32 → Float32 → PredictOption
set_xtc probability threshold p = record p {
  xtc_probability = probability;
  xtc_threshold = threshold;
}

unfoldable pub set_dynamic_temperature : Float32 → Float32 → PredictOption
set_dynamic_temperature delta exponent p = record p {
  dynamic_temp_range = delta;
  dynamic_temp_exponent = exponent;
}

unfoldable pub set_adaptive_p : Float32 → Float32 → PredictOption
set_adaptive_p target decay p = record p { adaptive_p_target = target; adaptive_p_decay = decay }

unfoldable pub set_dry : Float32 → Float32 → ℤ → ℤ → PredictOption
set_dry multiplier base allowed_length penalty_last_n p = record p {
  dry_multiplier = multiplier;
  dry_base = base;
  dry_allowed_length = allowed_length;
  dry_penalty_last_n = penalty_last_n;
}

unfoldable pub set_dry_sequence_breakers : List Text → PredictOption
set_dry_sequence_breakers breakers p = record p { dry_sequence_breakers = breakers }

unfoldable pub set_frequency_penalty : Float32 → PredictOption
set_frequency_penalty fp p = record p { frequency_penalty = fp }

unfoldable pub set_presence_penalty : Float32 → PredictOption
set_presence_penalty pp p = record p { presence_penalty = pp }

unfoldable pub set_mirostat : ℤ → PredictOption
set_mirostat m p = record p { mirostat = m }

unfoldable pub set_mirostat_eta : Float32 → PredictOption
set_mirostat_eta me p = record p { mirostat_eta = me }

unfoldable pub set_mirostat_tau : Float32 → PredictOption
set_mirostat_tau mt p = record p { mirostat_tau = mt }

unfoldable pub set_penalize_nl : Bool → PredictOption
set_penalize_nl pnl p = record p { penalize_nl = pnl }

unfoldable pub set_logit_bias : Text → PredictOption
set_logit_bias lb p = record p { logit_bias = lb }

unfoldable pub set_logit_bias_token : ℤ → Float32 → PredictOption
set_logit_bias_token token bias p = record p {
  logit_biases = p.logit_biases ++ record { token = token; bias = bias } ∷ [];
}

unfoldable pub set_logit_biases : List LogitBias → PredictOption
set_logit_biases biases p = record p { logit_biases = p.logit_biases ++ biases }

unfoldable pub apply_predict_options : PredictOptions → List PredictOption → PredictOptions
apply_predict_options p [] = p
apply_predict_options p (opt ∷ opts) = apply_predict_options (opt p) opts

-- `NewPredictOptions`
unfoldable pub new_predict_options : List PredictOption → PredictOptions
unfolding apply_predict_options
new_predict_options opts = apply_predict_options default_options opts
