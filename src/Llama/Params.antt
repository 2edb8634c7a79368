-- ===== src/Llama/Params.antt =====
-- llama.go: cPredictParams, newCPredictParams and formatLogitBias. The record is what
-- `llama_allocate_params` is given, in its order.
use go_llama_cpp.Base.{
  ℤ, pos, negsuc, ◌+◌, c_int, Bool, List, [], ◌∷◌, ◌++◌, map, nat_beq, if◌then◌else◌, Text, length,
  is_empty,
}
use go_llama_cpp.Strings.{join, itoa}
use go_llama_cpp.Options.Types.{Float32, LogitBias, PredictOptions}

-- What C reads of a string: all up to the first NUL.
unfoldable pub c_string : Text → Text
c_string [] = []
c_string (c ∷ s) = let rest = c_string s in if nat_beq c 0 then [] else c ∷ rest

-- `strconv.Itoa`
abbrev pub itoa_ℤ : ℤ → Text
itoa_ℤ (pos n) = itoa n
itoa_ℤ (negsuc n) = b'-' ∷ itoa (n + 1)

pub record CPredictParams : Type 0 where
  pub prompt : Text
  pub seed : ℤ
  pub threads : ℤ
  pub tokens : ℤ
  pub top_k : ℤ
  pub top_p : Float32
  pub temperature : Float32
  pub penalty : Float32
  pub repeat : ℤ
  pub ignore_eos : Bool
  pub f16_kv : Bool
  pub batch : ℤ
  pub n_keep : ℤ
  pub reverse_prompt : List Text
  pub reverse_count : ℤ
  pub tail_free_sampling_z : Float32
  pub typical_p : Float32
  pub min_p : Float32
  pub top_n_sigma : Float32
  pub xtc_probability : Float32
  pub xtc_threshold : Float32
  pub dynamic_temp_range : Float32
  pub dynamic_temp_exponent : Float32
  pub adaptive_p_target : Float32
  pub adaptive_p_decay : Float32
  pub dry_multiplier : Float32
  pub dry_base : Float32
  pub dry_allowed_length : ℤ
  pub dry_penalty_last_n : ℤ
  pub dry_breakers : Text
  pub frequency_penalty : Float32
  pub presence_penalty : Float32
  pub mirostat : ℤ
  pub mirostat_eta : Float32
  pub mirostat_tau : Float32
  pub penalize_nl : Bool
  pub logit_bias : Text
  pub path_prompt_cache : Text
  pub prompt_cache_all : Bool
  pub mlock : Bool
  pub mmap : Bool
  pub main_gpu : Text
  pub tensor_split : Text
  pub prompt_cache_ro : Bool
  pub grammar : Text
  pub rope_freq_base : Float32
  pub rope_freq_scale : Float32
  pub negative_prompt_scale : Float32
  pub negative_prompt : Text
  pub n_draft : ℤ

module _ (format_float : Float32 → Text) where
  bias_parts : List LogitBias → List Text
  unfolding itoa
  bias_parts [] = []
  bias_parts (b ∷ bs) = (itoa_ℤ b.token ++ (b':' ∷ format_float b.bias)) ∷ bias_parts bs

  -- `formatLogitBias`; `strconv.FormatFloat` of a float32 is an argument.
  unfoldable pub format_logit_bias : PredictOptions → Text
  unfolding bias_parts join
  format_logit_bias po =
      join
        ((if is_empty po.logit_bias then [] else po.logit_bias ∷ []) ++ bias_parts po.logit_biases)
        (b',' ∷ [])

  unfoldable pub c_predict_params : Text → PredictOptions → CPredictParams
  unfolding c_string c_int format_logit_bias join
  c_predict_params prompt po = record {
    prompt = c_string prompt;
    seed = c_int po.seed;
    threads = c_int po.threads;
    tokens = c_int po.tokens;
    top_k = c_int po.top_k;
    top_p = po.top_p;
    temperature = po.temperature;
    penalty = po.penalty;
    repeat = c_int po.repeat;
    ignore_eos = po.ignore_eos;
    f16_kv = po.f16_kv;
    batch = c_int po.batch;
    n_keep = c_int po.n_keep;
    reverse_prompt = map c_string po.stop_prompts;
    reverse_count = c_int (pos (length po.stop_prompts));
    tail_free_sampling_z = po.tail_free_sampling_z;
    typical_p = po.typical_p;
    min_p = po.min_p;
    top_n_sigma = po.top_n_sigma;
    xtc_probability = po.xtc_probability;
    xtc_threshold = po.xtc_threshold;
    dynamic_temp_range = po.dynamic_temp_range;
    dynamic_temp_exponent = po.dynamic_temp_exponent;
    adaptive_p_target = po.adaptive_p_target;
    adaptive_p_decay = po.adaptive_p_decay;
    dry_multiplier = po.dry_multiplier;
    dry_base = po.dry_base;
    dry_allowed_length = c_int po.dry_allowed_length;
    dry_penalty_last_n = c_int po.dry_penalty_last_n;
    dry_breakers = c_string (join po.dry_sequence_breakers (0x1f ∷ []));
    frequency_penalty = po.frequency_penalty;
    presence_penalty = po.presence_penalty;
    mirostat = c_int po.mirostat;
    mirostat_eta = po.mirostat_eta;
    mirostat_tau = po.mirostat_tau;
    penalize_nl = po.penalize_nl;
    logit_bias = c_string (format_logit_bias po);
    path_prompt_cache = c_string po.path_prompt_cache;
    prompt_cache_all = po.prompt_cache_all;
    mlock = po.mlock;
    mmap = po.mmap;
    main_gpu = c_string po.main_gpu;
    tensor_split = c_string po.tensor_split;
    prompt_cache_ro = po.prompt_cache_ro;
    grammar = c_string po.grammar;
    rope_freq_base = po.rope_freq_base;
    rope_freq_scale = po.rope_freq_scale;
    negative_prompt_scale = po.negative_prompt_scale;
    negative_prompt = c_string po.negative_prompt;
    n_draft = c_int po.n_draft;
  }
