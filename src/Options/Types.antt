-- ===== src/Options/Types.antt =====
-- options.go: the types of the options, their named values and defaults.
-- A Go `int` is a ℤ; a `float32` is the number whose 32 bits are its IEEE pattern.
use go_llama_cpp.Base.{ℕ, ℤ, pos, negsuc, Bool, true, false, Option, none, List, [], ◌∷◌, Text}
use go_llama_cpp.Strings.{codes}

abbrev pub Float32 : Type 0
Float32 = ℕ

-- The callback is a function of the token alone.
abbrev pub TokenCallback : Type 0
TokenCallback = Text → Bool

abbrev pub PoolingType : Type 0
PoolingType = ℤ

abbrev pub pooling_unspecified : PoolingType
pooling_unspecified = negsuc 0

abbrev pub pooling_none : PoolingType
pooling_none = pos 0

abbrev pub pooling_mean : PoolingType
pooling_mean = pos 1

abbrev pub pooling_cls : PoolingType
pooling_cls = pos 2

abbrev pub pooling_last : PoolingType
pooling_last = pos 3

abbrev pub pooling_rank : PoolingType
pooling_rank = pos 4

abbrev pub AttentionType : Type 0
AttentionType = ℤ

abbrev pub attention_unspecified : AttentionType
attention_unspecified = negsuc 0

abbrev pub attention_causal : AttentionType
attention_causal = pos 0

abbrev pub attention_non_causal : AttentionType
attention_non_causal = pos 1

abbrev pub FlashAttentionType : Type 0
FlashAttentionType = ℤ

abbrev pub flash_attention_auto : FlashAttentionType
flash_attention_auto = negsuc 0

abbrev pub flash_attention_disabled : FlashAttentionType
flash_attention_disabled = pos 0

abbrev pub flash_attention_enabled : FlashAttentionType
flash_attention_enabled = pos 1

abbrev pub RopeScalingType : Type 0
RopeScalingType = ℤ

abbrev pub rope_scaling_unspecified : RopeScalingType
rope_scaling_unspecified = negsuc 0

abbrev pub rope_scaling_none : RopeScalingType
rope_scaling_none = pos 0

abbrev pub rope_scaling_linear : RopeScalingType
rope_scaling_linear = pos 1

abbrev pub rope_scaling_yarn : RopeScalingType
rope_scaling_yarn = pos 2

abbrev pub rope_scaling_long_rope : RopeScalingType
rope_scaling_long_rope = pos 3

pub record LogitBias : Type 0 where
  pub token : ℤ
  pub bias : Float32

pub record ModelOptions : Type 0 where
  pub context_size : ℤ
  pub seed : ℤ
  pub n_batch : ℤ
  pub nu_batch : ℤ
  pub n_seq_max : ℤ
  pub f16_memory : Bool
  pub mlock : Bool
  pub mmap : Bool
  pub low_vram : Bool
  pub embeddings : Bool
  pub numa : Bool
  pub n_gpu_layers : ℤ
  pub main_gpu : Text
  pub tensor_split : Text
  pub freq_rope_base : Float32
  pub freq_rope_scale : Float32
  pub rope_scaling : RopeScalingType
  pub pooling : PoolingType
  pub attention : AttentionType
  pub flash_attention : FlashAttentionType
  pub mul_mat_q : Option Bool
  pub lora_base : Text
  pub lora_adapter : Text
  pub perplexity : Bool
  pub mmproj : Text

pub record PredictOptions : Type 0 where
  pub seed : ℤ
  pub threads : ℤ
  pub tokens : ℤ
  pub top_k : ℤ
  pub repeat : ℤ
  pub batch : ℤ
  pub n_keep : ℤ
  pub top_p : Float32
  pub temperature : Float32
  pub penalty : Float32
  pub n_draft : ℤ
  pub f16_kv : Bool
  pub debug_mode : Bool
  pub stop_prompts : List Text
  pub ignore_eos : Bool
  pub tail_free_sampling_z : Float32
  pub typical_p : Float32
  pub min_p : Float32
  pub top_n_sigma : Float32
  pub xtc_probability : Float32
  pub xtc_threshold : Float32
  pub dynamic_temp_range : Float32
  pub dynamic_temp_exponent : Float32
  pub adaptive_p_target : Float32
  pub adaptive_p_decay : Float32
  pub dry_multiplier : Float32
  pub dry_base : Float32
  pub dry_allowed_length : ℤ
  pub dry_penalty_last_n : ℤ
  pub dry_sequence_breakers : List Text
  pub frequency_penalty : Float32
  pub presence_penalty : Float32
  pub mirostat : ℤ
  pub mirostat_eta : Float32
  pub mirostat_tau : Float32
  pub penalize_nl : Bool
  pub logit_bias : Text
  pub logit_biases : List LogitBias
  pub token_callback : Option TokenCallback
  pub path_prompt_cache : Text
  pub mlock : Bool
  pub mmap : Bool
  pub prompt_cache_all : Bool
  pub prompt_cache_ro : Bool
  pub grammar : Text
  pub main_gpu : Text
  pub tensor_split : Text
  pub media_paths : List Text
  pub rope_freq_base : Float32
  pub rope_freq_scale : Float32
  pub negative_prompt_scale : Float32
  pub negative_prompt : Text

abbrev pub ModelOption : Type 0
ModelOption = ModelOptions → ModelOptions

abbrev pub PredictOption : Type 0
PredictOption = PredictOptions → PredictOptions

abbrev pub default_model_options : ModelOptions
default_model_options = record {
  context_size = pos 512;
  seed = pos 0;
  n_batch = pos 512;
  nu_batch = pos 0;
  n_seq_max = pos 0;
  f16_memory = false;
  mlock = false;
  mmap = true;
  low_vram = false;
  embeddings = false;
  numa = false;
  n_gpu_layers = pos 0;
  main_gpu = [];
  tensor_split = [];
  freq_rope_base = 0;
  freq_rope_scale = 0;
  rope_scaling = rope_scaling_unspecified;
  pooling = pooling_unspecified;
  attention = attention_unspecified;
  flash_attention = flash_attention_auto;
  mul_mat_q = none;
  lora_base = [];
  lora_adapter = [];
  perplexity = false;
  mmproj = [];
}

abbrev pub default_options : PredictOptions
default_options = record {
  seed = negsuc 0;
  threads = pos 4;
  tokens = pos 128;
  top_k = pos 40;
  repeat = pos 64;
  batch = pos 512;
  n_keep = pos 64;
  top_p = 0x3f733333;
  temperature = 0x3f4ccccd;
  penalty = 0x3f8ccccd;
  n_draft = pos 0;
  f16_kv = false;
  debug_mode = false;
  stop_prompts = [];
  ignore_eos = false;
  tail_free_sampling_z = 0x3f800000;
  typical_p = 0x3f800000;
  min_p = 0;
  top_n_sigma = 0xbf800000;
  xtc_probability = 0;
  xtc_threshold = 0x3dcccccd;
  dynamic_temp_range = 0;
  dynamic_temp_exponent = 0x3f800000;
  adaptive_p_target = 0xbf800000;
  adaptive_p_decay = 0;
  dry_multiplier = 0;
  dry_base = 0x3fe00000;
  dry_allowed_length = pos 2;
  dry_penalty_last_n = negsuc 0;
  dry_sequence_breakers = codes "\n" ∷ codes ":" ∷ codes "\"" ∷ codes "*" ∷ [];
  frequency_penalty = 0;
  presence_penalty = 0;
  mirostat = pos 0;
  mirostat_eta = 0x3dcccccd;
  mirostat_tau = 0x40a00000;
  penalize_nl = false;
  logit_bias = [];
  logit_biases = [];
  token_callback = none;
  path_prompt_cache = [];
  mlock = false;
  mmap = true;
  prompt_cache_all = false;
  prompt_cache_ro = false;
  grammar = [];
  main_gpu = [];
  tensor_split = [];
  media_paths = [];
  rope_freq_base = 0;
  rope_freq_scale = 0;
  negative_prompt_scale = 0;
  negative_prompt = [];
}
