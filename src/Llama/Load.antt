-- ===== src/Llama/Load.antt =====
-- llama.go: what New gives to `load_model`, in its order.
use go_llama_cpp.Base.{ℤ, c_int, Bool, true, Option, none, some, Text}
use go_llama_cpp.Options.Types.{Float32, ModelOptions}
use go_llama_cpp.Llama.Params.{c_string}

pub record LoadArgs : Type 0 where
  pub path : Text
  pub context_size : ℤ
  pub seed : ℤ
  pub f16_memory : Bool
  pub mlock : Bool
  pub embeddings : Bool
  pub mmap : Bool
  pub low_vram : Bool
  pub n_gpu_layers : ℤ
  pub n_batch : ℤ
  pub main_gpu : Text
  pub tensor_split : Text
  pub numa : Bool
  pub freq_rope_base : Float32
  pub freq_rope_scale : Float32
  pub rope_scaling : ℤ
  pub pooling : ℤ
  pub attention : ℤ
  pub flash_attention : ℤ
  pub nu_batch : ℤ
  pub n_seq_max : ℤ
  pub mul_mat_q : Bool
  pub lora_adapter : Text
  pub lora_base : Text
  pub perplexity : Bool

-- `MulMatQ`: true where the option is not set.
abbrev mul_mat_q_or_true : Option Bool → Bool
mul_mat_q_or_true none = true
mul_mat_q_or_true (some b) = b

unfoldable pub load_args : Text → ModelOptions → LoadArgs
unfolding c_string c_int
load_args path mo = record {
  path = c_string path;
  context_size = c_int mo.context_size;
  seed = c_int mo.seed;
  f16_memory = mo.f16_memory;
  mlock = mo.mlock;
  embeddings = mo.embeddings;
  mmap = mo.mmap;
  low_vram = mo.low_vram;
  n_gpu_layers = c_int mo.n_gpu_layers;
  n_batch = c_int mo.n_batch;
  main_gpu = c_string mo.main_gpu;
  tensor_split = c_string mo.tensor_split;
  numa = mo.numa;
  freq_rope_base = mo.freq_rope_base;
  freq_rope_scale = mo.freq_rope_scale;
  rope_scaling = c_int mo.rope_scaling;
  pooling = c_int mo.pooling;
  attention = c_int mo.attention;
  flash_attention = c_int mo.flash_attention;
  nu_batch = c_int mo.nu_batch;
  n_seq_max = c_int mo.n_seq_max;
  mul_mat_q = mul_mat_q_or_true mo.mul_mat_q;
  lora_adapter = c_string mo.lora_adapter;
  lora_base = c_string mo.lora_base;
  perplexity = mo.perplexity;
}
