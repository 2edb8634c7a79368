-- ===== src/Options/Model.antt =====
-- options.go: the options of a model. An option is a function on the record, as in the source,
-- where it writes through a pointer.
use go_llama_cpp.Base.{ℤ, Bool, true, some, List, [], ◌∷◌, Text}
use go_llama_cpp.Options.Types.{
  Float32, RopeScalingType, PoolingType, AttentionType, FlashAttentionType, ModelOption,
  ModelOptions, default_model_options,
}

unfoldable pub set_mul_mat_q : Bool → ModelOption
set_mul_mat_q b p = record p { mul_mat_q = some b }

unfoldable pub set_lora_base : Text → ModelOption
set_lora_base s p = record p { lora_base = s }

unfoldable pub set_lora_adapter : Text → ModelOption
set_lora_adapter s p = record p { lora_adapter = s }

unfoldable pub set_context : ℤ → ModelOption
set_context c p = record p { context_size = c }

unfoldable pub with_rope_freq_base : Float32 → ModelOption
with_rope_freq_base f p = record p { freq_rope_base = f }

unfoldable pub with_rope_freq_scale : Float32 → ModelOption
with_rope_freq_scale f p = record p { freq_rope_scale = f }

unfoldable pub set_model_seed : ℤ → ModelOption
set_model_seed c p = record p { seed = c }

unfoldable pub set_mmap : Bool → ModelOption
set_mmap b p = record p { mmap = b }

unfoldable pub set_n_batch : ℤ → ModelOption
set_n_batch n_batch p = record p { n_batch = n_batch }

unfoldable pub set_nu_batch : ℤ → ModelOption
set_nu_batch n_ubatch p = record p { nu_batch = n_ubatch }

unfoldable pub set_n_seq_max : ℤ → ModelOption
set_n_seq_max n_seq_max p = record p { n_seq_max = n_seq_max }

unfoldable pub set_rope_scaling : RopeScalingType → ModelOption
set_rope_scaling t p = record p { rope_scaling = t }

unfoldable pub set_pooling_type : PoolingType → ModelOption
set_pooling_type t p = record p { pooling = t }

unfoldable pub set_attention_type : AttentionType → ModelOption
set_attention_type t p = record p { attention = t }

unfoldable pub set_flash_attention : FlashAttentionType → ModelOption
set_flash_attention t p = record p { flash_attention = t }

unfoldable pub set_tensor_split : Text → ModelOption
set_tensor_split maingpu p = record p { tensor_split = maingpu }

unfoldable pub set_main_gpu : Text → ModelOption
set_main_gpu maingpu p = record p { main_gpu = maingpu }

unfoldable pub set_perplexity : Bool → ModelOption
set_perplexity b p = record p { perplexity = b }

unfoldable pub set_mmproj : Text → ModelOption
set_mmproj path p = record p { mmproj = path }

unfoldable pub enabel_low_vram : ModelOption
enabel_low_vram p = record p { low_vram = true }

unfoldable pub enable_numa : ModelOption
enable_numa p = record p { numa = true }

unfoldable pub enable_embeddings : ModelOption
enable_embeddings p = record p { embeddings = true }

unfoldable pub enable_f16_memory : ModelOption
enable_f16_memory p = record p { f16_memory = true }

unfoldable pub enable_mlock : ModelOption
enable_mlock p = record p { mlock = true }

unfoldable pub set_gpu_layers : ℤ → ModelOption
set_gpu_layers n p = record p { n_gpu_layers = n }

apply_model_options : ModelOptions → List ModelOption → ModelOptions
apply_model_options p [] = p
apply_model_options p (opt ∷ opts) = apply_model_options (opt p) opts

-- `NewModelOptions`
unfoldable pub new_model_options : List ModelOption → ModelOptions
unfolding apply_model_options
new_model_options opts = apply_model_options default_model_options opts
