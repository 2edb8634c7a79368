-- ===== src/Llama/Types.antt =====
-- llama.go: ChatMessage.
use go_llama_cpp.Base.{Text}

pub record ChatMessage : Type 0 where
  pub role : Text
  pub content : Text
