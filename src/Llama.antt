-- ===== src/Llama.antt =====
-- llama.go and pool.go: the package llama.
pub mod Types
pub mod Params
pub mod Load
pub mod System
pub mod Native
pub mod Model
pub mod Predict
pub mod Embeddings
pub mod Tokens
pub mod Info
pub mod Balance
pub mod Pool
pub mod Examples
