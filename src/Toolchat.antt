-- ===== src/Toolchat.antt =====
-- The package toolchat: a tool-calling loop on a JSON protocol.
pub mod Types
pub mod Names
pub mod Tools
pub mod Envelope
pub mod Prompt
pub mod Grammar
pub mod Runner
pub mod Examples
