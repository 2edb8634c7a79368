-- ===== src/Toolchat/Runner.antt =====
-- toolchat/toolchat.go: Runner, prepare, executeToolCalls and Generate.
pub mod Config
pub mod Execute
pub mod Loop
