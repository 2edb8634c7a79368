-- ===== src/Toolchat/Envelope.antt =====
-- toolchat/toolchat.go: parseEnvelope and the functions below it; toolchat/protocol.go: ParseEnvelope.
pub mod Extract
pub mod Decode
pub mod Calls
pub mod Parse
