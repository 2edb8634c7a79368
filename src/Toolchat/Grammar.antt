-- ===== src/Toolchat/Grammar.antt =====
-- toolchat/schema_grammar.go, and EnvelopeGrammar of toolchat/toolchat.go: GBNF grammars.
pub mod Lexical
pub mod Document
pub mod Bodies
pub mod Converter
pub mod Fuel
pub mod Compile
pub mod Rules
pub mod Envelope
mod Tests
