-- ===== src/Options.antt =====
-- options.go: the options of a model and of a prediction.
pub mod Types
pub mod Model
pub mod Predict
