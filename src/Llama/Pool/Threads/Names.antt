-- ===== src/Llama/Pool/Threads/Names.antt =====
-- pool.go: what Names lists after any run of the steps.
use go_llama_cpp.Base.{ℕ, ◌≡◌, Bool, true, false, Option, none, some, Text, text_eq, text_beq}

abbrev pub is_found : Option ℕ → Bool
is_found none = false
is_found (some m) = true

abbrev IsOther : Text → Text → Type 0
IsOther n x = text_beq n x ≡ false
