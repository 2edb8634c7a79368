-- ===== src/Llama/Tokens/Laws.antt =====
-- llama.go: what TokenizeString may return.
use go_llama_cpp.Base.{
  ℕ, zero, suc, ltb, Bool-cases, inl, inr, ◌<◌, ◌≤◌, ◌≡◌, refl, ℤ, pos, negsuc, is_negative, true,
  List, [], ◌∷◌, Text, length, take, arith,
}
use go_llama_cpp.Options.Types.{Float32, PredictOption}
use go_llama_cpp.Options.Predict.{new_predict_options}
use go_llama_cpp.Llama.Native.{Native}
use go_llama_cpp.Llama.System.{System}
use go_llama_cpp.Llama.Predict.{LLama}
use go_llama_cpp.Llama.Tokens.{
  Tokenized, tokenized, refused, panicked, tokenize_options, counted, tokenize_with,
  tokenize_string,
}

length-take : (n : ℕ) (xs : List ℤ) → length (take n xs) ≤ n
length-take zero xs = omega arith
length-take (suc n) [] = omega arith
length-take (suc n) (x ∷ xs) = omega (arith, length-take n xs)

length-take_le : (n : ℕ) (xs : List ℤ) → length (take n xs) ≤ length xs
length-take_le zero xs = omega arith
length-take_le (suc n) [] = omega arith
length-take_le (suc n) (x ∷ xs) = omega (arith, length-take_le n xs)

-- What is allowed for a buffer of `tokens` numbers, where none is longer than `longest`.
abbrev pub IsTokenized : ℕ → ℤ → Tokenized → Type 0
IsTokenized longest (negsuc n) out = out ≡ panicked
IsTokenized longest (pos size) (tokenized (pos k) xs) =
    (size ≤ longest) × (length xs ≤ k) × (length xs ≤ size)
IsTokenized longest (pos size) (tokenized (negsuc k) xs) = ⊥
IsTokenized longest (pos size) (refused k message) = (size ≤ longest) × (is_negative k ≡ true)
IsTokenized longest (pos size) panicked = longest < size

module _ {N : Type 0} (format_float : Float32 → Text) (c : Native N) where
  counted-IsTokenized :
      (longest : ℕ) (ret : ℤ) (out : List ℤ) (size : ℕ)
      → size ≤ longest
      → IsTokenized longest (pos size) (counted c ret out size)
  unfolding counted
  counted-IsTokenized longest (pos n) out size le = (
    le,
    length-take n (take size out),
    omega (arith, length-take_le n (take size out), length-take size out),
  )
  counted-IsTokenized longest (negsuc n) out size le = (le, refl)

  from_size :
      (longest : ℕ) (l : LLama) (text : Text) (opts : List PredictOption) (s : System N)
      (tokens : ℤ)
      → (tokenize_options (new_predict_options opts)).tokens ≡ tokens
      → IsTokenized longest tokens (tokenize_string format_float c longest l text opts s).0
  unfolding tokenize_string tokenize_with
  from_size longest l text opts s (negsuc n) h = rw (tokenize_string, h) refl
  from_size longest l text opts s (pos size) h =
      let po = tokenize_options (new_predict_options opts) in
      elim (Bool-cases (ltb longest size)) [
        | inl y ↦ rw (tokenize_string, h, y) (ground arith)
        | inr n ↦ rw (tokenize_string, h, n) (counted-IsTokenized longest _ _ size (ground arith))
      ]

  -- `TokenizeString` panics exactly where the number of tokens in the options, 4096 for 0, is
  -- negative or more than `make` allows for a slice of C ints, a bound that is given; else it
  -- refuses a negative count, or returns at most as many numbers as the count and as the options
  -- say.
  pub tokenize_string-IsTokenized :
      (longest : ℕ) (l : LLama) (text : Text) (opts : List PredictOption) (s : System N)
      → IsTokenized longest
          (tokenize_options (new_predict_options opts)).tokens
          (tokenize_string format_float c longest l text opts s).0
  tokenize_string-IsTokenized longest l text opts s = from_size longest l text opts s _ refl
