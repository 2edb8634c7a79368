-- ===== src/Strings/Decimal.antt =====
-- `strconv.Itoa`: the digits name the number.
use go_llama_cpp.Base.{
  ℕ, zero, suc, ◌+◌, ◌-◌, ◌*◌, ◌/◌, ◌%◌, ◌≤◌, ◌≡◌, sym, ap, ◌∙◌, [], ◌∷◌, Text, arith,
}
use go_llama_cpp.Strings.{digits, itoa}

-- The number that digits spell behind `n`.
abbrev reading : ℕ → Text → ℕ
reading n [] = n
reading n (c ∷ s) = reading (n * 10 + (c - b'0')) s

reading-digits :
    (fuel n : ℕ) (out : Text) → n ≤ fuel → reading 0 (digits fuel n out) ≡ reading n out
unfolding digits
reading-digits zero n out h = ap (λ m. reading m out) (omega arith)
reading-digits (suc fuel) n out h =
    ground (arith, reading-digits fuel (n / 10) ((b'0' + n % 10) ∷ out))

reading-itoa : (n : ℕ) → reading 0 (itoa n) ≡ n
unfolding itoa
reading-itoa n = ground (arith, reading-digits n n [])

-- Two numbers with the same digits are the same.
pub itoa_inj : (m n : ℕ) → itoa m ≡ itoa n → m ≡ n
itoa_inj m n h = sym (reading-itoa m) ∙ ap (reading 0) h ∙ reading-itoa n
