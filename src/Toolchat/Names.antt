-- ===== src/Toolchat/Names.antt =====
-- toolchat/toolchat.go: validateToolName.
use go_llama_cpp.Base.{
  ℕ, ◌≤◌, ◌≡◌, refl, ◌↔◌, ◌⊎◌, Bool, true, false, ◌&&◌, ◌||◌, Option, none, some, [], ◌∷◌, arith,
  leb, nat_beq, if◌then◌else◌, Text, All, Bool-cases, inl, inr, not,
}
use go_llama_cpp.Toolchat.Types.{Error, empty_name, bad_character, leading_digit}

abbrev is_digit : ℕ → Bool
is_digit r = leb b'0' r && leb r b'9'

abbrev is_name_char : ℕ → Bool
is_name_char r =
    nat_beq r b'_'
    || nat_beq r b'-'
    || is_digit r
    || (leb b'A' r && leb r b'Z')
    || (leb b'a' r && leb r b'z')

-- The loop; `first` says whether the index is 0.
validate_chars : Text → Bool → Text → Option Error
validate_chars name first [] = none
validate_chars name first (r ∷ rs) =
    let rest = validate_chars name false rs in
    if not (is_name_char r)
    then some (bad_character name r)
    else if first && is_digit r
    then some (leading_digit name)
    else rest

unfoldable pub validate_tool_name : Text → Option Error
unfolding validate_chars
validate_tool_name [] = some empty_name
validate_tool_name (r ∷ rs) = validate_chars (r ∷ rs) true (r ∷ rs)

abbrev IsDigit : ℕ → Type 0
IsDigit r = (b'0' ≤ r) × (r ≤ b'9')

abbrev IsLetter : ℕ → Type 0
IsLetter r = ((b'A' ≤ r) × (r ≤ b'Z')) ⊎ ((b'a' ≤ r) × (r ≤ b'z'))

abbrev IsNameChar : ℕ → Type 0
IsNameChar r = (r ≡ b'_') ⊎ ((r ≡ b'-') ⊎ (IsDigit r ⊎ IsLetter r))

-- A name: not empty, of letters, digits, `_` and `-`, and with no digit first.
abbrev pub IsToolName : Text → Type 0
IsToolName [] = ⊥
IsToolName (r ∷ rs) = (¬ IsDigit r) × All IsNameChar (r ∷ rs)

is_name_char_iff : (r : ℕ) → (is_name_char r ≡ true) ↔ IsNameChar r
is_name_char_iff r = ground arith

validate_chars_iff : (name rs : Text) → (validate_chars name false rs ≡ none) ↔ All IsNameChar rs
unfolding validate_chars
validate_chars_iff name [] = ((λ _. tt), λ _. refl)
validate_chars_iff name (r ∷ rs) =
    let (name_char, is_char) = is_name_char_iff r in
    let (chars, is_chars) = validate_chars_iff name rs in
    elim (Bool-cases (is_name_char r)) [
      | inl y ↦ rw y ((λ h. (name_char y, chars h)), λ h. is_chars h.1)
      | inr n ↦ rw n ((λ h. cc), λ h. cc (is_char h.0))
    ]

-- `validateToolName` accepts exactly the names that are not empty, hold only ASCII letters,
-- digits, `_` and `-`, and do not start with a digit.
pub validate_tool_name_iff : (name : Text) → (validate_tool_name name ≡ none) ↔ IsToolName name
unfolding validate_tool_name
validate_tool_name_iff [] = ((λ h. cc), λ h. absurd h)
validate_tool_name_iff (r ∷ rs) = ground (arith, validate_chars_iff (r ∷ rs) rs)
