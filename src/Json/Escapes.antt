-- ===== src/Json/Escapes.antt =====
-- String tokens that `json.Marshal` writes, and the reader of string tokens.
use go_llama_cpp.Base.{
  ℕ, zero, suc, ◌+◌, ◌-◌, ◌/◌, ◌%◌, ◌≤◌, ◌<◌, ◌≡◌, refl, ap, false, ◌||◌, some, [], ◌∷◌, ◌++◌, map,
  append_assoc, leb, ltb, nat_beq, nat_beq_iff, if◌then◌else◌, Text, length, length-append, All,
  arith, Bool-cases, inl, inr,
}
use go_llama_cpp.Json.Print.{hex_char, needs_html_escape, unicode_escape, escape_char, escaped}
use go_llama_cpp.Json.Parse.Strings.{
  hex_digit, hex4, next_unit, units, is_high, is_low, join_units, string_token, unit, escape,
  from_hex, simple_escape,
}

hex_digit-hex_char : (d : ℕ) → d < 16 → hex_digit (hex_char d) ≡ some d
unfolding hex_digit
hex_digit-hex_char d h = ground arith

-- How the reader sees the unit of a character: an escape `\u` is marked.
unit_of : ℕ → ℕ
unit_of c =
    if nat_beq c b'"' || nat_beq c 92
    then c
    else if nat_beq c 8 || nat_beq c 12 || nat_beq c 10 || nat_beq c 13 || nat_beq c 9
    then c
    else if ltb c 32 || needs_html_escape c
    then c + 0x110000
    else c

hex4-digits :
    (c : ℕ)
    → c < 65536
    → hex4
        (hex_char (c / 4096 % 16))
        (hex_char (c / 256 % 16))
        (hex_char (c / 16 % 16))
        (hex_char (c % 16))
      ≡ some c
hex4-digits c h =
    rw
      (
        hex_digit-hex_char (c / 4096 % 16) (omega arith),
        hex_digit-hex_char (c / 256 % 16) (omega arith),
        hex_digit-hex_char (c / 16 % 16) (omega arith),
        hex_digit-hex_char (c % 16) (omega arith),
      )
      (ap some (omega arith))

escape-unicode :
    (c : ℕ) (rest : Text)
    → c < 65536
    → next_unit (unicode_escape c ++ rest) ≡ unit (c + 0x110000) rest
unfolding next_unit escape from_hex
escape-unicode c rest h = rw (hex4-digits c h) refl

-- What `simple_escape` reads of the letter behind the backslash.
next_unit-simple :
    (c e : ℕ) (rest : Text)
    → nat_beq e b'u' ≡ false
    → simple_escape e ≡ some c
    → next_unit (92 ∷ e ∷ rest) ≡ unit c rest
unfolding next_unit escape
next_unit-simple c e rest h k = rw (h, k) refl

next_unit-plain :
    (c : ℕ) (rest : Text)
    → ltb c 32 ≡ false
    → (nat_beq c b'"' || nat_beq c 92) ≡ false
    → next_unit (c ∷ rest) ≡ unit c rest
unfolding next_unit
next_unit-plain c rest h k = ground arith

-- The characters by the escape that they get.
data Escape (c : ℕ) : Type 0 where
  simple :
      (e : ℕ)
      → nat_beq e b'u' ≡ false
      → simple_escape e ≡ some c
      → escape_char c ≡ 92 ∷ e ∷ []
      → unit_of c ≡ c
      → Escape c
  coded : c < 0x2030 → escape_char c ≡ unicode_escape c → unit_of c ≡ c + 0x110000 → Escape c
  plain :
      ltb c 32 ≡ false
      → (nat_beq c b'"' || nat_beq c 92) ≡ false
      → escape_char c ≡ c ∷ []
      → unit_of c ≡ c
      → Escape c

-- A test for one character.
split_char : (c e : ℕ) → Escape e → (nat_beq c e ≡ false → Escape c) → Escape c
split_char c e h k = elim (Bool-cases (nat_beq c e)) [
  | inl p ↦ rw ((nat_beq_iff c e).0 p) h
  | inr p ↦ k p
]

escape_of : (c : ℕ) → Escape c
unfolding simple_escape escape_char unit_of
escape_of c = split_char c 34 (simple 34 refl refl refl refl) λ p34.
    split_char c 92 (simple 92 refl refl refl refl) λ p92.
      split_char c 8 (simple b'b' refl refl refl refl) λ p8.
        split_char c 12 (simple b'f' refl refl refl refl) λ p12.
          split_char c 10 (simple b'n' refl refl refl refl) λ p10.
            split_char c 13 (simple b'r' refl refl refl refl) λ p13.
              split_char c 9 (simple b't' refl refl refl refl) λ p9.
                elim (Bool-cases (ltb c 32 || needs_html_escape c)) [
                  | inl p ↦
                      coded (ground arith) (rw (p34, p92, p8, p12, p10, p13, p9, p) refl)
                        (rw (p34, p92, p8, p12, p10, p13, p9, p) refl)
                  | inr p ↦
                      plain (ground arith) (rw (p34, p92) refl)
                        (rw (p34, p92, p8, p12, p10, p13, p9, p) refl)
                        (rw (p34, p92, p8, p12, p10, p13, p9, p) refl)
                ]

-- One character, as the reader sees it.
next_unit-escape_char :
    (c : ℕ) (rest : Text) → next_unit (escape_char c ++ rest) ≡ unit (unit_of c) rest
next_unit-escape_char c rest = elim (escape_of c) [
  | simple e h k w u ↦ rw (w, u) (next_unit-simple c e rest h k)
  | coded h w u ↦ rw (w, u) (escape-unicode c rest (omega arith))
  | plain h k w u ↦ rw (w, u) (next_unit-plain c rest h k)
]

units-unit :
    (fuel : ℕ) (s : Text) (u : ℕ) (rest out after : Text)
    → next_unit s ≡ unit u rest
    → units fuel rest ≡ some (out, after)
    → units (suc fuel) s ≡ some (u ∷ out, after)
unfolding units
units-unit fuel s u rest out after h k = rw (units, h, k) refl

units-escaped :
    (fuel : ℕ) (s rest : Text)
    → length s < fuel
    → units fuel (escaped s ++ b'"' ∷ rest) ≡ some (map unit_of s, rest)
unfolding units escaped next_unit
units-escaped zero s rest h = absurd (omega arith)
units-escaped (suc fuel) [] rest h = refl
units-escaped (suc fuel) (c ∷ s) rest h =
    rw (append_assoc (escape_char c) (escaped s) (b'"' ∷ rest)) (
      units-unit fuel (escape_char c ++ (escaped s ++ b'"' ∷ rest)) (unit_of c)
        (escaped s ++ b'"' ∷ rest) (map unit_of s) rest
        (next_unit-escape_char c (escaped s ++ b'"' ∷ rest))
        (units-escaped fuel s rest (omega arith)))

-- What Go's strings hold of Unicode: code points.
abbrev pub IsUnicode : Text → Type 0
IsUnicode = All (λ c. c < 0x110000)

restored : ℕ → ℕ
restored u = if leb 0x110000 u then u - 0x110000 else u

unit_of-IsSingle :
    (c : ℕ)
    → c < 0x110000
    → (is_high (unit_of c) ≡ false) × (is_low (unit_of c) ≡ false) × (restored (unit_of c) ≡ c)
unfolding restored
unit_of-IsSingle c h = elim (escape_of c) [
  | simple e _ _ w u ↦ rw u (ground arith)
  | coded k w u ↦ rw u (ground arith)
  | plain _ _ w u ↦ rw u (ground arith)
]

join_units-unit_of : (s : Text) → IsUnicode s → join_units (map unit_of s) ≡ s
unfolding join_units restored
join_units-unit_of [] h = refl
join_units-unit_of (c ∷ []) (h, _) = ground (arith, unit_of-IsSingle c h)
join_units-unit_of (c ∷ d ∷ s) (h, hs) =
    ground (arith, unit_of-IsSingle c h, join_units-unit_of (d ∷ s) hs)

escape_char-pos : (c : ℕ) → 0 < length (escape_char c)
escape_char-pos c = elim (escape_of c) [
  | simple e _ _ w u ↦ rw w (omega arith)
  | coded k w u ↦ rw w (omega arith)
  | plain _ _ w u ↦ rw w (omega arith)
]

length-escaped : (s : Text) → length s ≤ length (escaped s)
unfolding escaped
length-escaped [] = omega arith
length-escaped (c ∷ s) =
    omega (arith, length-append (escape_char c) (escaped s), escape_char-pos c, length-escaped s)

-- A string that was written is read back, whatever follows it.
pub string_token-escaped :
    (s rest : Text) → IsUnicode s → string_token (escaped s ++ b'"' ∷ rest) ≡ some (s, rest)
unfolding string_token
string_token-escaped s rest h =
    rw
      (
        units-escaped (suc (length (escaped s ++ b'"' ∷ rest))) s rest
            (omega (arith, length-append (escaped s) (b'"' ∷ rest), length-escaped s)),
        join_units-unit_of s h,
      )
      refl
