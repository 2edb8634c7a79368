-- ===== src/Json/Parse/Strings.antt =====
-- Go's `encoding/json`: white space and string tokens.
use go_llama_cpp.Base.{
  ℕ, zero, suc, ◌+◌, ◌-◌, ◌*◌, Bool, ◌&&◌, ◌||◌, Option, none, some, List, [], ◌∷◌, leb, ltb,
  nat_beq, if◌then◌else◌, Text, length,
}

infixl 5 ◌>>=◌
abbrev pub ◌>>=◌ {ℓ κ} : {A : Type ℓ} {B : Type κ} → Option A → (A → Option B) → Option B
some a >>= next = next a
none >>= next = none

unfoldable pub is_json_space : ℕ → Bool
is_json_space c = nat_beq c 32 || nat_beq c 9 || nat_beq c 10 || nat_beq c 13

-- White space of the grammar: space, tab, line feed, carriage return.
unfoldable pub skip_space : Text → Text
unfolding is_json_space
skip_space [] = []
skip_space (c ∷ s) = let rest = skip_space s in if is_json_space c then rest else c ∷ s

abbrev pub is_digit : ℕ → Bool
is_digit c = leb b'0' c && leb c b'9'

unfoldable pub hex_digit : ℕ → Option ℕ
hex_digit c =
    if is_digit c
    then some (c - b'0')
    else if leb b'a' c && leb c b'f'
    then some (c - b'a' + 10)
    else if leb b'A' c && leb c b'F'
    then some (c - b'A' + 10)
    else none

abbrev pub hex4 : ℕ → ℕ → ℕ → ℕ → Option ℕ
hex4 a b c d = do
  w ← hex_digit a
  x ← hex_digit b
  y ← hex_digit c
  z ← hex_digit d
  some (((w * 16 + x) * 16 + y) * 16 + z)

unfoldable pub simple_escape : ℕ → Option ℕ
simple_escape c =
    if nat_beq c b'"' || nat_beq c 92 || nat_beq c b'/'
    then some c
    else if nat_beq c b'b'
    then some 8
    else if nat_beq c b'f'
    then some 12
    else if nat_beq c b'n'
    then some 10
    else if nat_beq c b'r'
    then some 13
    else if nat_beq c b't'
    then some 9
    else none

-- The characters of a string token: `closed rest`, a plain or escaped unit, or an error.
pub data Unit16 : Type 0 where
  closed : Text → Unit16
  unit : ℕ → Text → Unit16
  broken : Unit16

unfoldable pub from_hex : Option ℕ → Text → Unit16
from_hex none s = broken
from_hex (some u) s = unit (u + 0x110000) s

unfoldable pub escape : Text → Unit16
unfolding hex_digit simple_escape from_hex
escape [] = broken
escape (c ∷ s) =
    if nat_beq c b'u'
    then (elim s [ a ∷ b ∷ d ∷ e ∷ rest ↦ from_hex (hex4 a b d e) rest | _ ↦ broken ])
    else (elim (simple_escape c) [ some v ↦ unit v s | none ↦ broken ])

-- One step of a string; an escaped `\uXXXX` is marked by an offset until pairs are joined.
unfoldable pub next_unit : Text → Unit16
unfolding escape
next_unit [] = broken
next_unit (c ∷ s) =
    if nat_beq c b'"'
    then closed s
    else if ltb c 32
    then broken
    else if nat_beq c 92
    then escape s
    else unit c s

unfoldable pub units : ℕ → Text → Option (List ℕ × Text)
unfolding next_unit
units zero s = none
units (suc fuel) s = elim (next_unit s) [
  | closed rest ↦ some ([], rest)
  | broken ↦ none
  | unit u rest ↦ elim (units fuel rest) [ none ↦ none | some (us, r) ↦ some (u ∷ us, r) ]
]

abbrev pub is_high : ℕ → Bool
is_high u = leb 0x11d800 u && ltb u 0x11dc00

abbrev pub is_low : ℕ → Bool
is_low u = leb 0x11dc00 u && ltb u 0x11e000

-- Joins surrogate pairs; a lone half becomes U+FFFD.
unfoldable pub join_units : List ℕ → Text
join_units [] = []
join_units (u ∷ []) =
    (if is_high u || is_low u then 0xfffd else if leb 0x110000 u then u - 0x110000 else u) ∷ []
join_units (u ∷ v ∷ us) =
    let single = join_units (v ∷ us) in
    let paired = join_units us in
    if is_high u && is_low v
    then ((u - 0x11d800) * 1024 + (v - 0x11dc00) + 0x10000) ∷ paired
    else (if is_high u || is_low u then 0xfffd else if leb 0x110000 u then u - 0x110000 else u)
      ∷ single

-- The rest of a string token behind its opening quote.
unfoldable pub string_token : Text → Option (Text × Text)
unfolding units join_units
string_token s = do t ← units (suc (length s)) s; some (join_units t.0, t.1)
