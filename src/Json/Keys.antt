-- ===== src/Json/Keys.antt =====
-- How `json.Unmarshal` finds a struct's field by the key of a member, and fills a string field.
use go_llama_cpp.Base.{
  ℕ, ◌-◌, Bool, ◌&&◌, Option, none, some, map, leb, nat_beq, text_beq, if◌then◌else◌, Text,
}
use go_llama_cpp.Json.{Json, null, str}

-- The fold of encoding/json: ASCII to upper case, and the two letters that fold to ASCII.
unfoldable pub fold_char : ℕ → ℕ
fold_char c =
    if leb b'a' c && leb c b'z'
    then c - 32
    else if nat_beq c 0x17f
    then b'S'
    else if nat_beq c 0x212a
    then b'K'
    else c

unfoldable pub is_key : Text → Text → Bool
unfolding fold_char
is_key name key = text_beq (map fold_char key) (map fold_char name)

-- A string field.
abbrev pub text_field {ℓ} : {A : Type ℓ} → (Text → A) → Text → Json → Option A
text_field set old (str t) = some (set t)
text_field set old null = some (set old)
text_field set old _ = none
