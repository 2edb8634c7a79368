-- ===== src/Json/Print.antt =====
-- The writing half: `json.Marshal` of strings, `json.RawMessage` and objects, and `MarshalIndent`.
use go_llama_cpp.Base.{
  ℕ, suc, ◌+◌, ◌-◌, ◌*◌, ◌/◌, ◌%◌, Bool, true, false, ◌&&◌, ◌||◌, List, [], ◌∷◌, ◌++◌, ltb, nat_beq,
  if◌then◌else◌, Text, replicate,
}

abbrev pub hex_char : ℕ → ℕ
hex_char d = if ltb d 10 then b'0' + d else b'a' + (d - 10)

-- `\u` and four digits.
abbrev pub unicode_escape : ℕ → Text
unicode_escape c =
    92
    ∷ b'u'
    ∷ hex_char (c / 4096 % 16)
    ∷ hex_char (c / 256 % 16)
    ∷ hex_char (c / 16 % 16)
    ∷ hex_char (c % 16)
    ∷ []

abbrev pub needs_html_escape : ℕ → Bool
needs_html_escape c =
    nat_beq c b'<' || nat_beq c b'>' || nat_beq c b'&' || nat_beq c 0x2028 || nat_beq c 0x2029

-- One character of a JSON string, with Go's escapes for HTML. (`\b` and `\f` as Go 1.22 and later
-- write them.)
unfoldable pub escape_char : ℕ → Text
escape_char c =
    if nat_beq c b'"' || nat_beq c 92
    then 92 ∷ c ∷ []
    else if nat_beq c 8
    then 92 ∷ b'b' ∷ []
    else if nat_beq c 12
    then 92 ∷ b'f' ∷ []
    else if nat_beq c 10
    then 92 ∷ b'n' ∷ []
    else if nat_beq c 13
    then 92 ∷ b'r' ∷ []
    else if nat_beq c 9
    then 92 ∷ b't' ∷ []
    else if ltb c 32 || needs_html_escape c
    then unicode_escape c
    else c ∷ []

unfoldable pub escaped : Text → Text
unfolding escape_char
escaped [] = []
escaped (c ∷ s) = escape_char c ++ escaped s

-- `json.Marshal` of a string.
unfoldable pub marshal_string : Text → Text
unfolding escaped
marshal_string s = b'"' ∷ (escaped s ++ b'"' ∷ [])

-- Where a scan stands: outside a string, in one, or behind a backslash in one.
pub data Place : Type 0 where
  outside inside escaping : Place

abbrev pub next_place : Place → ℕ → Place
next_place outside c = if nat_beq c b'"' then inside else outside
next_place inside c = if nat_beq c b'"' then outside else if nat_beq c 92 then escaping else inside
next_place escaping c = inside

abbrev is_outside : Place → Bool
is_outside outside = true
is_outside _ = false

abbrev is_blank : ℕ → Bool
is_blank c = nat_beq c 32 || nat_beq c 9 || nat_beq c 10 || nat_beq c 13

-- How `json.Marshal` copies a valid `json.RawMessage`: without white space, HTML escaped.
unfoldable pub compact_from : Place → Text → Text
compact_from p [] = []
compact_from p (c ∷ s) =
    let rest = compact_from (next_place p c) s in
    if is_outside p && is_blank c
    then rest
    else if needs_html_escape c
    then unicode_escape c ++ rest
    else c ∷ rest

unfoldable pub compact : Text → Text
unfolding compact_from
compact s = compact_from outside s

-- The members of an object whose values are written already, less the omitted ones.
unfoldable pub marshal_members : List (Text × Text) → Text
unfolding marshal_string
marshal_members [] = []
marshal_members ((k, v) ∷ []) = marshal_string k ++ b':' ∷ v
marshal_members ((k, v) ∷ m ∷ ms) =
    marshal_string k ++ (b':' ∷ (v ++ b',' ∷ marshal_members (m ∷ ms)))

unfoldable pub marshal_object : List (Text × Text) → Text
unfolding marshal_members
marshal_object ms = b'{' ∷ (marshal_members ms ++ b'}' ∷ [])

abbrev line_break : ℕ → Text
line_break depth = 10 ∷ replicate (2 * depth) 32

-- A character outside strings, and whether an opening bracket waits for its first item.
pub data Mark : Type 0 where
  opening closing comma colon plain : Mark

mark : ℕ → Mark
mark c =
    if nat_beq c b'{' || nat_beq c b'['
    then opening
    else if nat_beq c b'}' || nat_beq c b']'
    then closing
    else if nat_beq c b','
    then comma
    else if nat_beq c b':'
    then colon
    else plain

-- The loop of `json.Indent(dst, src, "", "  ")` over a document without white space.
unfoldable pub indent_from : Place → Bool → ℕ → Text → Text
unfolding mark
indent_from p waiting depth [] = []
indent_from outside waiting depth (c ∷ s) = elim (mark c) [
  | closing ↦ (elim waiting [
    | true ↦ c ∷ indent_from outside false depth s
    | false ↦ line_break (depth - 1) ++ c ∷ indent_from outside false (depth - 1) s
  ])
  | opening ↦ (elim waiting [
    | true ↦ line_break (suc depth) ++ c ∷ indent_from outside true (suc depth) s
    | false ↦ c ∷ indent_from outside true depth s
  ])
  | comma ↦ c ∷ (line_break depth ++ indent_from outside false depth s)
  | colon ↦ c ∷ 32 ∷ indent_from outside false depth s
  | plain ↦ (elim waiting [
    | true ↦ line_break (suc depth) ++ c ∷ indent_from (next_place outside c) false (suc depth) s
    | false ↦ c ∷ indent_from (next_place outside c) false depth s
  ])
]
indent_from p waiting depth (c ∷ s) = c ∷ indent_from (next_place p c) waiting depth s

unfoldable pub indent : Text → Text
unfolding indent_from
indent s = indent_from outside false 0 s
