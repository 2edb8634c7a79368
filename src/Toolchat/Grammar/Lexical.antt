-- ===== src/Toolchat/Grammar/Lexical.antt =====
-- toolchat/schema_grammar.go: sanitizeRuleName, the shared rules and names; `strconv.Quote`.
use go_llama_cpp.Base.{
  ℕ, ◌/◌, ◌%◌, Bool, false, ◌&&◌, ◌||◌, List, [], ◌∷◌, ◌++◌, leb, ltb, nat_beq, text_beq,
  if◌then◌else◌, Text, is_empty, map,
}
use go_llama_cpp.Strings.{codes}
use go_llama_cpp.Json.Print.{hex_char}

-- What Go's tables say of characters beyond ASCII (`strconv.IsPrint`), and how `json.Marshal` writes
-- the float64 that a number literal stands for.
pub record Runtime : Type 0 where
  pub is_print : ℕ → Bool
  pub format_number : Text → Text

module _ (go : Runtime) where
  abbrev printable : ℕ → Bool
  printable c = if ltb c 0x80 then leb 32 c && leb c 126 else go.is_print c

  abbrev quote_unprintable : ℕ → Text
  quote_unprintable c =
      if nat_beq c 7
      then codes "\\a"
      else if nat_beq c 8
      then codes "\\b"
      else if nat_beq c 12
      then codes "\\f"
      else if nat_beq c 10
      then codes "\\n"
      else if nat_beq c 13
      then codes "\\r"
      else if nat_beq c 9
      then codes "\\t"
      else if nat_beq c 11
      then codes "\\v"
      else if ltb c 32 || nat_beq c 0x7f
      then codes "\\x" ++ (hex_char (c / 16 % 16) ∷ hex_char (c % 16) ∷ [])
      else if ltb c 0x10000
      then codes "\\u"
        ++ (hex_char (c / 4096 % 16)
            ∷ hex_char (c / 256 % 16)
            ∷ hex_char (c / 16 % 16)
            ∷ hex_char (c % 16)
            ∷ [])
      else codes "\\U00"
        ++ (hex_char (c / 1048576 % 16)
            ∷ hex_char (c / 65536 % 16)
            ∷ hex_char (c / 4096 % 16)
            ∷ hex_char (c / 256 % 16)
            ∷ hex_char (c / 16 % 16)
            ∷ hex_char (c % 16)
            ∷ [])

  quote_char : ℕ → Text
  quote_char c =
      if nat_beq c b'"' || nat_beq c 92
      then 92 ∷ c ∷ []
      else if printable c
      then c ∷ []
      else quote_unprintable c

  quote_body : Text → Text
  unfolding quote_char
  quote_body [] = []
  quote_body (c ∷ s) = quote_char c ++ quote_body s

  -- `strconv.Quote`
  unfoldable pub quote : Text → Text
  unfolding quote_body
  quote s = b'"' ∷ (quote_body s ++ b'"' ∷ [])

  -- `grammarJSONStringLiteral`
  unfoldable pub grammar_json_string_literal : Text → Text
  unfolding quote
  grammar_json_string_literal value = quote (quote value)

abbrev is_rule_char : ℕ → Bool
is_rule_char r =
    (leb b'a' r && leb r b'z')
    || (leb b'A' r && leb r b'Z')
    || (leb b'0' r && leb r b'9')
    || nat_beq r b'-'

rule_char : ℕ → ℕ
rule_char r = if is_rule_char r then r else b'-'

-- `strings.Trim(s, "-")`, from the left and from the right.
trim_dashes_left : Text → Text
trim_dashes_left [] = []
trim_dashes_left (c ∷ s) = let rest = trim_dashes_left s in if nat_beq c b'-' then rest else c ∷ s

trim_dashes_right : Text → Text
trim_dashes_right [] = []
trim_dashes_right (c ∷ s) =
    let rest = trim_dashes_right s in if nat_beq c b'-' && is_empty rest then [] else c ∷ rest

abbrev or_x : Text → Text
or_x s = if is_empty s then codes "x" else s

unfoldable pub sanitize_rule_name : Text → Text
unfolding rule_char trim_dashes_left trim_dashes_right
sanitize_rule_name s = or_x (trim_dashes_right (trim_dashes_left (map rule_char s)))

abbrev pub member : Text → List Text → Bool
member s [] = false
member s (t ∷ ts) = text_beq s t || member s ts

-- `grammarBuiltinNames`
abbrev pub grammar_builtin_names : List Text
grammar_builtin_names =
    codes "root"
    ∷ codes "final"
    ∷ codes "tool-call"
    ∷ codes "tool-call-item"
    ∷ codes "value"
    ∷ codes "object"
    ∷ codes "array"
    ∷ codes "string"
    ∷ codes "number"
    ∷ codes "integer"
    ∷ codes "boolean"
    ∷ codes "null"
    ∷ codes "ws"
    ∷ []

-- `jsonPrimitiveRules`, line by line.
abbrev pub json_primitive_rules : Text
json_primitive_rules =
    codes "value  ::= object | array | string | number | boolean | null\n"
    ++ (codes "object ::=\n"
        ++ (codes "  \"{\" ws (\n"
            ++ (codes "            string \":\" ws value\n"
                ++ (codes "    (\",\" ws string \":\" ws value)*\n"
                    ++ (codes "  )? \"}\" ws\n"
                        ++ (codes "array  ::=\n"
                            ++ (codes "  \"[\" ws (\n"
                                ++ (codes "            value\n"
                                    ++ (codes "    (\",\" ws value)*\n"
                                        ++ (codes "  )? \"]\" ws\n"
                                            ++ (codes "string ::=\n"
                                                ++ (codes "  \"\\\"\" (\n"
                                                    ++ (codes "    [^\"\\\\\\x7F\\x00-\\x1F] |\n"
                                                        ++ (codes
                                                            "    \"\\\\\" ([\"\\\\bfnrt] | \"u\" [0-9a-fA-F]{4})\n"
                                                            ++ (codes "  )* \"\\\"\" ws\n"
                                                            ++ (codes
                                                            "number ::= (\"-\"? ([0-9] | [1-9] [0-9]{0,15})) (\".\" [0-9]+)? ([eE] [-+]? [0-9] [1-9]{0,15})? ws\n"
                                                            ++ (codes
                                                            "integer ::= (\"-\"? ([0-9] | [1-9] [0-9]{0,15})) ws\n"
                                                            ++ (codes
                                                            "boolean ::= (\"true\" | \"false\") ws\n"
                                                            ++ (codes "null ::= \"null\" ws\n"
                                                            ++ (codes
                                                            "ws ::= | \" \" | \"\\n\" [ \\t]{0,20}\n"))))))))))))))))))))
