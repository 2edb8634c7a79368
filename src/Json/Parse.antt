-- ===== src/Json/Parse.antt =====
-- `json.Valid` and the reading half of `json.Unmarshal`.
pub mod Strings
pub mod Numbers
pub mod RoundTrip
pub mod Length
pub mod Fuel
use go_llama_cpp.Base.{
  ◌≡◌, arith, ℕ, zero, suc, ◌+◌, ◌-◌, ◌*◌, ◌/◌, ◌%◌, ◌<◌, Bool, true, false, ◌&&◌, ◌||◌, Option,
  none, some, List, [], ◌∷◌, ◌++◌, leb, ltb, nat_beq, if◌then◌else◌, Text, length, is_empty, take,
}
use go_llama_cpp.Strings.{codes, has_prefix}
use go_llama_cpp.Json.Parse.Strings.{◌>>=◌, skip_space, string_token}
use go_llama_cpp.Json.Parse.Numbers.{number_token}
use go_llama_cpp.Json.{Json, null, bool, num, str, arr, obj, Items, nil, cons, Fields, end, field}

-- What the first character of a value announces.
pub data Lead : Type 0 where
  brace bracket quote other : Lead

pub lead : ℕ → Lead
lead c =
    if nat_beq c b'{'
    then brace
    else if nat_beq c b'['
    then bracket
    else if nat_beq c b'"'
    then quote
    else other

pub literal : Text → Option (Json × Text)
unfolding number_token has_prefix
literal s =
    if has_prefix s (codes "null")
    then some (null, go_llama_cpp.Base.drop 4 s)
    else if has_prefix s (codes "true")
    then some (bool true, go_llama_cpp.Base.drop 4 s)
    else if has_prefix s (codes "false")
    then some (bool false, go_llama_cpp.Base.drop 5 s)
    else (do t ← number_token s; some (num t.0, t.1))

-- What follows an item: a comma, or the closing bracket.
pub data Follow : Type 0 where
  comma shut : Text → Follow
  bad : Follow

pub follow : ℕ → Text → Follow
follow close [] = bad
follow close (c ∷ s) = if nat_beq c b',' then comma s else if nat_beq c close then shut s else bad

-- A key and its colon.
pub key_token : Text → Option (Text × Text)
unfolding string_token skip_space
key_token [] = none
key_token (q ∷ s) =
    if nat_beq q b'"'
    then (do
      t ← string_token s
      (elim (skip_space t.1) [
        | [] ↦ none
        | c ∷ rest ↦ if nat_beq c b':' then some (t.0, skip_space rest) else none
      ]))
    else none

unfoldable mutual
  unfolding lead literal string_token follow skip_space key_token

  pub value : ℕ → Text → Option (Json × Text)
  value zero s = none
  value (suc f) [] = none
  value (suc f) (c ∷ s) = elim (lead c) [
    | brace ↦ (elim (follow b'}' (skip_space s)) [
      | shut rest ↦ some (obj end, rest)
      | _ ↦ (elim (members f (skip_space s)) [ none ↦ none | some (m, rest) ↦ some (obj m, rest) ])
    ])
    | bracket ↦ (elim (follow b']' (skip_space s)) [
      | shut rest ↦ some (arr nil, rest)
      | _ ↦ (elim (items f (skip_space s)) [ none ↦ none | some (m, rest) ↦ some (arr m, rest) ])
    ])
    | quote ↦ (elim (string_token s) [ none ↦ none | some (t, rest) ↦ some (str t, rest) ])
    | other ↦ literal (c ∷ s)
  ]

  pub items : ℕ → Text → Option (Items × Text)
  items zero s = none
  items (suc f) s = elim (value f s) [
    | none ↦ none
    | some (v, rest) ↦ elim (follow b']' (skip_space rest)) [
      | shut rest' ↦ some (cons v nil, rest')
      | comma rest' ↦ (elim (items f (skip_space rest')) [
        | none ↦ none
        | some (vs, rest″) ↦ some (cons v vs, rest″)
      ])
      | bad ↦ none
    ]
  ]

  pub members : ℕ → Text → Option (Fields × Text)
  members zero s = none
  members (suc f) s = elim (key_token s) [
    | none ↦ none
    | some (k, s') ↦ elim (value f s') [
      | none ↦ none
      | some (v, rest) ↦
          let raw = take (length s' - length rest) s' in
          elim (follow b'}' (skip_space rest)) [
            | shut rest' ↦ some (field k raw v end, rest')
            | comma rest' ↦ (elim (members f (skip_space rest')) [
              | none ↦ none
              | some (vs, rest″) ↦ some (field k raw v vs, rest″)
            ])
            | bad ↦ none
          ]
    ]
  ]

-- A whole document: one value between white space.
unfoldable pub parse : Text → Option Json
unfolding value
parse s = elim (value (2 * length s + 2) (skip_space s)) [
  | none ↦ none
  | some (v, rest) ↦ if is_empty (skip_space rest) then some v else none
]

-- `json.Valid`
unfoldable pub valid : Text → Bool
valid s = elim (parse s) [ none ↦ false | some v ↦ true ]

pub valid_of_parse : (s : Text) (v : Json) → parse s ≡ some v → valid s ≡ true
unfolding valid
valid_of_parse s v h = ground arith
