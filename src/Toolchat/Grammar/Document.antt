-- ===== src/Toolchat/Grammar/Document.antt =====
-- What `json.Unmarshal` into an `any` gives: numbers as float64, the last member of a name, and
-- writing such a value with `json.Marshal`.
use go_llama_cpp.Base.{
  ℕ, ◌+◌, ◌-◌, ◌*◌, ◌^◌, Bool, true, false, ◌&&◌, ◌||◌, not, Option, none, some, List, [], ◌∷◌,
  ◌++◌, leb, ltb, nat_beq, text_beq, if◌then◌else◌, Text, map, insert, text_eq, sort_by,
}
use go_llama_cpp.Strings.{codes, join}
use go_llama_cpp.Json.{Json, null, bool, num, str, arr, obj, Items, nil, cons, Fields, end, field}
use go_llama_cpp.Json.Print.{marshal_string}
use go_llama_cpp.Toolchat.Grammar.Lexical.{Runtime}

-- A number literal is read as a mantissa over a power of ten: sign, digits, decimals, exponent.
pub record Number : Type 0 where
  pub negative : Bool
  pub mantissa : ℕ
  pub decimals : ℕ
  pub down : Bool
  pub exponent : ℕ

-- Where a scan of a literal stands.
pub data Part : Type 0 where
  whole fraction power : Part

scan_number : Part → Number → Text → Number
scan_number p n [] = n
scan_number power n (c ∷ s) =
    if nat_beq c b'-'
    then scan_number power (record n { down = true }) s
    else if nat_beq c b'+'
    then scan_number power n s
    else scan_number power (record n { exponent = n.exponent * 10 + (c - b'0') }) s
scan_number fraction n (c ∷ s) =
    if nat_beq c b'e' || nat_beq c b'E'
    then scan_number power n s
    else scan_number fraction
        (record n { mantissa = n.mantissa * 10 + (c - b'0'); decimals = n.decimals + 1 }) s
scan_number whole n (c ∷ s) =
    if nat_beq c b'-'
    then scan_number whole (record n { negative = true }) s
    else if nat_beq c b'.'
    then scan_number fraction n s
    else if nat_beq c b'e' || nat_beq c b'E'
    then scan_number power n s
    else scan_number whole (record n { mantissa = n.mantissa * 10 + (c - b'0') }) s

number : Text → Number
unfolding scan_number
number s =
    scan_number whole
      (record { negative = false; mantissa = 0; decimals = 0; down = false; exponent = 0 }) s

-- |literal| times 10 to this many places is a natural number over 10 to the other.
abbrev up_by : Number → ℕ
up_by n = if n.down then 0 else n.exponent

abbrev down_by : Number → ℕ
down_by n = if n.down then n.decimals + n.exponent else n.decimals

-- Whether the float64 nearest to a literal is at least 1: the literal is at least 1 - 2^-54, which
-- is the middle between 1 and the float64 below it.
unfoldable pub at_least_one : Text → Bool
unfolding number
at_least_one s =
    let n = number s in
    not n.negative && leb ((2 ^ 54 - 1) * 10 ^ down_by n) (n.mantissa * 10 ^ up_by n * 2 ^ 54)

-- Whether a literal is a float64 at all: its size is less than 2^1024 - 2^970, the middle between
-- the largest float64 and the next power of two.
in_range : Text → Bool
unfolding number
in_range s =
    let n = number s in ltb (n.mantissa * 10 ^ up_by n) ((2 ^ 1024 - 2 ^ 970) * 10 ^ down_by n)

unfoldable mutual
  unfolding in_range

  -- `json.Unmarshal` refuses a document with a number that is no float64.
  pub numbers_in_range : Json → Bool
  numbers_in_range null = true
  numbers_in_range (bool b) = true
  numbers_in_range (num s) = in_range s
  numbers_in_range (str s) = true
  numbers_in_range (arr vs) = items_in_range vs
  numbers_in_range (obj fs) = fields_in_range fs

  pub items_in_range : Items → Bool
  items_in_range nil = true
  items_in_range (cons v vs) = numbers_in_range v && items_in_range vs

  pub fields_in_range : Fields → Bool
  fields_in_range end = true
  fields_in_range (field k raw v fs) = numbers_in_range v && fields_in_range fs

-- `n[key]`: the last member of the name.
unfoldable pub get : Text → Fields → Option Json
get key end = none
get key (field k raw v fs) = elim (get key fs) [
  | some w ↦ some w
  | none ↦ if text_beq k key then some v else none
]

unfoldable pub add_entries : List (Text × Json) → Fields → List (Text × Json)
unfolding insert
add_entries m end = m
add_entries m (field k raw v rest) = add_entries (insert k v m) rest

-- The entries of a map, each key once.
unfoldable pub entries : Fields → List (Text × Json)
unfolding add_entries
entries fs = add_entries [] fs

abbrev pub item_list : Items → List Json
item_list nil = []
item_list (cons v vs) = v ∷ item_list vs

module _ (go : Runtime) where
  member_text : Text × Text → Text
  unfolding marshal_string
  member_text (k, v) = marshal_string k ++ b':' ∷ v

  -- The written members by key, of which the last of a name counts, in the order of the keys.
  sorted_members : List (Text × Text) → List Text
  unfolding member_text sort_by
  sorted_members ms = map member_text (sort_by (λ m. m.0) ms)

  unfoldable mutual
    unfolding sorted_members join insert

    pub marshal : Json → Text
    marshal null = codes "null"
    marshal (bool true) = codes "true"
    marshal (bool false) = codes "false"
    marshal (num s) = go.format_number s
    marshal (str s) = marshal_string s
    marshal (arr vs) = b'[' ∷ (join (marshal_items vs) (b',' ∷ []) ++ b']' ∷ [])
    marshal (obj fs) =
        b'{' ∷ (join (sorted_members (marshal_fields fs [])) (b',' ∷ []) ++ b'}' ∷ [])

    pub marshal_items : Items → List Text
    marshal_items nil = []
    marshal_items (cons v vs) = marshal v ∷ marshal_items vs

    pub marshal_fields : Fields → List (Text × Text) → List (Text × Text)
    marshal_fields end m = m
    marshal_fields (field k raw v fs) m = marshal_fields fs (insert k (marshal v) m)
