-- ===== src/Toolchat/Grammar/Fuel/Bounds.antt =====
-- toolchat/schema_grammar.go: what a node holds is less deep, and a reference is followed once.
use go_llama_cpp.Base.{
  ℕ, ◌≤◌, ◌<◌, ◌≡◌, ◌⊎◌, refl, sym, ◌∙◌, true, Option, none, some, List, [], ◌∷◌, ◌++◌, Text,
  text_eq, text_beq_iff, lookup, insert, lookup-insert, All, arith, length, drop, Option-cases, inl,
  inr,
}
use go_llama_cpp.Strings.{has_prefix}
use go_llama_cpp.Json.{Json, null, bool, num, str, arr, obj, Items, nil, cons, Fields, end, field}
use go_llama_cpp.Toolchat.Grammar.Lexical.{member}
use go_llama_cpp.Toolchat.Grammar.Document.{get, item_list, entries, add_entries}
use go_llama_cpp.Toolchat.Grammar.Converter.{has_rule}
use go_llama_cpp.Toolchat.Grammar.Compile.Types.{as_list, as_object}
use go_llama_cpp.Toolchat.Grammar.Fuel.{
  max, depth, items_depth, fields_depth, section_refs, unfollowed,
}

max-le : (m n d : ℕ) → max m n ≤ d → (m ≤ d) × (n ≤ d)
max-le m n d h = ground arith

le-max : (m n : ℕ) → (m ≤ max m n) × (n ≤ max m n)
le-max m n = ground arith

get-field :
    (key k raw : Text) (w : Json) (fs : Fields) {v : Json}
    → get key (field k raw w fs) ≡ some v
    → (get key fs ≡ some v) ⊎ ((k ≡ key) × (w ≡ v))
unfolding get
get-field key k raw w fs h = elim (Option-cases (get key fs)) [
  | inl e ↦ ground (arith, e, h, text_beq_iff k key)
  | inr (u, e) ↦ inl (e ∙ rw e at h)
]

pub get-le : (key : Text) (fs : Fields) {v : Json} → get key fs ≡ some v → depth v ≤ fields_depth fs
unfolding get depth
get-le key end h = cc
get-le key (field k raw w fs) {v} h =
    let (here, there) = le-max (depth w) (fields_depth fs) in
    elim (get-field key k raw w fs h) [
      | inl e ↦ omega (arith, get-le key fs e, there)
      | inr (same, e) ↦ rw (sym e) here
    ]

-- Documents of at most a depth.
abbrev pub IsWithin : ℕ → List Json → Type 0
IsWithin d vs = All (λ v. depth v ≤ d) vs

abbrev pub AreWithin : ℕ → List (Text × Json) → Type 0
AreWithin d m = All (λ p. depth p.1 ≤ d) m

pub item_list-IsWithin : (d : ℕ) (vs : Items) → items_depth vs ≤ d → IsWithin d (item_list vs)
unfolding depth
item_list-IsWithin d nil h = tt
item_list-IsWithin d (cons v vs) h =
    let (first, rest) = max-le (depth v) (items_depth vs) d h in
    (first, item_list-IsWithin d vs rest)

insert-AreWithin :
    (d : ℕ) (key : Text) (v : Json) (m : List (Text × Json))
    → depth v ≤ d
    → AreWithin d m
    → AreWithin d (insert key v m)
unfolding insert
insert-AreWithin d key v [] h k = (h, tt)
insert-AreWithin d key v ((at, old) ∷ m) h k = ground (arith, insert-AreWithin d key v m h)

add_entries-AreWithin :
    (d : ℕ) (m : List (Text × Json)) (fs : Fields)
    → AreWithin d m
    → fields_depth fs ≤ d
    → AreWithin d (add_entries m fs)
unfolding add_entries depth
add_entries-AreWithin d m end h k = h
add_entries-AreWithin d m (field key raw v fs) h k =
    let (first, rest) = max-le (depth v) (fields_depth fs) d k in
    add_entries-AreWithin d (insert key v m) fs (insert-AreWithin d key v m first h) rest

pub entries-AreWithin : (d : ℕ) (fs : Fields) → fields_depth fs ≤ d → AreWithin d (entries fs)
unfolding entries
entries-AreWithin d fs h = add_entries-AreWithin d [] fs tt h

pub section-member :
    (prefix name : Text) (fs : Fields) {v : Json}
    → get name fs ≡ some v
    → member (prefix ++ name) (section_refs prefix fs) ≡ true
unfolding get section_refs
section-member prefix name end h = cc
section-member prefix name (field k raw w fs) {v} h = elim (get-field name k raw w fs h) [
  | inl e ↦ ground (arith, section-member prefix name fs e)
  | inr (same, e) ↦ ground (arith, same, text_beq_iff (prefix ++ name) (prefix ++ k))
]

-- References that are followed stay so.
abbrev pub IsKept : List (Text × Text) → List (Text × Text) → Type 0
IsKept refs more =
    (ref : Text) → has_rule (lookup ref refs) ≡ true → has_rule (lookup ref more) ≡ true

pub unfollowed-le :
    (refs more : List (Text × Text)) (ts : List Text)
    → IsKept refs more
    → unfollowed more ts ≤ unfollowed refs ts
unfolding unfollowed
unfollowed-le refs more [] h = omega arith
unfollowed-le refs more (t ∷ ts) h = ground (arith, unfollowed-le refs more ts h, h t)

pub insert-IsKept :
    (refs : List (Text × Text)) (ref rule : Text) → IsKept refs (insert ref rule refs)
insert-IsKept refs ref rule other h = ground (arith, lookup-insert ref other rule refs)

pub insert-unfollowed :
    (refs : List (Text × Text)) (ref rule : Text) (ts : List Text)
    → lookup ref refs ≡ none
    → member ref ts ≡ true
    → unfollowed (insert ref rule refs) ts < unfollowed refs ts
unfolding unfollowed
insert-unfollowed refs ref rule [] h k = cc
insert-unfollowed refs ref rule (t ∷ ts) h k = ground (
  arith,
  insert-unfollowed refs ref rule ts h,
  unfollowed-le refs (insert ref rule refs) ts (insert-IsKept refs ref rule),
  lookup-insert ref t rule refs,
  text_beq_iff ref t,
)

pub drop-prefix : (s p : Text) → has_prefix s p ≡ true → p ++ drop (length p) s ≡ s
unfolding has_prefix
drop-prefix s [] h = refl
drop-prefix [] (d ∷ p) h = cc
drop-prefix (c ∷ s) (d ∷ p) h = ground (arith, drop-prefix s p)

some_inj {ℓ} : {A : Type ℓ} {a b : A} → ◌≡◌ {A = Option A} (some a) (some b) → a ≡ b
some_inj h = cc

as_list-eq :
    (o : Option Json) {vs : List Json}
    → as_list o ≡ some vs
    → (items : Items) × (o ≡ some (arr items)) × (item_list items ≡ vs)
as_list-eq none h = cc
as_list-eq (some (arr items)) h = (items, refl, some_inj h)
as_list-eq (some null) h = cc
as_list-eq (some (bool b)) h = cc
as_list-eq (some (num s)) h = cc
as_list-eq (some (str s)) h = cc
as_list-eq (some (obj fs)) h = cc

pub as_object-eq : (o : Option Json) {fs : Fields} → as_object o ≡ some fs → o ≡ some (obj fs)
as_object-eq none h = cc
as_object-eq (some (obj ms)) h = cc
as_object-eq (some null) h = cc
as_object-eq (some (bool b)) h = cc
as_object-eq (some (num s)) h = cc
as_object-eq (some (str s)) h = cc
as_object-eq (some (arr vs)) h = cc

-- The members of a node that are lists, and the entries of one that is an object.
pub as_list-IsWithin :
    (key : Text) (n : Fields) {vs : List Json}
    → as_list (get key n) ≡ some vs
    → IsWithin (fields_depth n) vs
unfolding depth
as_list-IsWithin key n {vs} h =
    let (items, e, same) = as_list-eq (get key n) h in
    rw (sym same) (item_list-IsWithin (fields_depth n) items (omega (arith, get-le key n e)))

pub as_object-AreWithin :
    (key : Text) (n : Fields) {fs : Fields}
    → as_object (get key n) ≡ some fs
    → AreWithin (fields_depth n) (entries fs)
unfolding depth
as_object-AreWithin key n {fs} h =
    entries-AreWithin (fields_depth n) fs (omega (arith, get-le key n (as_object-eq (get key n) h)))
