-- ===== src/Json/Parse/Fuel.antt =====
-- The readers of a document on fuel, and that each of them takes characters.
pub mod Enough
use go_llama_cpp.Base.{
  ℕ, zero, suc, ◌+◌, ◌*◌, ◌-◌, ◌≤◌, ◌<◌, ◌≡◌, refl, sym, ap, ap₂, ◌∙◌, Option, none, some, [], ◌∷◌,
  Text, length, take, is_empty, if◌then◌else◌, arith,
}
use go_llama_cpp.Json.{Json, null, bool, num, str, arr, obj, Items, nil, cons, Fields, end, field}
use go_llama_cpp.Json.Parse.Strings.{skip_space, string_token}
use go_llama_cpp.Json.Parse.{
  Lead, brace, bracket, quote, other, lead, literal, Follow, comma, shut, bad, follow, key_token,
  value, items, members, parse,
}
use go_llama_cpp.Json.Parse.Length.{
  IsShorter, weaken-IsShorter, FollowIsShorter, follow-IsShorter, weaken-FollowIsShorter,
  skip_space-le,
}
use go_llama_cpp.Json.Parse.Length.Tokens.{
  string_token-IsShorter, literal-IsShorter, key_token-IsShorter,
}

map-IsShorter {ℓ κ} :
    {A : Type ℓ} {B : Type κ} (n : ℕ) (g : A → B) (o : Option (A × Text))
    → IsShorter n o
    → IsShorter n (elim o [ none ↦ none | some (a, rest) ↦ some (g a, rest) ])
map-IsShorter n g none h = tt
map-IsShorter n g (some (a, rest)) h = h

-- A bracket that closes at once, or what stands in it.
abbrev pub opened : Follow → Json → Option (Json × Text) → Option (Json × Text)
opened x empty o = elim x [ shut rest ↦ some (empty, rest) | _ ↦ o ]

opened-IsShorter :
    (n : ℕ) (x : Follow) (empty : Json) (o : Option (Json × Text))
    → FollowIsShorter n x
    → IsShorter n o
    → IsShorter n (opened x empty o)
opened-IsShorter n (shut rest) empty o h k = h
opened-IsShorter n (comma rest) empty o h k = k
opened-IsShorter n bad empty o h k = k

-- The value behind its first character.
abbrev pub lead_cases :
    Lead
    → Option (Json × Text)
    → Option (Json × Text)
    → Option (Json × Text)
    → Option (Json × Text)
    → Option (Json × Text)
lead_cases x object array string scalar = elim x [
  | brace ↦ object
  | bracket ↦ array
  | quote ↦ string
  | other ↦ scalar
]

lead_cases-IsShorter :
    (n : ℕ) (x : Lead) (object array string scalar : Option (Json × Text))
    → IsShorter n object
    → IsShorter n array
    → IsShorter n string
    → IsShorter n scalar
    → IsShorter n (lead_cases x object array string scalar)
lead_cases-IsShorter n brace o a t l h i j k = h
lead_cases-IsShorter n bracket o a t l h i j k = i
lead_cases-IsShorter n quote o a t l h i j k = j
lead_cases-IsShorter n other o a t l h i j k = k

-- What follows an item, and the rest of the items.
abbrev pub followed {ℓ} :
    {A : Type ℓ} → Follow → A → (A → A) → (Text → Option (A × Text)) → Option (A × Text)
followed x last g more = elim x [
  | shut rest ↦ some (last, rest)
  | comma rest ↦ elim (more (skip_space rest)) [ none ↦ none | some (a, after) ↦ some (g a, after) ]
  | bad ↦ none
]

followed-IsShorter {ℓ} :
    {A : Type ℓ} (n : ℕ) (x : Follow) (last : A) (g : A → A) (more : Text → Option (A × Text))
    → FollowIsShorter n x
    → ((s : Text) → length s < n → IsShorter n (more s))
    → IsShorter n (followed x last g more)
followed-IsShorter n (shut rest) last g more h k = h
followed-IsShorter n (comma rest) last g more h k =
    map-IsShorter n g (more (skip_space rest))
      (k (skip_space rest) (omega (arith, h, skip_space-le rest)))
followed-IsShorter n bad last g more h k = tt

pub followed-eq {ℓ} :
    {A : Type ℓ} (n : ℕ) (x : Follow) (last : A) (g : A → A) (more less : Text → Option (A × Text))
    → FollowIsShorter n x
    → ((s : Text) → length s < n → more s ≡ less s)
    → followed x last g more ≡ followed x last g less
followed-eq n (shut rest) last g more less h k = refl
followed-eq n (comma rest) last g more less h k =
    ap (λ o. elim o [ none ↦ none | some (a, after) ↦ some (g a, after) ])
      (k (skip_space rest) (omega (arith, h, skip_space-le rest)))
followed-eq n bad last g more less h k = refl

pub follow-lt :
    (n close : ℕ) (s : Text) → length s < n → FollowIsShorter n (follow close (skip_space s))
follow-lt n close s h =
    weaken-FollowIsShorter (length (skip_space s)) n (follow close (skip_space s))
      (omega (arith, h, skip_space-le s)) (follow-IsShorter close (skip_space s))

-- `items` behind its first value, and `members` behind a key and behind its value.
abbrev pub after_item :
    (Text → Option (Items × Text)) → Option (Json × Text) → Option (Items × Text)
after_item more r = elim r [
  | none ↦ none
  | some (v, rest) ↦ followed (follow b']' (skip_space rest)) (cons v nil) (cons v) more
]

abbrev pub after_member :
    (Text → Option (Fields × Text)) → Text → Text → Option (Json × Text) → Option (Fields × Text)
after_member more k s r = elim r [
  | none ↦ none
  | some (v, rest) ↦
      let raw = take (length s - length rest) s in
      followed (follow b'}' (skip_space rest)) (field k raw v end) (field k raw v) more
]

abbrev pub after_key :
    (Text → Option (Fields × Text))
    → (Text → Option (Json × Text))
    → Option (Text × Text)
    → Option (Fields × Text)
after_key more read r = elim r [ none ↦ none | some (k, s) ↦ after_member more k s (read s) ]

-- What all readers on a fuel leave is shorter.
pub record Reads (f : ℕ) : Type 0 where
  pub one : (s : Text) → IsShorter (length s) (value f s)
  pub many : (s : Text) → IsShorter (length s) (items f s)
  pub named : (s : Text) → IsShorter (length s) (members f s)

module _ (f : ℕ) (h : Reads f) where
  items_from : (n : ℕ) (s : Text) → length s ≤ n → IsShorter n (items f s)
  items_from n s le = weaken-IsShorter (length s) n (items f s) le (h.many s)

  members_from : (n : ℕ) (s : Text) → length s ≤ n → IsShorter n (members f s)
  members_from n s le = weaken-IsShorter (length s) n (members f s) le (h.named s)

  value-IsShorter : (s : Text) → IsShorter (length s) (value (suc f) s)
  unfolding value
  value-IsShorter [] = tt
  value-IsShorter (c ∷ s) =
      let n = length (c ∷ s) in
      let t = skip_space s in
      lead_cases-IsShorter n (lead c) _ _ _ _
        (opened-IsShorter n (follow b'}' t) (obj end) _ (follow-lt n b'}' s (omega arith))
          (map-IsShorter n obj (members f t) (members_from n t (omega (arith, skip_space-le s)))))
        (opened-IsShorter n (follow b']' t) (arr nil) _ (follow-lt n b']' s (omega arith))
          (map-IsShorter n arr (items f t) (items_from n t (omega (arith, skip_space-le s)))))
        (map-IsShorter n str (string_token s)
          (weaken-IsShorter (length s) n (string_token s) (omega arith) (string_token-IsShorter s)))
        (literal-IsShorter c s)

  after_item-IsShorter :
      (n : ℕ) (r : Option (Json × Text)) → IsShorter n r → IsShorter n (after_item (items f) r)
  after_item-IsShorter n none k = tt
  after_item-IsShorter n (some (v, rest)) k =
      followed-IsShorter n (follow b']' (skip_space rest)) (cons v nil) (cons v) (items f)
        (follow-lt n b']' rest k) λ s lt. items_from n s (omega (arith, lt))

  after_member-IsShorter :
      (n : ℕ) (key s : Text) (r : Option (Json × Text))
      → IsShorter n r
      → IsShorter n (after_member (members f) key s r)
  after_member-IsShorter n key s none k = tt
  after_member-IsShorter n key s (some (v, rest)) k =
      followed-IsShorter n (follow b'}' (skip_space rest)) _ _ (members f) (follow-lt n b'}' rest k)
        λ t lt. members_from n t (omega (arith, lt))

  after_key-IsShorter :
      (n : ℕ) (r : Option (Text × Text))
      → IsShorter n r
      → IsShorter n (after_key (members f) (value f) r)
  after_key-IsShorter n none k = tt
  after_key-IsShorter n (some (key, s)) k =
      after_member-IsShorter n key s (value f s)
        (weaken-IsShorter (length s) n (value f s) (omega (arith, k)) (h.one s))

  suc-Reads : Reads (suc f)
  unfolding value
  suc-Reads = record {
    one = value-IsShorter;
    many = λ s. after_item-IsShorter (length s) (value f s) (h.one s);
    named = λ s. after_key-IsShorter (length s) (key_token s) (key_token-IsShorter s);
  }

pub reads : (f : ℕ) → Reads f
unfolding value
reads zero = record { one = λ s. tt; many = λ s. tt; named = λ s. tt }
reads (suc f) = suc-Reads f (reads f)
