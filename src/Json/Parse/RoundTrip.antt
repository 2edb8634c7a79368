-- ===== src/Json/Parse/RoundTrip.antt =====
-- Strings, arrays and objects that `json.Marshal` writes, read by `json.Unmarshal`.
use go_llama_cpp.Base.{
  ℕ, zero, suc, ◌+◌, ◌-◌, ◌*◌, ◌≤◌, ◌<◌, ◌≡◌, refl, ap, ◌∙◌, some, List, [], ◌∷◌, ◌++◌,
  append_assoc, append-nil, Text, length, length-append, take, take-append, All, arith,
}
use go_llama_cpp.Json.{Json, str, arr, obj, Items, nil, cons, Fields, end, field}
use go_llama_cpp.Json.Print.{escaped, marshal_string, marshal_members, marshal_object}
use go_llama_cpp.Json.Escapes.{IsUnicode, string_token-escaped}
use go_llama_cpp.Json.Parse.Strings.{skip_space, is_json_space, string_token}
use go_llama_cpp.Json.Parse.{value, items, members, parse, lead, follow, comma, shut, key_token}

-- A text that is read as a document from the front of any input, with enough fuel; it starts with
-- no white space.
pub record IsReadable (raw : Text) (v : Json) : Type 0 where
  pub solid : (rest : Text) → skip_space (raw ++ rest) ≡ raw ++ rest
  pub reads : (f : ℕ) (rest : Text) → 2 * length raw < f → value f (raw ++ rest) ≡ some (v, rest)

pub parse-IsReadable : (raw : Text) (v : Json) → IsReadable raw v → parse raw ≡ some v
unfolding parse skip_space
parse-IsReadable raw v h =
    let whole : value (2 * length raw + 2) raw ≡ some (v, []) =
      rw (append-nil raw) at (h.reads (2 * length raw + 2) [] (omega arith)) in
    let front : skip_space raw ≡ raw = rw (append-nil raw) at (h.solid []) in
    rw (parse, front, whole) refl

value-quote :
    (f : ℕ) (s t rest : Text)
    → string_token s ≡ some (t, rest)
    → value (suc f) (b'"' ∷ s) ≡ some (str t, rest)
unfolding value lead
value-quote f s t rest h = rw (value, h) refl

marshal_string-reads :
    (s : Text)
    → IsUnicode s
    → (f : ℕ) (rest : Text) → 2 * length (marshal_string s) < f
    → value f (marshal_string s ++ rest) ≡ some (str s, rest)
unfolding marshal_string
marshal_string-reads s h zero rest k = absurd (omega arith)
marshal_string-reads s h (suc f) rest k =
    value-quote f (escaped s ++ b'"' ∷ [] ++ rest) s rest
      (rw (append_assoc (escaped s) (b'"' ∷ []) rest) (string_token-escaped s rest h))

pub marshal_string-IsReadable : (s : Text) → IsUnicode s → IsReadable (marshal_string s) (str s)
unfolding marshal_string skip_space is_json_space
marshal_string-IsReadable s h = record { solid = λ rest. refl; reads = marshal_string-reads s h }

-- A member of an object: its key, the text of its value, and the document of that text.
pub record Member : Type 0 where
  pub key : Text
  pub raw : Text
  pub document : Json

abbrev pub texts : List Member → List (Text × Text)
texts [] = []
texts (m ∷ ms) = (m.key, m.raw) ∷ texts ms

abbrev pub fields : List Member → Fields
fields [] = end
fields (m ∷ ms) = field m.key m.raw m.document (fields ms)

abbrev pub IsMember : Member → Type 0
IsMember m = IsUnicode m.key × IsReadable m.raw m.document

key_token-marshal_string :
    (k s : Text)
    → IsUnicode k
    → skip_space s ≡ s
    → key_token (marshal_string k ++ b':' ∷ s) ≡ some (k, s)
unfolding key_token marshal_string skip_space is_json_space
key_token-marshal_string k s h e =
    rw (append_assoc (escaped k) (b'"' ∷ []) (b':' ∷ s), string_token-escaped k (b':' ∷ s) h, e)
      refl

take-front : (s rest : Text) → take (length (s ++ rest) - length rest) (s ++ rest) ≡ s
take-front s rest =
    let e : length (s ++ rest) - length rest ≡ length s = omega (arith, length-append s rest) in
    rw e (take-append s rest)

members-last :
    (f : ℕ) (s k raw rest after : Text) (v : Json)
    → key_token s ≡ some (k, raw ++ rest)
    → value f (raw ++ rest) ≡ some (v, rest)
    → follow b'}' (skip_space rest) ≡ shut after
    → members (suc f) s ≡ some (field k raw v end, after)
unfolding value
members-last f s k raw rest after v h r e = rw (members, h, r, e, take-front raw rest) refl

members-more :
    (f : ℕ) (s k raw rest next after : Text) (v : Json) (fs : Fields)
    → key_token s ≡ some (k, raw ++ rest)
    → value f (raw ++ rest) ≡ some (v, rest)
    → follow b'}' (skip_space rest) ≡ comma next
    → members f (skip_space next) ≡ some (fs, after)
    → members (suc f) s ≡ some (field k raw v fs, after)
unfolding value
members-more f s k raw rest next after v fs h r e t =
    rw (members, h, r, e, t, take-front raw rest) refl

-- The members in front of a text, and a bound on the fuel for them.
written : Member → List Member → Text → Text
written m [] rest = marshal_string m.key ++ b':' ∷ (m.raw ++ rest)
written m (m' ∷ ms) rest = marshal_string m.key ++ b':' ∷ (m.raw ++ b',' ∷ written m' ms rest)

marshal_members-append :
    (m : Member) (ms : List Member) (rest : Text)
    → marshal_members (texts (m ∷ ms)) ++ rest ≡ written m ms rest
unfolding marshal_members written
marshal_members-append m [] rest = append_assoc (marshal_string m.key) (b':' ∷ m.raw) rest
marshal_members-append m (m' ∷ ms) rest =
    append_assoc (marshal_string m.key) (b':' ∷ (m.raw ++ b',' ∷ marshal_members (texts (m' ∷ ms))))
      rest
    ∙ ap (λ t. marshal_string m.key ++ b':' ∷ t)
        (append_assoc m.raw (b',' ∷ marshal_members (texts (m' ∷ ms))) rest
          ∙ ap (λ t. m.raw ++ b',' ∷ t) (marshal_members-append m' ms rest))

width : Member → List Member → ℕ
width m [] = length m.raw + 1
width m (m' ∷ ms) = length m.raw + 1 + width m' ms

width-le : (m : Member) (ms : List Member) → width m ms ≤ length (marshal_members (texts (m ∷ ms)))
unfolding width marshal_members
width-le m [] = omega (arith, length-append (marshal_string m.key) (b':' ∷ m.raw))
width-le m (m' ∷ ms) = omega (
  arith,
  length-append (marshal_string m.key) (b':' ∷ (m.raw ++ b',' ∷ marshal_members (texts (m' ∷ ms)))),
  length-append m.raw (b',' ∷ marshal_members (texts (m' ∷ ms))),
  width-le m' ms,
)

skip_space-written :
    (m : Member) (ms : List Member) (rest : Text)
    → skip_space (written m ms rest) ≡ written m ms rest
unfolding written marshal_string skip_space is_json_space
skip_space-written m [] rest = refl
skip_space-written m (m' ∷ ms) rest = refl

members-written :
    (m : Member) (ms : List Member)
    → All IsMember (m ∷ ms)
    → (f : ℕ) (rest : Text) → 2 * width m ms < f
    → members f (written m ms (b'}' ∷ rest)) ≡ some (fields (m ∷ ms), rest)
unfolding written width follow skip_space is_json_space
members-written m ms h zero rest k = absurd (omega arith)
members-written m [] (h, _) (suc f) rest k =
    members-last f (marshal_string m.key ++ b':' ∷ (m.raw ++ b'}' ∷ rest)) m.key m.raw (b'}' ∷ rest)
      rest m.document
      (key_token-marshal_string m.key (m.raw ++ b'}' ∷ rest) h.0 (h.1.solid (b'}' ∷ rest)))
      (h.1.reads f (b'}' ∷ rest) (omega arith)) refl
members-written m (m' ∷ ms) (h, hs) (suc f) rest k =
    let next = b',' ∷ written m' ms (b'}' ∷ rest) in
    members-more f (marshal_string m.key ++ b':' ∷ (m.raw ++ next)) m.key m.raw next
      (written m' ms (b'}' ∷ rest)) rest m.document (fields (m' ∷ ms))
      (key_token-marshal_string m.key (m.raw ++ next) h.0 (h.1.solid next))
      (h.1.reads f next (omega arith)) refl
      (rw (skip_space-written m' ms (b'}' ∷ rest)) (members-written m' ms hs f rest (omega arith)))

value-brace :
    (f : ℕ) (s t rest : Text) (fs : Fields)
    → skip_space s ≡ b'"' ∷ t
    → members f (b'"' ∷ t) ≡ some (fs, rest)
    → value (suc f) (b'{' ∷ s) ≡ some (obj fs, rest)
unfolding value lead follow
value-brace f s t rest fs e h = rw (value, e, e, h) refl

quote_first :
    (m : Member) (ms : List Member) (rest : Text) → (t : Text) × (written m ms rest ≡ b'"' ∷ t)
unfolding written marshal_string
quote_first m [] rest = (_, refl)
quote_first m (m' ∷ ms) rest = (_, refl)

object-reads :
    (m : Member) (ms : List Member)
    → All IsMember (m ∷ ms)
    → (f : ℕ) (rest : Text) → 2 * length (marshal_object (texts (m ∷ ms))) < f
    → value f (marshal_object (texts (m ∷ ms)) ++ rest) ≡ some (obj (fields (m ∷ ms)), rest)
unfolding marshal_object
object-reads m ms h zero rest k = absurd (omega arith)
object-reads m ms h (suc f) rest k =
    let all = marshal_members (texts (m ∷ ms)) in
    let (t, q) = quote_first m ms (b'}' ∷ rest) in
    rw (append_assoc all (b'}' ∷ []) rest, marshal_members-append m ms (b'}' ∷ rest))
      (value-brace f (written m ms (b'}' ∷ rest)) t rest (fields (m ∷ ms))
        (skip_space-written m ms (b'}' ∷ rest) ∙ q)
        (rw (← q) (
          members-written m ms h f rest
            (omega (arith, width-le m ms, length-append all (b'}' ∷ []))))))

-- An object that was written is read back, each value in its text and as its document.
pub marshal_object-IsReadable :
    (m : Member) (ms : List Member)
    → All IsMember (m ∷ ms)
    → IsReadable (marshal_object (texts (m ∷ ms))) (obj (fields (m ∷ ms)))
unfolding marshal_object skip_space is_json_space
marshal_object-IsReadable m ms h = record { solid = λ rest. refl; reads = object-reads m ms h }

-- An array of one item.
abbrev pub singleton : Text → Text
singleton raw = b'[' ∷ (raw ++ b']' ∷ [])

items-one :
    (f : ℕ) (s rest after : Text) (v : Json)
    → value f s ≡ some (v, rest)
    → follow b']' (skip_space rest) ≡ shut after
    → items (suc f) s ≡ some (cons v nil, after)
unfolding value
items-one f s rest after v h e = rw (items, h, e) refl

value-bracket :
    (f : ℕ) (s t rest : Text) (vs : Items)
    → skip_space s ≡ b'{' ∷ t
    → items f (b'{' ∷ t) ≡ some (vs, rest)
    → value (suc f) (b'[' ∷ s) ≡ some (arr vs, rest)
unfolding value lead follow
value-bracket f s t rest vs e h = rw (value, e, e, h) refl

singleton-reads :
    (t : Text) (v : Json)
    → IsReadable (b'{' ∷ t) v
    → (f : ℕ) (rest : Text) → 2 * length (singleton (b'{' ∷ t)) < f
    → value f (singleton (b'{' ∷ t) ++ rest) ≡ some (arr (cons v nil), rest)
unfolding follow skip_space is_json_space
singleton-reads t v h zero rest k = absurd (omega arith)
singleton-reads t v h (suc zero) rest k = absurd (omega (arith, length-append t (b']' ∷ [])))
singleton-reads t v h (suc (suc f)) rest k = rw (append_assoc t (b']' ∷ []) rest) (
    value-bracket (suc f) (b'{' ∷ (t ++ b']' ∷ rest)) (t ++ b']' ∷ rest) rest (cons v nil) refl (
      items-one f (b'{' ∷ (t ++ b']' ∷ rest)) (b']' ∷ rest) rest v
        (h.reads f (b']' ∷ rest) (omega (arith, length-append t (b']' ∷ [])))) refl))

pub singleton-IsReadable :
    (t : Text) (v : Json)
    → IsReadable (b'{' ∷ t) v
    → IsReadable (singleton (b'{' ∷ t)) (arr (cons v nil))
unfolding skip_space is_json_space
singleton-IsReadable t v h = record { solid = λ rest. refl; reads = singleton-reads t v h }
