-- ===== src/Json/Parse/Fuel/Enough.antt =====
-- The fuel that a document is read on is enough: more of it changes nothing.
use go_llama_cpp.Base.{
  ℕ, zero, suc, ◌+◌, ◌*◌, ◌<◌, ◌≡◌, refl, sym, ap, ap₂, ◌∙◌, Option, none, some, [], ◌∷◌, Text,
  length, is_empty, if◌then◌else◌, arith,
}
use go_llama_cpp.Json.{Json, str, arr, obj, nil, cons, end}
use go_llama_cpp.Json.Parse.Strings.{skip_space, string_token}
use go_llama_cpp.Json.Parse.{lead, literal, follow, key_token, value, items, members, parse}
use go_llama_cpp.Json.Parse.Length.{IsShorter, skip_space-le}
use go_llama_cpp.Json.Parse.Length.Tokens.{key_token-IsShorter}
use go_llama_cpp.Json.Parse.Fuel.{
  opened, lead_cases, followed-eq, follow-lt, after_item, after_member, after_key, reads,
}

-- Readers that one more step changes nothing for, on a text that the fuel is enough for.
record Settles (f : ℕ) : Type 0 where
  one : (s : Text) → 2 * length s < f → value (suc f) s ≡ value f s
  many : (s : Text) → 2 * length s + 1 < f → items (suc f) s ≡ items f s
  named : (s : Text) → 2 * length s + 1 < f → members (suc f) s ≡ members f s

module _ (f : ℕ) (h : Settles f) where
  value-settles : (s : Text) → 2 * length s < suc f → value (suc (suc f)) s ≡ value (suc f) s
  unfolding value
  value-settles [] le = refl
  value-settles (c ∷ s) le =
      let t = skip_space s in
      ap₂
        (λ m i.
          lead_cases (lead c)
            (opened (follow b'}' t) (obj end)
              (elim m [ none ↦ none | some (fs, rest) ↦ some (obj fs, rest) ]))
            (opened (follow b']' t) (arr nil)
              (elim i [ none ↦ none | some (vs, rest) ↦ some (arr vs, rest) ]))
            (elim (string_token s) [ none ↦ none | some (text, rest) ↦ some (str text, rest) ])
            (literal (c ∷ s)))
        (h.named t (omega (arith, le, skip_space-le s)))
        (h.many t (omega (arith, le, skip_space-le s)))

  after_item-settles :
      (n : ℕ) (r : Option (Json × Text))
      → 2 * n < f
      → IsShorter n r
      → after_item (items (suc f)) r ≡ after_item (items f) r
  after_item-settles n none le k = refl
  after_item-settles n (some (v, rest)) le k =
      followed-eq n (follow b']' (skip_space rest)) (cons v nil) (cons v) (items (suc f)) (items f)
        (follow-lt n b']' rest k) λ s lt. h.many s (omega (arith, le, lt))

  after_member-settles :
      (n : ℕ) (key s : Text) (r : Option (Json × Text))
      → 2 * n < f
      → IsShorter n r
      → after_member (members (suc f)) key s r ≡ after_member (members f) key s r
  after_member-settles n key s none le k = refl
  after_member-settles n key s (some (v, rest)) le k =
      followed-eq n (follow b'}' (skip_space rest)) _ _ (members (suc f)) (members f)
        (follow-lt n b'}' rest k) λ t lt. h.named t (omega (arith, le, lt))

  after_key-settles :
      (n : ℕ) (r : Option (Text × Text))
      → 2 * n < f
      → IsShorter n r
      → after_key (members (suc f)) (value (suc f)) r ≡ after_key (members f) (value f) r
  after_key-settles n none le k = refl
  after_key-settles n (some (key, s)) le k =
      ap (after_member (members (suc f)) key s) (h.one s (omega (arith, le, k)))
      ∙ after_member-settles (length s) key s (value f s) (omega (arith, le, k)) ((reads f).one s)

  suc-Settles : Settles (suc f)
  unfolding value
  suc-Settles = record {
    one = value-settles;
    many = λ s le.
        ap (after_item (items (suc f))) (h.one s (omega (arith, le)))
        ∙ after_item-settles (length s) (value f s) (omega (arith, le)) ((reads f).one s);
    named = λ s le.
        after_key-settles (length s) (key_token s) (omega (arith, le)) (key_token-IsShorter s);
  }

settles : (f : ℕ) → Settles f
settles zero = record {
  one = λ s le. absurd (omega (arith, le));
  many = λ s le. absurd (omega (arith, le));
  named = λ s le. absurd (omega (arith, le));
}
settles (suc f) = suc-Settles f (settles f)

value-more : (more f : ℕ) (s : Text) → 2 * length s < f → value (more + f) s ≡ value f s
value-more zero f s h = ap (λ g. value g s) (omega arith)
value-more (suc more) f s h =
    ap (λ g. value g s) (omega arith)
    ∙ (settles (more + f)).one s (omega (arith, h))
    ∙ value-more more f s h

-- A document is the same on any more fuel.
pub parse-more :
    (more : ℕ) (s : Text)
    → parse s ≡ elim (value (more + (2 * length s + 2)) (skip_space s)) [
      | none ↦ none
      | some (v, rest) ↦ if is_empty (skip_space rest) then some v else none
    ]
unfolding parse
parse-more more s =
    ap
      (λ r. elim r [
        | none ↦ none
        | some (v, rest) ↦ if is_empty (skip_space rest) then some v else none
      ])
      (sym (value-more more (2 * length s + 2) (skip_space s) (omega (arith, skip_space-le s))))
