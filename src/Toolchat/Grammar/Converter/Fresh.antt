-- ===== src/Toolchat/Grammar/Converter/Fresh.antt =====
-- toolchat/schema_grammar.go: the loop of `reserve` ends at a name that is not taken.
use go_llama_cpp.Base.{
  ℕ, zero, suc, ◌+◌, ◌≤◌, ◌<◌, ◌≡◌, inl, inr, refl, sym, ap, subst, ◌∙◌, true, false, ◌||◌, ◌&&◌,
  not, List, [], ◌∷◌, drop, ◌++◌, Text, length, length-append, text_beq, text_beq_iff, text_eq,
  lookup, if◌then◌else◌, arith, Bool-cases,
}
use go_llama_cpp.Strings.{itoa}
use go_llama_cpp.Strings.Decimal.{itoa_inj}
use go_llama_cpp.Toolchat.Grammar.Lexical.{member, grammar_builtin_names}
use go_llama_cpp.Toolchat.Grammar.Converter.{
  SchemaConverter, has_rule, is_taken, candidate, free_name, name_fuel, reserve,
}

-- The names that the loop passes over, as a list.
keys : List (Text × Text) → List Text
keys [] = []
keys ((name, body) ∷ rules) = name ∷ keys rules

taken : SchemaConverter → List Text
unfolding keys
taken c = keys c.rules ++ grammar_builtin_names

pub member-append :
    (s : Text) (ts us : List Text) → member s (ts ++ us) ≡ (member s ts || member s us)
member-append s [] us = refl
member-append s (t ∷ ts) us = ground (arith, member-append s ts us)

member-keys :
    (s : Text) (rules : List (Text × Text)) → member s (keys rules) ≡ has_rule (lookup s rules)
unfolding keys lookup
member-keys s [] = refl
member-keys s ((name, body) ∷ rules) =
    ground (arith, member-keys s rules, text_beq_iff s name, text_beq_iff name s)

is_taken-member : (c : SchemaConverter) (s : Text) → is_taken c s ≡ member s (taken c)
unfolding is_taken taken
is_taken-member c s =
    ground (arith, member-append s (keys c.rules) grammar_builtin_names, member-keys s c.rules)

length-keys : (rules : List (Text × Text)) → length (keys rules) ≡ length rules
unfolding keys
length-keys [] = refl
length-keys (r ∷ rules) = ap suc (length-keys rules)

-- The names that the loop tries.
nth_name : Text → ℕ → Text
nth_name base zero = base
nth_name base (suc k) = candidate base (k + 2)

append_cancel : (s t u : Text) → s ++ t ≡ s ++ u → t ≡ u
append_cancel [] t u h = h
append_cancel (c ∷ s) t u h = append_cancel s t u (ground arith)

nth_name_inj : (base : Text) (j k : ℕ) → nth_name base j ≡ nth_name base k → j ≡ k
unfolding nth_name
nth_name_inj base zero zero h = refl
nth_name_inj base zero (suc k) h =
    absurd (omega (arith, ap length h, length-append base (b'-' ∷ itoa (k + 2))))
nth_name_inj base (suc j) zero h =
    absurd (omega (arith, ap length h, length-append base (b'-' ∷ itoa (j + 2))))
nth_name_inj base (suc j) (suc k) h =
    let same : itoa (j + 2) ≡ itoa (k + 2) =
      ap (drop 1) (append_cancel base (b'-' ∷ itoa (j + 2)) (b'-' ∷ itoa (k + 2)) h) in
    omega (arith, itoa_inj (j + 2) (k + 2) same)

without : Text → List Text → List Text
without s [] = []
without s (t ∷ ts) = let rest = without s ts in if text_beq s t then rest else t ∷ rest

member-without :
    (s t : Text) (ts : List Text) → member s (without t ts) ≡ (not (text_beq s t) && member s ts)
unfolding without
member-without s t [] = ground arith
member-without s t (u ∷ ts) =
    ground (arith, member-without s t ts, text_beq_iff s t, text_beq_iff t u, text_beq_iff s u)

length-without :
    (s : Text) (ts : List Text)
    → (length (without s ts) ≤ length ts) × (member s ts ≡ true → length (without s ts) < length ts)
unfolding without
length-without s [] = (omega arith, λ h. cc)
length-without s (t ∷ ts) = ground (arith, length-without s ts)

-- The list `ts` tells which of the names from the `k`th on are taken.
abbrev Tells : SchemaConverter → Text → ℕ → List Text → Type 0
Tells c base k ts = (j : ℕ) → k ≤ j → member (nth_name base j) ts ≡ is_taken c (nth_name base j)

Tells-without :
    (c : SchemaConverter) (base : Text) (k : ℕ) (ts : List Text)
    → Tells c base k ts
    → Tells c base (suc k) (without (nth_name base k) ts)
Tells-without c base k ts h j le = ground (
  arith,
  h j,
  member-without (nth_name base j) (nth_name base k) ts,
  text_beq_iff (nth_name base j) (nth_name base k),
  nth_name_inj base j k,
)

-- Fuel for one round more than there are taken names is enough.
free_name-free :
    (fuel : ℕ) (c : SchemaConverter) (base : Text) (k : ℕ) (ts : List Text)
    → length ts < fuel
    → Tells c base k ts
    → is_taken c (free_name fuel c base (k + 2) (nth_name base k)) ≡ false
unfolding free_name nth_name
free_name-free zero c base k ts h tells = absurd (omega arith)
free_name-free (suc fuel) c base k ts h tells = elim (Bool-cases (is_taken c (nth_name base k))) [
  | inr free ↦ rw (free, free_name, free) refl
  | inl used ↦
      let shorter = (length-without (nth_name base k) ts).1 (tells k (omega arith) ∙ used) in
      let next : suc k + 2 ≡ suc (k + 2) = omega arith in
      rw (used, free_name)
        (subst (λ i. is_taken c (free_name fuel c base i (nth_name base (suc k))) ≡ false) next
          (free_name-free fuel c base (suc k) (without (nth_name base k) ts) (omega arith)
            (Tells-without c base k ts tells)))
]

-- The loop of `reserve` ends: within the rounds that the model gives it, one more than there are
-- rules and built-in names, it finds a name that is in no rule and not built in.
pub reserve-free : (c : SchemaConverter) (base : Text) → is_taken c (reserve c base).0 ≡ false
unfolding reserve nth_name taken
reserve-free c base =
    free_name-free (name_fuel c) c base 0 (taken c)
      (omega (arith, length-append (keys c.rules) grammar_builtin_names, length-keys c.rules))
      (λ j h. sym (is_taken-member c (nth_name base j)))
