-- ===== src/Json/Parse/Length/Tokens.antt =====
-- String and number tokens take characters.
use go_llama_cpp.Base.{
  ℕ, zero, suc, ◌||◌, ◌≤◌, ◌<◌, ◌≡◌, refl, ap, Bool, true, false, Option, none, some, List, [], ◌∷◌,
  Text, length, is_empty, if◌then◌else◌, arith, nat_beq, ltb,
}
use go_llama_cpp.Strings.{codes, has_prefix}
use go_llama_cpp.Json.Parse.Strings.{
  is_digit, hex4, from_hex, simple_escape, escape, next_unit, Unit16, closed, unit, broken, units,
  string_token, skip_space,
}
use go_llama_cpp.Json.Parse.Numbers.{
  digit_run, int_part, some_digits, frac_part, exp_digits, exp_part, unsigned, number_token,
}
use go_llama_cpp.Json.Parse.{literal, key_token}
use go_llama_cpp.Json.Parse.Length.{
  IsShorter, >>=-IsShorter, if-IsShorter, weaken-IsShorter, skip_space-le, drop-le,
}

abbrev UnitIsShorter : ℕ → Unit16 → Type 0
UnitIsShorter n (closed rest) = length rest < n
UnitIsShorter n (unit u rest) = length rest < n
UnitIsShorter n broken = Unit

if-UnitIsShorter :
    (n : ℕ) (b : Bool) (x y : Unit16)
    → UnitIsShorter n x
    → UnitIsShorter n y
    → UnitIsShorter n (if b then x else y)
if-UnitIsShorter n true x y h k = h
if-UnitIsShorter n false x y h k = k

from_hex-UnitIsShorter :
    (n : ℕ) (o : Option ℕ) (s : Text) → length s < n → UnitIsShorter n (from_hex o s)
unfolding from_hex
from_hex-UnitIsShorter n none s h = tt
from_hex-UnitIsShorter n (some v) s h = h

simple-UnitIsShorter :
    (n : ℕ) (o : Option ℕ) (s : Text)
    → length s < n
    → UnitIsShorter n (elim o [ some v ↦ unit v s | none ↦ broken ])
simple-UnitIsShorter n none s h = tt
simple-UnitIsShorter n (some v) s h = h

hex-UnitIsShorter :
    (n : ℕ) (s : Text)
    → length s < n
    → UnitIsShorter n (elim s [ a ∷ b ∷ d ∷ e ∷ rest ↦ from_hex (hex4 a b d e) rest | _ ↦ broken ])
hex-UnitIsShorter n [] h = tt
hex-UnitIsShorter n (a ∷ []) h = tt
hex-UnitIsShorter n (a ∷ b ∷ []) h = tt
hex-UnitIsShorter n (a ∷ b ∷ d ∷ []) h = tt
hex-UnitIsShorter n (a ∷ b ∷ d ∷ e ∷ rest) h =
    from_hex-UnitIsShorter n (hex4 a b d e) rest (omega (arith, h))

escape-UnitIsShorter : (n : ℕ) (s : Text) → length s < n → UnitIsShorter n (escape s)
unfolding escape
escape-UnitIsShorter n [] h = tt
escape-UnitIsShorter n (c ∷ s) h =
    if-UnitIsShorter n (nat_beq c b'u') _ _ (hex-UnitIsShorter n s (omega (arith, h)))
      (simple-UnitIsShorter n (simple_escape c) s (omega (arith, h)))

next_unit-UnitIsShorter : (s : Text) → UnitIsShorter (length s) (next_unit s)
unfolding next_unit
next_unit-UnitIsShorter [] = tt
next_unit-UnitIsShorter (c ∷ s) =
    let n = length (c ∷ s) in
    if-UnitIsShorter n (nat_beq c b'"') _ _ (omega arith) (
      if-UnitIsShorter n (ltb c 32) _ _ tt (
        if-UnitIsShorter n (nat_beq c 92) _ _ (escape-UnitIsShorter n s (omega arith))
          (omega arith)))

prepend-IsShorter :
    (n u : ℕ) (o : Option (List ℕ × Text))
    → IsShorter n o
    → IsShorter n (elim o [ none ↦ none | some (us, r) ↦ some (u ∷ us, r) ])
prepend-IsShorter n u none h = tt
prepend-IsShorter n u (some (us, r)) h = h

abbrev after_unit : (Text → Option (List ℕ × Text)) → Unit16 → Option (List ℕ × Text)
after_unit more x = elim x [
  | closed rest ↦ some ([], rest)
  | broken ↦ none
  | unit u rest ↦ elim (more rest) [ none ↦ none | some (us, r) ↦ some (u ∷ us, r) ]
]

units-step :
    (f n : ℕ) (x : Unit16)
    → UnitIsShorter n x
    → ((s : Text) → IsShorter (length s) (units f s))
    → IsShorter n (after_unit (units f) x)
units-step f n (closed rest) h ih = h
units-step f n broken h ih = tt
units-step f n (unit u rest) h ih =
    prepend-IsShorter n u (units f rest)
      (weaken-IsShorter (length rest) n (units f rest) (omega (arith, h)) (ih rest))

units-IsShorter : (f : ℕ) (s : Text) → IsShorter (length s) (units f s)
unfolding units
units-IsShorter zero s = tt
units-IsShorter (suc f) s =
    units-step f (length s) (next_unit s) (next_unit-UnitIsShorter s) (units-IsShorter f)

units-step-eq :
    (f n : ℕ) (x : Unit16)
    → UnitIsShorter n x
    → ((s : Text) → length s < n → units (suc f) s ≡ units f s)
    → after_unit (units (suc f)) x ≡ after_unit (units f) x
units-step-eq f n (closed rest) h ih = refl
units-step-eq f n broken h ih = refl
units-step-eq f n (unit u rest) h ih =
    ap (λ o. elim o [ none ↦ none | some (us, r) ↦ some (u ∷ us, r) ]) (ih rest h)

-- The fuel of a string is enough: one more step changes nothing.
pub units-settle : (f : ℕ) (s : Text) → length s < f → units (suc f) s ≡ units f s
unfolding units
units-settle zero s h = absurd (omega (arith, h))
units-settle (suc f) s h =
    units-step-eq f (length s) (next_unit s) (next_unit-UnitIsShorter s)
      λ t lt. units-settle f t (omega (arith, h, lt))

pub string_token-IsShorter : (s : Text) → IsShorter (length s) (string_token s)
unfolding string_token
string_token-IsShorter s =
    >>=-IsShorter (length s) (length s) (units (suc (length s)) s) _
      (units-IsShorter (suc (length s)) s) λ us rest h. h

digit_run-le : (s : Text) → length (digit_run s).1 ≤ length s
unfolding digit_run
digit_run-le [] = omega arith
digit_run-le (c ∷ s) = ground (arith, digit_run-le s)

some_digits-IsShorter : (s : Text) → IsShorter (suc (length s)) (some_digits s)
unfolding some_digits
some_digits-IsShorter s =
    if-IsShorter (suc (length s)) (is_empty (digit_run s).0) none
      (some ((digit_run s).0, (digit_run s).1)) tt (omega (arith, digit_run-le s))

int_part-IsShorter : (s : Text) → IsShorter (length s) (int_part s)
unfolding int_part
int_part-IsShorter [] = tt
int_part-IsShorter (c ∷ s) = if-IsShorter (suc (length s)) (nat_beq c b'0') _ _ (omega arith) (
    if-IsShorter (suc (length s)) (is_digit c) (some (c ∷ (digit_run s).0, (digit_run s).1)) none
      (omega (arith, digit_run-le s)) tt)

frac_part-IsShorter : (s : Text) → IsShorter (suc (length s)) (frac_part s)
unfolding frac_part
frac_part-IsShorter [] = omega arith
frac_part-IsShorter (c ∷ s) =
    let n = suc (length (c ∷ s)) in
    if-IsShorter n (nat_beq c b'.') _ (some ([], c ∷ s))
      (>>=-IsShorter (suc (length s)) n (some_digits s) _ (some_digits-IsShorter s)
        λ ds rest h. omega (arith, h))
      (omega arith)

exp_digits-IsShorter : (e : ℕ) (s : Text) → IsShorter (suc (length s)) (exp_digits e s)
unfolding exp_digits
exp_digits-IsShorter e [] = tt
exp_digits-IsShorter e (c ∷ s) =
    let n = suc (length (c ∷ s)) in
    if-IsShorter n (nat_beq c b'+' || nat_beq c b'-') _ _
      (>>=-IsShorter (suc (length s)) n (some_digits s) _ (some_digits-IsShorter s)
        λ ds rest h. omega (arith, h))
      (>>=-IsShorter n n (some_digits (c ∷ s)) _ (some_digits-IsShorter (c ∷ s)) λ ds rest h. h)

exp_part-IsShorter : (s : Text) → IsShorter (suc (length s)) (exp_part s)
unfolding exp_part
exp_part-IsShorter [] = omega arith
exp_part-IsShorter (c ∷ s) =
    let n = suc (length (c ∷ s)) in
    if-IsShorter n (nat_beq c b'e' || nat_beq c b'E') (exp_digits c s) (some ([], c ∷ s))
      (weaken-IsShorter (suc (length s)) n (exp_digits c s) (omega arith)
        (exp_digits-IsShorter c s))
      (omega arith)

unsigned-IsShorter : (s : Text) → IsShorter (length s) (unsigned s)
unfolding unsigned
unsigned-IsShorter s =
    let n = length s in
    >>=-IsShorter n n (int_part s) _ (int_part-IsShorter s) λ i after h.
      >>=-IsShorter (suc (length after)) n (frac_part after) _ (frac_part-IsShorter after)
        λ f later k.
          >>=-IsShorter (suc (length later)) n (exp_part later) _ (exp_part-IsShorter later)
            λ e rest l. omega (arith, h, k, l)

number_token-IsShorter : (s : Text) → IsShorter (length s) (number_token s)
unfolding number_token
number_token-IsShorter [] = tt
number_token-IsShorter (c ∷ s) =
    let n = length (c ∷ s) in
    if-IsShorter n (nat_beq c b'-') _ _
      (>>=-IsShorter (length s) n (unsigned s) _ (unsigned-IsShorter s)
        λ t rest h. omega (arith, h))
      (unsigned-IsShorter (c ∷ s))

pub literal-IsShorter : (c : ℕ) (s : Text) → IsShorter (suc (length s)) (literal (c ∷ s))
unfolding literal
literal-IsShorter c s =
    let n = length (c ∷ s) in
    if-IsShorter n (has_prefix (c ∷ s) (codes "null")) _ _ (omega (arith, drop-le 3 s)) (
      if-IsShorter n (has_prefix (c ∷ s) (codes "true")) _ _ (omega (arith, drop-le 3 s)) (
        if-IsShorter n (has_prefix (c ∷ s) (codes "false")) _ _ (omega (arith, drop-le 4 s)) (
          >>=-IsShorter n n (number_token (c ∷ s)) _ (number_token-IsShorter (c ∷ s))
            λ t rest h. h)))

colon-IsShorter :
    (n : ℕ) (key s : Text)
    → length s ≤ n
    → IsShorter n (elim s [
      | [] ↦ none
      | c ∷ rest ↦ if nat_beq c b':' then some (key, skip_space rest) else none
    ])
colon-IsShorter n key [] h = tt
colon-IsShorter n key (c ∷ rest) h =
    if-IsShorter n (nat_beq c b':') (some (key, skip_space rest)) none
      (omega (arith, h, skip_space-le rest)) tt

pub key_token-IsShorter : (s : Text) → IsShorter (length s) (key_token s)
unfolding key_token
key_token-IsShorter [] = tt
key_token-IsShorter (q ∷ s) =
    let n = length (q ∷ s) in
    if-IsShorter n (nat_beq q b'"') _ none
      (>>=-IsShorter (length s) n (string_token s) _ (string_token-IsShorter s)
        λ t rest h. colon-IsShorter n t (skip_space rest) (omega (arith, h, skip_space-le rest)))
      tt
