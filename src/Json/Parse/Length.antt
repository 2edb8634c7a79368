-- ===== src/Json/Parse/Length.antt =====
-- Reading takes characters: what is left of a text is shorter.
pub mod Tokens
use go_llama_cpp.Base.{
  ℕ, zero, suc, ◌+◌, ◌*◌, ◌≤◌, ◌<◌, ◌≡◌, refl, Bool, true, false, Option, none, some, [], ◌∷◌, Text,
  length, is_empty, drop, if◌then◌else◌, arith,
}
use go_llama_cpp.Json.Parse.Strings.{◌>>=◌, skip_space}
use go_llama_cpp.Json.Parse.{Follow, comma, shut, bad, follow}

-- Of a result, if there is one, less than a number of characters is left.
abbrev pub IsShorter {ℓ} : {A : Type ℓ} → ℕ → Option (A × Text) → Type 0
IsShorter n none = Unit
IsShorter n (some (a, rest)) = length rest < n

pub >>=-IsShorter {ℓ κ} :
    {A : Type ℓ} {B : Type κ} (m n : ℕ) (o : Option (A × Text)) (f : A × Text → Option (B × Text))
    → IsShorter m o
    → ((a : A) (rest : Text) → length rest < m → IsShorter n (f (a, rest)))
    → IsShorter n (o >>= f)
>>=-IsShorter m n none f h k = tt
>>=-IsShorter m n (some (a, rest)) f h k = k a rest h

pub if-IsShorter {ℓ} :
    {A : Type ℓ} (n : ℕ) (b : Bool) (o p : Option (A × Text))
    → IsShorter n o
    → IsShorter n p
    → IsShorter n (if b then o else p)
if-IsShorter n true o p h k = h
if-IsShorter n false o p h k = k

pub weaken-IsShorter {ℓ} :
    {A : Type ℓ} (m n : ℕ) (o : Option (A × Text)) → m ≤ n → IsShorter m o → IsShorter n o
weaken-IsShorter m n none le h = tt
weaken-IsShorter m n (some (a, rest)) le h = omega (arith, le, h)

pub skip_space-le : (s : Text) → length (skip_space s) ≤ length s
unfolding skip_space
skip_space-le [] = omega arith
skip_space-le (c ∷ s) = ground (arith, skip_space-le s)

pub drop-le : (n : ℕ) (s : Text) → length (drop n s) ≤ length s
drop-le zero s = omega arith
drop-le (suc n) [] = omega arith
drop-le (suc n) (c ∷ s) = omega (arith, drop-le n s)

-- The same of what follows an item.
abbrev pub FollowIsShorter : ℕ → Follow → Type 0
FollowIsShorter n (comma rest) = length rest < n
FollowIsShorter n (shut rest) = length rest < n
FollowIsShorter n bad = Unit

pub follow-IsShorter : (close : ℕ) (s : Text) → FollowIsShorter (length s) (follow close s)
unfolding follow
follow-IsShorter close [] = tt
follow-IsShorter close (c ∷ s) = ground arith

pub weaken-FollowIsShorter :
    (m n : ℕ) (x : Follow) → m ≤ n → FollowIsShorter m x → FollowIsShorter n x
weaken-FollowIsShorter m n (comma rest) le h = omega (arith, le, h)
weaken-FollowIsShorter m n (shut rest) le h = omega (arith, le, h)
weaken-FollowIsShorter m n bad le h = tt
