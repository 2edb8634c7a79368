-- ===== src/Json/Parse/Numbers.antt =====
-- Go's `encoding/json`: the literals of numbers.
use go_llama_cpp.Base.{
  ℕ, ◌||◌, Option, none, some, [], ◌∷◌, ◌++◌, nat_beq, if◌then◌else◌, Text, is_empty,
}
use go_llama_cpp.Json.Parse.Strings.{◌>>=◌, is_digit}

-- The longest run of digits.
unfoldable pub digit_run : Text → Text × Text
digit_run [] = ([], [])
digit_run (c ∷ s) =
    let (ds, rest) = digit_run s in if is_digit c then (c ∷ ds, rest) else ([], c ∷ s)

unfoldable pub int_part : Text → Option (Text × Text)
unfolding digit_run
int_part [] = none
int_part (c ∷ s) =
    if nat_beq c b'0'
    then some (c ∷ [], s)
    else if is_digit c
    then (let (ds, rest) = digit_run s in some (c ∷ ds, rest))
    else none

unfoldable pub some_digits : Text → Option (Text × Text)
unfolding digit_run
some_digits s = let (ds, rest) = digit_run s in if is_empty ds then none else some (ds, rest)

unfoldable pub frac_part : Text → Option (Text × Text)
unfolding some_digits
frac_part [] = some ([], [])
frac_part (c ∷ s) =
    if nat_beq c b'.' then (do t ← some_digits s; some (c ∷ t.0, t.1)) else some ([], c ∷ s)

unfoldable pub exp_digits : ℕ → Text → Option (Text × Text)
unfolding some_digits
exp_digits e [] = none
exp_digits e (c ∷ s) =
    if nat_beq c b'+' || nat_beq c b'-'
    then (do t ← some_digits s; some (e ∷ c ∷ t.0, t.1))
    else (do t ← some_digits (c ∷ s); some (e ∷ t.0, t.1))

unfoldable pub exp_part : Text → Option (Text × Text)
unfolding exp_digits
exp_part [] = some ([], [])
exp_part (c ∷ s) = if nat_beq c b'e' || nat_beq c b'E' then exp_digits c s else some ([], c ∷ s)

unfoldable pub unsigned : Text → Option (Text × Text)
unfolding int_part frac_part exp_part
unsigned s = do i ← int_part s; f ← frac_part i.1; e ← exp_part f.1; some (i.0 ++ (f.0 ++ e.0), e.1)

unfoldable pub number_token : Text → Option (Text × Text)
unfolding unsigned
number_token [] = none
number_token (c ∷ s) =
    if nat_beq c b'-' then (do t ← unsigned s; some (c ∷ t.0, t.1)) else unsigned (c ∷ s)
