-- ===== src/Strings/Trim.antt =====
-- Lemmas on Go's `strings.TrimSpace`.
use go_llama_cpp.Base.{
  ℕ, ◌≡◌, refl, false, [], ◌∷◌, ◌++◌, arith, Text, All, is_empty, Bool-cases, inl, inr,
}
use go_llama_cpp.Strings.{is_space, trim_left, trim_right, trim_space}

abbrev pub IsSolid : ℕ → Type 0
IsSolid c = is_space c ≡ false

pub trim_left-append :
    (pre rest : Text) (c : ℕ) → IsSolid c → trim_left (pre ++ c ∷ rest) ≡ trim_left pre ++ c ∷ rest
unfolding trim_left
trim_left-append [] rest c h = rw h
trim_left-append (d ∷ pre) rest c h = elim (Bool-cases (is_space d)) [
  | inl s ↦ rw s (trim_left-append pre rest c h)
  | inr s ↦ rw s
]

trim_right_solid : (c : ℕ) (s : Text) → IsSolid c → trim_right (c ∷ s) ≡ c ∷ trim_right s
unfolding trim_right
trim_right_solid c s h = rw h

pub trim_right-append :
    (pre rest : Text) (c : ℕ)
    → IsSolid c
    → trim_right (pre ++ c ∷ rest) ≡ pre ++ c ∷ trim_right rest
unfolding trim_right
trim_right-append [] rest c h = rw h
trim_right-append (d ∷ pre) rest c h = ground (arith, trim_right-append pre rest c h, app pre)
  where
    app : (pre : Text) → is_empty (pre ++ c ∷ trim_right rest) ≡ false
    app [] = refl
    app (x ∷ xs) = refl

-- Between a first and a last character that are solid, nothing is trimmed.
pub trim_space-append :
    (pre mid post : Text) (b e : ℕ)
    → IsSolid b
    → IsSolid e
    → trim_space (pre ++ (b ∷ mid ++ e ∷ post)) ≡ trim_left pre ++ (b ∷ mid ++ e ∷ trim_right post)
unfolding trim_space
trim_space-append pre mid post b e hb he = rw (trim_left-append pre (mid ++ e ∷ post) b hb) (
    rw (trim_right-append (trim_left pre) (mid ++ e ∷ post) b hb)
      (rw (trim_right-append mid post e he)))

pub All-trim_left : (P : ℕ → Type 0) (s : Text) → All P s → All P (trim_left s)
unfolding trim_left
All-trim_left P [] h = tt
All-trim_left P (c ∷ s) h = ground (arith, All-trim_left P s)

pub All-trim_right : (P : ℕ → Type 0) (s : Text) → All P s → All P (trim_right s)
unfolding trim_right
All-trim_right P [] h = tt
All-trim_right P (c ∷ s) h = ground (arith, All-trim_right P s)
