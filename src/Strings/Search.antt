-- ===== src/Strings/Search.antt =====
-- Lemmas on Go's `strings.Index`, `LastIndex`, `Split` and `Join`.
use go_llama_cpp.Base.{
  ℕ, ◌+◌, ◌-◌, ◌≡◌, ◌≢◌, refl, ap, sym, Bool-cases, inl, inr, nat_beq, nat_beq_iff, take-append,
  drop-append, List, [], ◌∷◌, ◌++◌, arith, Text, All, none, some, length,
}
use go_llama_cpp.Strings.{index, last_index, slice, split, join, add_front}

abbrev pub Lacks : ℕ → Text → Type 0
Lacks b = All (λ c. c ≢ b)

pub index-append :
    (b : ℕ) (pre rest : Text) → Lacks b pre → index (pre ++ b ∷ rest) b ≡ some (length pre)
unfolding index
index-append b [] rest h = ground arith
index-append b (c ∷ pre) rest h = ground (arith, index-append b pre rest)

pub last_index-none : (b : ℕ) (s : Text) → Lacks b s → last_index s b ≡ none
unfolding last_index
last_index-none b [] h = refl
last_index-none b (c ∷ s) h = ground (arith, last_index-none b s)

pub last_index-append :
    (b : ℕ) (pre rest : Text) → Lacks b rest → last_index (pre ++ b ∷ rest) b ≡ some (length pre)
unfolding last_index
last_index-append b [] rest h = ground (arith, last_index-none b rest h)
last_index-append b (c ∷ pre) rest h = ground (arith, last_index-append b pre rest h)

-- The slice between two lengths.
pub slice_middle : (p m r : Text) → slice (p ++ (m ++ r)) (length p) (length p + length m) ≡ m
slice_middle p m r =
    rw (drop-append p (m ++ r)) (rw (sub_lem (length p) (length m)) (take-append m r))
  where
    sub_lem : (a b : ℕ) → (a + b) - a ≡ b
    sub_lem a b = omega arith

split-ne-nil : (s : Text) (sep : ℕ) → split s sep ≢ []
unfolding split
split-ne-nil [] sep h = cc
split-ne-nil (c ∷ s) sep h = elim (Bool-cases (nat_beq c sep)) [
  | inl y ↦ cc (rw (y, split) at h)
  | inr n ↦ add_front-ne-nil c (split s sep) (rw (n, split) at h)
]
  where
    add_front-ne-nil : (c : ℕ) (ps : List Text) → add_front c ps ≢ []
    add_front-ne-nil c [] h = cc
    add_front-ne-nil c (p ∷ ps) h = cc

join-add_front :
    (c : ℕ) (ps : List Text) (sep : Text) → ps ≢ [] → join (add_front c ps) sep ≡ c ∷ join ps sep
unfolding join
join-add_front c [] sep h = absurd (h refl)
join-add_front c (p ∷ []) sep h = refl
join-add_front c (p ∷ q ∷ ps) sep h = refl

join-nil_cons :
    (ps : List Text) (sep : ℕ) → ps ≢ [] → join ([] ∷ ps) (sep ∷ []) ≡ sep ∷ join ps (sep ∷ [])
unfolding join
join-nil_cons [] sep h = absurd (h refl)
join-nil_cons (p ∷ ps) sep h = refl

-- Joining what was split gives the text back.
pub join-split : (s : Text) (sep : ℕ) → join (split s sep) (sep ∷ []) ≡ s
unfolding split
join-split [] sep = unfold join in refl
join-split (c ∷ s) sep = elim (Bool-cases (nat_beq c sep)) [
  | inl y ↦
      rw (y, join-nil_cons (split s sep) sep (split-ne-nil s sep), join-split s sep)
        (ap (λ b. b ∷ s) (sym ((nat_beq_iff c sep).0 y)))
  | inr n ↦ rw (n, join-add_front c (split s sep) (sep ∷ []) (split-ne-nil s sep), join-split s sep)
]

split_of_Lacks : (s : Text) (sep : ℕ) → Lacks sep s → split s sep ≡ s ∷ []
unfolding split
split_of_Lacks [] sep h = refl
split_of_Lacks (c ∷ s) sep h = ground (arith, split_of_Lacks s sep h.1, nat_beq_iff c sep)

add_front-append :
    (c : ℕ) (ps qs : List Text) → ps ≢ [] → add_front c (ps ++ qs) ≡ add_front c ps ++ qs
add_front-append c [] qs h = absurd (h refl)
add_front-append c (p ∷ ps) qs h = refl

-- The last separator cuts off the last part.
pub split-append :
    (s t : Text) (sep : ℕ) → Lacks sep t → split (s ++ sep ∷ t) sep ≡ split s sep ++ t ∷ []
unfolding split
split-append [] t sep h = ground (arith, split_of_Lacks t sep h)
split-append (c ∷ s) t sep h = elim (Bool-cases (nat_beq c sep)) [
  | inl y ↦ rw (y, split-append s t sep h)
  | inr n ↦
      rw (n, split-append s t sep h)
        (add_front-append c (split s sep) (t ∷ []) (split-ne-nil s sep))
]

-- The first separator cuts off the first part.
pub split_first : (s t : Text) (sep : ℕ) → Lacks sep s → split (s ++ sep ∷ t) sep ≡ s ∷ split t sep
unfolding split
split_first [] t sep h = ground arith
split_first (c ∷ s) t sep h = ground (arith, split_first s t sep h.1, nat_beq_iff c sep)
