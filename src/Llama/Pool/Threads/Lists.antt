-- ===== src/Llama/Pool/Threads/Lists.antt =====
-- pool.go: lists of models, and what the sections read of the map.
use go_llama_cpp.Base.{
  delete, Bool-cases, inl, inr, ℕ, ◌≡◌, ◌↔◌, refl, Bool, true, false, ◌&&◌, ◌||◌, not, Option, none,
  some, List, [], ◌∷◌, ◌++◌, Text, ok, lookup, insert, text_eq, text_beq, text_beq_iff, nat_beq,
  nat_beq_iff, arith,
}
use go_llama_cpp.Llama.Pool.{Pool, reserve, get, loaded_models}
use go_llama_cpp.Llama.Pool.Threads.{is_in, drop_first, taken}

abbrev pub mem : Text → List Text → Bool
mem name [] = false
mem name (n ∷ ns) = text_beq name n || mem name ns

abbrev pub distinct : List Text → Bool
distinct [] = true
distinct (n ∷ ns) = not (mem n ns) && distinct ns

abbrev pub keys : List (Text × Option ℕ) → List Text
keys [] = []
keys ((name, m) ∷ models) = name ∷ keys models

-- No model is in the list twice.
abbrev pub once : List ℕ → Bool
once [] = true
once (m ∷ ms) = not (is_in m ms) && once ms

pub is_in-append : (m : ℕ) (ms ns : List ℕ) → is_in m (ms ++ ns) ≡ (is_in m ms || is_in m ns)
is_in-append m [] ns = refl
is_in-append m (k ∷ ms) ns = ground (arith, is_in-append m ms ns)

pub is_in-drop_first :
    (m n : ℕ) (ms : List ℕ)
    → once ms ≡ true
    → is_in n (drop_first m ms) ≡ (is_in n ms && not (nat_beq m n))
is_in-drop_first m n [] h = refl
is_in-drop_first m n (k ∷ ms) h =
    ground (arith, is_in-drop_first m n ms, nat_beq_iff m k, nat_beq_iff m n, nat_beq_iff n k)

pub once-drop_first : (m : ℕ) (ms : List ℕ) → once ms ≡ true → once (drop_first m ms) ≡ true
once-drop_first m [] h = refl
once-drop_first m (k ∷ ms) h = ground (arith, once-drop_first m ms, is_in-drop_first m k ms)

pub is_in-loaded_models :
    (name : Text) (m : ℕ) (models : List (Text × Option ℕ))
    → lookup name models ≡ some (some m)
    → is_in m (loaded_models models) ≡ true
unfolding lookup
is_in-loaded_models name m [] h = cc
is_in-loaded_models name m ((n, none) ∷ models) h =
    ground (arith, is_in-loaded_models name m models)
is_in-loaded_models name m ((n, some k) ∷ models) h =
    ground (arith, is_in-loaded_models name m models, nat_beq_iff m k)

pub reserve_inv :
    (name : Text) (p q : Pool)
    → reserve name p ≡ ok q
    → (lookup name p.models ≡ none) × (q.models ≡ insert name none p.models)
unfolding reserve
reserve_inv name p q h = ground arith

pub get_inv :
    (name : Text) (p : Pool) (m : ℕ)
    → (is_in m (taken (get name p)) ≡ true) ↔ (lookup name p.models ≡ some (some m))
unfolding get
get_inv name p m = ground (arith, nat_beq_iff m)

pub once-taken : (o : Option ℕ) → once (taken o) ≡ true
once-taken none = refl
once-taken (some m) = refl

pub once-append :
    (ms ns : List ℕ)
    → once ms ≡ true
    → once ns ≡ true
    → ((m : ℕ) → is_in m ms ≡ true → is_in m ns ≡ false)
    → once (ms ++ ns) ≡ true
once-append [] ns h k apart = k
once-append (m ∷ ms) ns h k apart = ground (
  arith,
  h,
  apart m,
  nat_beq_iff m m,
  is_in-append m ms ns,
  once-append ms ns (ground (arith, h)) k (λ n e. apart n (ground (arith, e))),
)

mem-insert :
    (j name : Text) (v : Option ℕ) (models : List (Text × Option ℕ))
    → mem j (keys (insert name v models)) ≡ (text_beq j name || mem j (keys models))
unfolding insert
mem-insert j name v [] = refl
mem-insert j name v ((n, m) ∷ models) =
    ground (
      arith,
      mem-insert j name v models,
      text_beq_iff n name,
      text_beq_iff j n,
      text_beq_iff j name,
    )

pub distinct-insert :
    (name : Text) (v : Option ℕ) (models : List (Text × Option ℕ))
    → distinct (keys models) ≡ true
    → distinct (keys (insert name v models)) ≡ true
unfolding insert
distinct-insert name v [] h = refl
distinct-insert name v ((n, m) ∷ models) h = ground (
  arith,
  distinct-insert name v models,
  mem-insert n name v models,
  text_beq_iff n name,
  text_beq_iff name n,
)

mem-delete :
    (j name : Text) (models : List (Text × Option ℕ))
    → mem j (keys models) ≡ false
    → mem j (keys (delete name models)) ≡ false
unfolding delete
mem-delete j name [] h = refl
mem-delete j name ((n, m) ∷ models) h = ground (arith, mem-delete j name models)

pub distinct-delete :
    (name : Text) (models : List (Text × Option ℕ))
    → distinct (keys models) ≡ true
    → distinct (keys (delete name models)) ≡ true
unfolding delete
distinct-delete name [] h = refl
distinct-delete name ((n, m) ∷ models) h =
    ground (arith, distinct-delete name models, mem-delete n name models)

not_key :
    (n : Text) (models : List (Text × Option ℕ))
    → mem n (keys models) ≡ false
    → lookup n models ≡ none
unfolding lookup
not_key n [] h = refl
not_key n ((name, o) ∷ models) h =
    ground (arith, not_key n models, text_beq_iff name n, text_beq_iff n name)

-- A name of the tail stands for the same in the whole list.
tail_name :
    (n name : Text) (o v : Option ℕ) (models : List (Text × Option ℕ))
    → distinct (name ∷ keys models) ≡ true
    → lookup n models ≡ some v
    → lookup n ((name, o) ∷ models) ≡ some v
unfolding lookup
tail_name n name o v models d h = ground (arith, d, h, not_key name models, text_beq_iff name n)

pub loaded_models_name :
    (m : ℕ) (models : List (Text × Option ℕ))
    → distinct (keys models) ≡ true
    → is_in m (loaded_models models) ≡ true
    → (name : Text) × (lookup name models ≡ some (some m))
unfolding lookup
loaded_models_name m [] d h = cc
loaded_models_name m ((name, none) ∷ models) d h =
    let (n, e) = loaded_models_name m models (ground (arith, d)) h in
    (n, tail_name n name none (some m) models d e)
loaded_models_name m ((name, some k) ∷ models) d h = elim (Bool-cases (nat_beq m k)) [
  | inl y ↦ (name, ground (arith, y, nat_beq_iff m k, text_beq_iff name name))
  | inr z ↦
      let (n, e) = loaded_models_name m models (ground (arith, d)) (ground (arith, h, z)) in
      (n, tail_name n name (some k) (some m) models d e)
]

-- A model that stands under one name only is in the list once.
pub once-loaded_models :
    (models : List (Text × Option ℕ))
    → distinct (keys models) ≡ true
    → ((i j : Text) (m : ℕ)
        → lookup i models ≡ some (some m)
        → lookup j models ≡ some (some m)
        → i ≡ j)
    → once (loaded_models models) ≡ true
unfolding lookup
once-loaded_models [] d h = refl
once-loaded_models ((name, none) ∷ models) d h =
    once-loaded_models models (ground (arith, d)) λ i j m e k.
      h i j m (tail_name i name none (some m) models d e)
        (tail_name j name none (some m) models d k)
once-loaded_models ((name, some k) ∷ models) d h =
    let rest = once-loaded_models models (ground (arith, d)) λ i j m e l.
      h i j m (tail_name i name (some k) (some m) models d e)
        (tail_name j name (some k) (some m) models d l) in
    elim (Bool-cases (is_in k (loaded_models models))) [
      | inr out ↦ ground (arith, out, rest)
      | inl in_tail ↦
          let (n, e) = loaded_models_name k models (ground (arith, d)) in_tail in
          let same =
            h n name k (tail_name n name (some k) (some k) models d e)
              (ground (arith, text_beq_iff name name)) in
          absurd (ground (arith, d, same, e, not_key name models))
    ]
