-- ===== src/Llama/System.antt =====
-- llama.go: the state behind a call: that of the C library, the registry of token callbacks, and
-- the blocks on the C heap that the Go code has to free.
pub mod Heap
use go_llama_cpp.Base.{
  ℕ, zero, suc, ◌+◌, Bool, true, false, ◌||◌, Option, none, some, List, [], ◌∷◌, nat_beq,
  if◌then◌else◌, Text, lookup, insert, delete, nat_eq, is_empty,
}
use go_llama_cpp.Options.Types.{TokenCallback}

-- `N` is the state of the C library. A model's state is known by its address, 0 for nil;
-- `live` are the addresses of the blocks that are not freed, `next` is one that was never used.
pub record System (N : Type 0) : Type 0 where
  pub native : N
  pub callbacks : List (ℕ × TokenCallback)
  pub live : List ℕ
  pub next : ℕ

abbrev pub Go : Type 0 → Type 0 → Type 0
Go N A = System N → A × System N

infixl 5 ◌>>=◌ ◌>>◌
abbrev pub ◌>>=◌ : {N A B : Type 0} → Go N A → (A → Go N B) → Go N B
(m >>= f) s = let r = m s in f r.0 r.1

abbrev pub ◌>>◌ : {N B : Type 0} → Go N (Unit {0}) → Go N B → Go N B
m >> k = m >>= λ _. k

abbrev pub return : {N A : Type 0} → A → Go N A
return a s = (a, s)

abbrev pub skip : {N : Type 0} → Go N (Unit {0})
skip = return tt

-- `tokenCallback`: a token without a callback lets the prediction go on.
unfoldable pub token_callback : List (ℕ × TokenCallback) → ℕ → TokenCallback
unfolding lookup
token_callback callbacks state token = elim (lookup state callbacks) [
  | none ↦ true
  | some callback ↦ callback token
]

-- `setCallback`, nil being `none`
unfoldable pub set_callback : {N : Type 0} → ℕ → Option TokenCallback → Go N (Unit {0})
unfolding insert delete
set_callback state none s = (tt, record s { callbacks = delete state s.callbacks })
set_callback state (some callback) s =
    (tt, record s { callbacks = insert state callback s.callbacks })

-- A block on the C heap, as `C.CString` and the C library make them.
unfoldable pub allocate : {N : Type 0} → Go N ℕ
allocate s = (s.next, record s { live = s.next ∷ s.live; next = suc s.next })

abbrev pub remove : ℕ → List ℕ → List ℕ
remove p [] = []
remove p (q ∷ qs) = let rest = remove p qs in if nat_beq p q then rest else q ∷ rest

-- `C.free`
unfoldable pub free : {N : Type 0} → ℕ → Go N (Unit {0})
free p s = (tt, record s { live = remove p s.live })

unfoldable pub allocate_all : {N : Type 0} → ℕ → Go N (List ℕ)
unfolding allocate
allocate_all zero = return []
allocate_all (suc n) = do p ← allocate; ps ← allocate_all n; return (p ∷ ps)

unfoldable pub free_all : {N : Type 0} → List ℕ → Go N (Unit {0})
unfolding free
free_all [] = skip
free_all (p ∷ ps) = do _ ← free p; free_all ps

-- A string that the C library hands over, and its address.
abbrev pub Block : Type 0
Block = ℕ × Text

unfoldable pub receive : {N : Type 0} → Option Text → Go N (Option Block)
unfolding allocate
receive none = return none
receive (some text) = do p ← allocate; return (some (p, text))

-- `bindingError`
unfoldable pub binding_error : {N : Type 0} → Option Block → Text → Go N Text
unfolding free
binding_error none fallback = return fallback
binding_error (some (p, text)) fallback = do
  _ ← free p
  return (if is_empty text then fallback else text)
