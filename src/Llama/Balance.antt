-- ===== src/Llama/Balance.antt =====
-- llama.go: steps that leave the C heap as it was, and how they are composed.
pub mod Texts
pub mod Inference
pub mod Files
use go_llama_cpp.Base.{
  ℕ, ◌+◌, ℤ, is_zero, ◌≡◌, refl, sym, subst, ◌∙◌, Bool, true, false, ◌&&◌, ◌||◌, not, Option, none,
  some, List, [], ◌∷◌, nat_beq, nat_beq_iff, if◌then◌else◌, leb, Text, length, arith,
}
use go_llama_cpp.Options.Types.{Float32, PredictOptions}
use go_llama_cpp.Llama.Params.{c_predict_params}
use go_llama_cpp.Llama.System.{
  System, Go, ◌>>=◌, return, Block, allocate, allocate_all, free, free_all, receive,
}
use go_llama_cpp.Llama.System.Heap.{
  elem, IsHeap, Owns, Owns-refl, Owns-same, Owns-allocate, Owns-allocate_all, Owns-free_all,
  Owns-none, receive-none, freed, Owns-freed,
}
use go_llama_cpp.Llama.Predict.{Params, new_c_predict_params, free_params}

-- A step that frees what it allocates: the blocks that are not freed since `s` stay the same.
abbrev pub IsTidy : {N A : Type 0} → Go N A → Type 0
IsTidy {N} m =
    (s : System N) (own : ℕ → Bool) (t : System N) → IsHeap s → Owns s own t → Owns s own (m t).1

-- After such a step the blocks that are live are those that were live before.
abbrev pub IsBalanced : {N A : Type 0} → Go N A → Type 0
IsBalanced {N} m = (s : System N) → IsHeap s → (p : ℕ) → elem p (m s).1.live ≡ elem p s.live

pub IsTidy-IsBalanced : {N A : Type 0} (m : Go N A) → IsTidy m → IsBalanced m
IsTidy-IsBalanced m h s base =
    Owns-none s (λ q. false) (m s).1 (h s (λ q. false) s base (Owns-refl s base)) (λ q. refl)

pub return-IsTidy : {N A : Type 0} (a : A) → IsTidy {N = N} (return a)
return-IsTidy a s own t base h = h

pub if-IsTidy :
    {N A : Type 0} (b : Bool) (m k : Go N A) → IsTidy m → IsTidy k → IsTidy (if b then m else k)
if-IsTidy true m k h h' = h
if-IsTidy false m k h h' = h'

pub >>=-IsTidy :
    {N A B : Type 0} (m : Go N A) (k : A → Go N B)
    → IsTidy m
    → ((a : A) → IsTidy (k a))
    → IsTidy (m >>= k)
>>=-IsTidy m k h h' s own t base o = h' (m t).0 s own (m t).1 base (h s own t base o)

-- The system behind a call of the library.
pub Owns-native :
    {N : Type 0} (s : System N) (own : ℕ → Bool) (t : System N) (n : N)
    → Owns s own t
    → Owns s own (record t { native = n })
Owns-native s own t n h = record { live = h.live; fresh = h.fresh; later = h.later; heap = h.heap }

-- C strings that are allocated before a tidy step and freed behind it.
pub bracket-IsTidy :
    {N A : Type 0} (n : ℕ) (m : List ℕ → Go N A)
    → ((cs : List ℕ) → IsTidy (m cs))
    → IsTidy (allocate_all n >>= λ cs. m cs >>= λ a. free_all cs >>= λ _. return a)
bracket-IsTidy n m tidy s own t base h =
    let cs = allocate_all n t in
    let mine : ℕ → Bool = λ p. elem p cs.0 || own p in
    let h1 : Owns s mine cs.1 = Owns-allocate_all s own n t h in
    let new = Owns-allocate_all t (λ p. false) n t (Owns-refl t h.heap) in
    let done = m cs.0 cs.1 in
    let h2 : Owns s mine done.1 = tidy cs.0 s mine cs.1 base h1 in
    Owns-same s (λ p. not (elem p cs.0) && mine p) own (free_all cs.0 done.1).1
      (λ p. ground (arith, h.live p, h.heap p, new.fresh p))
      (Owns-free_all s mine cs.0 done.1 base (λ p e. h2.fresh p (ground arith)) h2)

module _ {N : Type 0} (format_float : Float32 → Text) where
  -- The parameters that are allocated before a tidy step and freed behind it.
  pub params-IsTidy :
      {A : Type 0} (text : Text) (po : PredictOptions) (m : Params → Go N A)
      → ((params : Params) → IsTidy (m params))
      → IsTidy (
          new_c_predict_params format_float text po >>= λ params.
          m params >>= λ a. free_params params >>= λ _. return a)
  unfolding new_c_predict_params free_params free_all allocate
  params-IsTidy text po m tidy s own t base h =
      let cs = allocate_all (length po.stop_prompts + 8) t in
      let ptr = allocate cs.1 in
      let ps = ptr.0 ∷ cs.0 in
      let mine : ℕ → Bool = λ p. nat_beq p ptr.0 || (elem p cs.0 || own p) in
      let h1 : Owns s mine ptr.1 =
        Owns-allocate s (λ p. elem p cs.0 || own p) cs.1
          (Owns-allocate_all s own (length po.stop_prompts + 8) t h) in
      let new : Owns t (λ p. nat_beq p ptr.0 || (elem p cs.0 || false)) ptr.1 =
        Owns-allocate t (λ p. elem p cs.0 || false) cs.1
          (Owns-allocate_all t (λ p. false) (length po.stop_prompts + 8) t (Owns-refl t h.heap)) in
      let params : Params = record {
        args = c_predict_params format_float text po;
        ptr = ptr.0;
        cstrings = cs.0;
      } in
      let done = m params ptr.1 in
      let h2 : Owns s mine done.1 = tidy params s mine ptr.1 base h1 in
      Owns-same s (λ p. not (elem p ps) && mine p) own (free_all ps done.1).1
        (λ p. ground (arith, h.live p, h.heap p, new.fresh p))
        (Owns-free_all s mine ps done.1 base (λ p e. h2.fresh p (ground arith)) h2)
