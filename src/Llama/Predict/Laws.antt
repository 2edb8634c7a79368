-- ===== src/Llama/Predict/Laws.antt =====
-- llama.go: the steps of a call that touch the C heap only.
use go_llama_cpp.Base.{
  ℕ, zero, suc, ℤ, is_zero, ◌≡◌, refl, ◌∙◌, Bool, true, false, Option, none, some, List, [], ◌∷◌,
  if◌then◌else◌, Text, nat_eq,
}
use go_llama_cpp.Strings.{codes}
use go_llama_cpp.Options.Types.{TokenCallback}
use go_llama_cpp.Llama.Native.{Reply}
use go_llama_cpp.Llama.System.{
  System, Go, ◌>>=◌, allocate, allocate_all, free, free_all, receive, Block, binding_error,
  set_callback, token_callback,
}
use go_llama_cpp.Llama.Predict.{
  Params, free_params, set_given, unset_given, native_call, failed, prediction,
}

-- The blocks of a call do not touch the rest of the state.
abbrev pub IsHeapOnly : {N A : Type 0} → Go N A → Type 0
IsHeapOnly m = (s : _) → ((m s).1.callbacks ≡ s.callbacks) × ((m s).1.native ≡ s.native)

module _ {N : Type 0} where
  pub >>=-IsHeapOnly :
      {A B : Type 0} (m : Go N A) (f : A → Go N B)
      → IsHeapOnly m
      → ((a : A) → IsHeapOnly (f a))
      → IsHeapOnly (m >>= f)
  >>=-IsHeapOnly m f h k s = let r = m s in ((k r.0 r.1).0 ∙ (h s).0, (k r.0 r.1).1 ∙ (h s).1)

  pub allocate_all-IsHeapOnly : (n : ℕ) → IsHeapOnly {N = N} (allocate_all n)
  unfolding allocate_all allocate
  allocate_all-IsHeapOnly zero s = (refl, refl)
  allocate_all-IsHeapOnly (suc n) s = allocate_all-IsHeapOnly n (allocate s).1

  pub allocate-IsHeapOnly : IsHeapOnly {N = N} allocate
  unfolding allocate
  allocate-IsHeapOnly s = (refl, refl)

  pub free_all-IsHeapOnly : (ps : List ℕ) → IsHeapOnly {N = N} (free_all ps)
  unfolding free_all free
  free_all-IsHeapOnly [] s = (refl, refl)
  free_all-IsHeapOnly (p ∷ ps) s = free_all-IsHeapOnly ps (free p s).1

  pub receive-IsHeapOnly : (out : Option Text) → IsHeapOnly {N = N} (receive out)
  unfolding receive allocate
  receive-IsHeapOnly none s = (refl, refl)
  receive-IsHeapOnly (some text) s = (refl, refl)

  pub binding_error-IsHeapOnly :
      (b : Option Block) (text : Text) → IsHeapOnly {N = N} (binding_error b text)
  unfolding binding_error free
  binding_error-IsHeapOnly none text s = (refl, refl)
  binding_error-IsHeapOnly (some (p, m)) text s = (refl, refl)

  pub free_params-IsHeapOnly : (params : Params) → IsHeapOnly {N = N} (free_params params)
  unfolding free_params free
  free_params-IsHeapOnly params s = free_all-IsHeapOnly params.cstrings (free params.ptr s).1

  if-IsHeapOnly :
      {A : Type 0} (b : Bool) (m k : Go N A)
      → IsHeapOnly m
      → IsHeapOnly k
      → IsHeapOnly (if b then m else k)
  if-IsHeapOnly true m k h h' = h
  if-IsHeapOnly false m k h h' = h'

  failed-IsHeapOnly :
      (text : Text) (message : Option Block) → IsHeapOnly {N = N} (failed text message)
  unfolding failed
  failed-IsHeapOnly text message s = binding_error-IsHeapOnly message (codes "unknown cause") s

  pub prediction-IsHeapOnly :
      (stops : List Text) (r : ℤ × Option Block × Option Block)
      → IsHeapOnly {N = N} (prediction stops r)
  unfolding prediction free
  prediction-IsHeapOnly stops (ret, none, message) =
      if-IsHeapOnly (is_zero ret) _ _ (λ s. (refl, refl))
        (failed-IsHeapOnly (codes "inference failed: ") message)
  prediction-IsHeapOnly stops (ret, some (p, text), message) =
      if-IsHeapOnly (is_zero ret) _ _ (λ s. (refl, refl))
        (failed-IsHeapOnly (codes "inference failed: ") message)

  -- What the library sees of the state is one call, made under the callbacks of that moment.
  pub native_call-effect :
      (f : TokenCallback → N → Reply × N) (state : ℕ) (s : System N)
      → ((native_call f state s).1.callbacks ≡ s.callbacks)
        × ((native_call f state s).1.native ≡ (f (token_callback s.callbacks state) s.native).1)
  unfolding native_call
  native_call-effect f state s =
      let r = f (token_callback s.callbacks state) s.native in
      >>=-IsHeapOnly {B = ℤ × Option Block × Option Block} (receive r.0.out)
        (λ out. receive r.0.message >>= λ message. λ s'. ((r.0.ret, out, message), s'))
        (receive-IsHeapOnly r.0.out) (λ out s'. receive-IsHeapOnly r.0.message s')
        (record s { native = r.1 })

  pub set_given-native :
      (state : ℕ) (cb : Option TokenCallback) (s : System N)
      → (set_given state cb s).1.native ≡ s.native
  unfolding set_given set_callback
  set_given-native state none s = refl
  set_given-native state (some f) s = refl

  pub unset_given-native :
      (state : ℕ) (cb : Option TokenCallback) (s : System N)
      → (unset_given state cb s).1.native ≡ s.native
  unfolding unset_given set_callback
  unset_given-native state none s = refl
  unset_given-native state (some f) s = refl
