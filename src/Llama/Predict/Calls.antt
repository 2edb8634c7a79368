-- ===== src/Llama/Predict/Calls.antt =====
-- llama.go: steps that make one call of the library, the callback of that call, and its result.
use go_llama_cpp.Base.{
  ℕ, ℤ, is_zero, ◌≡◌, refl, ap, ap₂, subst, ◌∙◌, Bool, true, false, ◌&&◌, not, Option, none, some,
  List, ◌++◌, if◌then◌else◌, Text, Result, ok, err, is_empty, lookup, insert, nat_eq, nat_beq,
  nat_beq_iff, lookup-insert, lookup-delete, arith,
}
use go_llama_cpp.Strings.{codes}
use go_llama_cpp.Options.Types.{TokenCallback}
use go_llama_cpp.Llama.Native.{Reply}
use go_llama_cpp.Llama.System.{
  System, Go, ◌>>=◌, receive, Block, binding_error, set_callback, token_callback,
}
use go_llama_cpp.Llama.Predict.{
  Params, clean_prediction_result, finish, set_given, unset_given, native_call, failed, prediction,
}
use go_llama_cpp.Llama.Predict.Laws.{
  IsHeapOnly, free_params-IsHeapOnly, prediction-IsHeapOnly, native_call-effect,
}

-- The callback that a prediction runs under.
unfoldable pub running : List (ℕ × TokenCallback) → ℕ → Option TokenCallback → TokenCallback
unfolding token_callback
running callbacks state none = token_callback callbacks state
running callbacks state (some callback) = callback

abbrev pub is_some : Option TokenCallback → Bool
is_some none = false
is_some (some f) = true

pub token_callback-insert :
    (callbacks : List (ℕ × TokenCallback)) (state : ℕ) (f : TokenCallback) (token : Text)
    → token_callback (insert state f callbacks) state token ≡ f token
unfolding token_callback
token_callback-insert callbacks state f token =
    ground (arith, lookup-insert state state f callbacks, nat_beq_iff state state)

module _ {N : Type 0} where
  pub set_given-running :
      (state : ℕ) (cb : Option TokenCallback) (s : System N)
      → token_callback (set_given state cb s).1.callbacks state ≡ running s.callbacks state cb
  unfolding set_given set_callback running
  set_given-running state none s = refl
  set_given-running state (some f) s = λ i token. token_callback-insert s.callbacks state f token i

  -- After both, the model has no callback if one was given, and the others have theirs.
  pub unset_given-set_given :
      (state : ℕ) (cb : Option TokenCallback) (s t : System N) (j : ℕ)
      → t.callbacks ≡ (set_given state cb s).1.callbacks
      → lookup j (unset_given state cb t).1.callbacks
        ≡ (if is_some cb && nat_beq state j then none else lookup j s.callbacks)
  unfolding set_given unset_given set_callback
  unset_given-set_given state none s t j h = rw h
  unset_given-set_given state (some f) s t j h = rw h (
      ground (
        arith,
        lookup-delete state j (insert state f s.callbacks),
        lookup-insert state j f s.callbacks,
      ))

module _ {N : Type 0} where
  -- A step that makes one call of the library, with the model's callback of that moment, and whose
  -- value has the property `P` of the reply.
  abbrev pub IsCall :
      {A : Type 0} → (TokenCallback → N → Reply × N) → ℕ → (Reply → A → Type 0) → Go N A → Type 0
  IsCall f state P m =
      (s : System N)
      → let r = f (token_callback s.callbacks state) s.native in
        ((m s).1.callbacks ≡ s.callbacks) × ((m s).1.native ≡ r.1) × P r.0 (m s).0

  pub before-IsCall :
      {A B : Type 0} (f : TokenCallback → N → Reply × N) (state : ℕ) (P : Reply → B → Type 0)
      (m : Go N A) (k : A → Go N B)
      → IsHeapOnly m
      → ((a : A) → IsCall f state P (k a))
      → IsCall f state P (m >>= k)
  before-IsCall f state P m k h hk s =
      let a = m s in
      let (x, y, z) = hk a.0 a.1 in
      let e = ap₂ (λ cb n. f (token_callback cb state) n) (h s).0 (h s).1 in
      (x ∙ (h s).0, y ∙ ap (λ r. r.1) e, subst (λ r. P r.0 (k a.0 a.1).0) e z)

  pub after-IsCall :
      {A B : Type 0} (f : TokenCallback → N → Reply × N) (state : ℕ) (P : Reply → A → Type 0)
      (Q : Reply → B → Type 0) (m : Go N A) (k : A → Go N B)
      → IsCall f state P m
      → ((a : A) → IsHeapOnly (k a))
      → ((r : Reply) (a : A) (s : System N) → P r a → Q r (k a s).0)
      → IsCall f state Q (m >>= k)
  after-IsCall f state P Q m k h hk hq s =
      let a = m s in
      let (x, y, z) = h s in let (x', y') = hk a.0 a.1 in (x' ∙ x, y' ∙ y, hq _ a.0 a.1 z)

-- The result of a prediction, as a function of the reply.
unfoldable pub outcome : List Text → Reply → Result Text Text
unfolding clean_prediction_result
outcome stops r =
    if not (is_zero r.ret)
    then err (codes "inference failed: " ++ cause r.message)
    else elim r.out [
      | none ↦ err (codes "inference returned no output")
      | some text ↦ ok (clean_prediction_result text stops)
    ]
  where
    cause : Option Text → Text
    cause none = codes "unknown cause"
    cause (some text) = if is_empty text then codes "unknown cause" else text

abbrev pub HasOutcome : List Text → Reply → Result Text Text → Type 0
HasOutcome stops r a = a ≡ outcome stops r

abbrev pub text_of : Option Block → Option Text
text_of none = none
text_of (some (p, text)) = some text

-- The values of a call are those of the reply.
abbrev pub IsReceived : Reply → ℤ × Option Block × Option Block → Type 0
IsReceived r (ret, out, message) =
    (ret ≡ r.ret) × (text_of out ≡ r.out) × (text_of message ≡ r.message)

module _ {N : Type 0} where
  pub receive-text : (out : Option Text) (s : System N) → text_of (receive out s).0 ≡ out
  unfolding receive
  receive-text none s = refl
  receive-text (some text) s = refl

  pub native_call-IsCall :
      (f : TokenCallback → N → Reply × N) (state : ℕ)
      → IsCall f state IsReceived (native_call f state)
  unfolding native_call
  native_call-IsCall f state s =
      let (x, y) = native_call-effect f state s in
      (x, y, (refl, receive-text _ _, receive-text _ _))

  pub prediction-outcome :
      (stops : List Text) (r : Reply) (a : ℤ × Option Block × Option Block) (s : System N)
      → IsReceived r a
      → (prediction stops a s).0 ≡ outcome stops r
  unfolding prediction outcome failed binding_error
  prediction-outcome stops r (ret, none, none) s h = ground arith
  prediction-outcome stops r (ret, none, some (p, t)) s h = ground arith
  prediction-outcome stops r (ret, some (p, t), none) s h = ground arith
  prediction-outcome stops r (ret, some (p, t), some (q, u)) s h = ground arith

  pub finish-IsHeapOnly :
      (stops : List Text) (params : Params) (reply : ℤ × Option Block × Option Block)
      → IsHeapOnly {N = N} (finish stops params reply)
  unfolding finish
  finish-IsHeapOnly stops params reply s =
      let (x, y) = prediction-IsHeapOnly stops reply s in
      let (x', y') = free_params-IsHeapOnly params (prediction stops reply s).1 in (x' ∙ x, y' ∙ y)

  pub finish-IsCall :
      (f : TokenCallback → N → Reply × N) (state : ℕ) (stops : List Text) (params : Params)
      → IsCall f state (HasOutcome stops) (native_call f state >>= finish stops params)
  unfolding finish
  finish-IsCall f state stops params =
      after-IsCall f state IsReceived (HasOutcome stops) (native_call f state) (finish stops params)
        (native_call-IsCall f state) (finish-IsHeapOnly stops params)
        (λ r a s h. prediction-outcome stops r a s h)
