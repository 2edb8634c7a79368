-- ===== src/Llama/Predict/Clean.antt =====
-- llama.go: properties of cleanPredictionResult.
use go_llama_cpp.Base.{
  ℕ, ◌≡◌, ◌≢◌, ◌↔◌, ◌⊎◌, subst, inl, inr, refl, sym, ap, ◌∙◌, false, List, [], ◌∷◌, ◌++◌,
  append-nil, Text, text_beq, text_beq_iff, length, length-append, arith, Bool-cases,
}
use go_llama_cpp.Strings.{trim_suffix}
use go_llama_cpp.Llama.Predict.{clean_prediction_result}

not_longer : (c : ℕ) (pre s : Text) → text_beq (c ∷ (pre ++ s)) s ≡ false
not_longer c pre s = elim (Bool-cases (text_beq (c ∷ (pre ++ s)) s)) [
  | inl y ↦
      absurd (omega (arith, ap length ((text_beq_iff (c ∷ (pre ++ s)) s).0 y), length-append pre s))
  | inr n ↦ n
]

trim_suffix_self : (s : Text) → trim_suffix s s ≡ []
unfolding trim_suffix
trim_suffix_self [] = refl
trim_suffix_self (c ∷ s) = ground (arith, text_beq_iff (c ∷ s) (c ∷ s))

trim_suffix-append : (pre s : Text) → trim_suffix (pre ++ s) s ≡ pre
unfolding trim_suffix
trim_suffix-append [] s = trim_suffix_self s
trim_suffix-append (c ∷ pre) s =
    rw (not_longer c pre s) (ap (λ (t : Text). c ∷ t) (trim_suffix-append pre s))

-- A text that does not end with a word is left as it is.
trim_suffix_other :
    (s suffix : Text) → ((pre : Text) → s ≢ pre ++ suffix) → trim_suffix s suffix ≡ s
unfolding trim_suffix
trim_suffix_other [] suffix h = refl
trim_suffix_other (c ∷ s) suffix h = elim (Bool-cases (text_beq (c ∷ s) suffix)) [
  | inl y ↦ absurd (h [] ((text_beq_iff (c ∷ s) suffix).0 y))
  | inr n ↦ rw n (
      ap (λ (t : Text). c ∷ t)
        (trim_suffix_other s suffix (λ pre e. h (c ∷ pre) (ap (λ (t : Text). c ∷ t) e))))
]

-- A text either ends with a word or does not.
suffix-cases :
    (s suffix : Text) → ((pre : Text) × (s ≡ pre ++ suffix)) ⊎ ((pre : Text) → s ≢ pre ++ suffix)
suffix-cases s suffix = elim (Bool-cases (text_beq s (trim_suffix s suffix ++ suffix))) [
  | inl y ↦ inl (trim_suffix s suffix, (text_beq_iff s (trim_suffix s suffix ++ suffix)).0 y)
  | inr n ↦ inr λ pre e.
      let there = ap (λ (t : Text). t ++ suffix) (trim_suffix-append pre suffix) in
      let same = e ∙ sym there ∙ ap (λ (t : Text). trim_suffix t suffix ++ suffix) (sym e) in
      cc (sym n ∙ (text_beq_iff s (trim_suffix s suffix ++ suffix)).1 same)
]

-- What the stop words make of a text, in their order: one that the text ends with is cut off once,
-- one that it does not end with is passed over.
pub data Cleaned : Text → List Text → Text → Type 0 where
  clean : {res : Text} → Cleaned res [] res
  cut :
      {pre out : Text} {stops : List Text} (stop : Text)
      → Cleaned pre stops out
      → Cleaned (pre ++ stop) (stop ∷ stops) out
  passed :
      {res out : Text} {stops : List Text} (stop : Text)
      → ((pre : Text) → res ≢ pre ++ stop)
      → Cleaned res stops out
      → Cleaned res (stop ∷ stops) out

clean-append :
    (pre stop : Text) (stops : List Text)
    → clean_prediction_result (pre ++ stop) (stop ∷ stops) ≡ clean_prediction_result pre stops
unfolding clean_prediction_result
clean-append pre [] stops = ap (λ t. clean_prediction_result t stops) (append-nil pre)
clean-append pre (c ∷ s) stops =
    ap (λ t. clean_prediction_result t stops) (trim_suffix-append pre (c ∷ s))

clean-passed :
    (res stop : Text) (stops : List Text)
    → ((pre : Text) → res ≢ pre ++ stop)
    → clean_prediction_result res (stop ∷ stops) ≡ clean_prediction_result res stops
unfolding clean_prediction_result
clean-passed res [] stops h = refl
clean-passed res (c ∷ s) stops h =
    ap (λ t. clean_prediction_result t stops) (trim_suffix_other res (c ∷ s) h)

clean-Cleaned :
    (res : Text) (stops : List Text) → Cleaned res stops (clean_prediction_result res stops)
unfolding clean_prediction_result
clean-Cleaned res [] = clean
clean-Cleaned res (stop ∷ stops) = elim (suffix-cases res stop) [
  | inl (pre, e) ↦
      subst (λ t. Cleaned t (stop ∷ stops) (clean_prediction_result t (stop ∷ stops))) (sym e)
        (subst (λ out. Cleaned (pre ++ stop) (stop ∷ stops) out) (sym (clean-append pre stop stops))
          (cut stop (clean-Cleaned pre stops)))
  | inr other ↦
      subst (λ out. Cleaned res (stop ∷ stops) out) (sym (clean-passed res stop stops other))
        (passed stop other (clean-Cleaned res stops))
]

Cleaned-clean :
    {res out : Text} {stops : List Text}
    → Cleaned res stops out
    → out ≡ clean_prediction_result res stops
unfolding clean_prediction_result
Cleaned-clean clean = refl
Cleaned-clean (cut {pre} {stops = stops} stop h) =
    Cleaned-clean h ∙ sym (clean-append pre stop stops)
Cleaned-clean (passed {res} {stops = stops} stop other h) =
    Cleaned-clean h ∙ sym (clean-passed res stop stops other)

-- A text is what `cleanPredictionResult` returns exactly if the stop words give it in their
-- order, where one that the text ends with at that point is cut off once, and one that it does
-- not end with changes nothing.
pub clean_prediction_result_iff :
    (res : Text) (stops : List Text) (out : Text)
    → Cleaned res stops out ↔ (out ≡ clean_prediction_result res stops)
clean_prediction_result_iff res stops out =
    (λ h. Cleaned-clean h, λ e. subst (λ t. Cleaned res stops t) (sym e) (clean-Cleaned res stops))
