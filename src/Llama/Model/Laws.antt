-- ===== src/Llama/Model/Laws.antt =====
-- llama.go: a model that was freed.
use go_llama_cpp.Base.{
  ℕ, ◌≡◌, refl, nat_beq, nat_beq_iff, Bool-cases, inl, inr, none, lookup, nat_eq, lookup-delete,
  if◌then◌else◌,
}
use go_llama_cpp.Llama.Native.{Native}
use go_llama_cpp.Llama.System.{System, set_callback}
use go_llama_cpp.Llama.Predict.{LLama}
use go_llama_cpp.Llama.Model.{free_llama}

module _ {N : Type 0} (c : Native N) where
  -- After `Free` the model has no state, a second `Free` of it changes nothing, and of the
  -- callbacks only that of the model is gone.
  pub free_llama_twice :
      (l : LLama) (s : System N)
      → let once = free_llama c l s in
        (once.0.state ≡ 0)
        × (free_llama c once.0 once.1 ≡ once)
        × ((j : ℕ)
            → lookup j once.1.callbacks ≡ (
                if nat_beq l.state 0
                then lookup j s.callbacks
                else if nat_beq l.state j
                then none
                else lookup j s.callbacks))
  unfolding free_llama set_callback
  free_llama_twice l s = elim (Bool-cases (nat_beq l.state 0)) [
    | inl y ↦ rw y ((nat_beq_iff l.state 0).0 y, rw y, λ j. refl)
    | inr n ↦ rw n (refl, refl, λ j. lookup-delete l.state j s.callbacks)
  ]
