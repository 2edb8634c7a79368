-- ===== src/Llama/Model/Ledger.antt =====
-- llama.go: the models that New leaves open in the library.
use go_llama_cpp.Base.{
  ℕ, ℤ, pos, is_zero, is_positive, ◌≡◌, ◌≢◌, refl, sym, ap, subst, ◌∙◌, Bool, true, false, ◌&&◌,
  ◌||◌, not, Option, List, nat_beq, nat_beq_iff, is_empty, if◌then◌else◌, Text, Result, ok, err,
  Bool-cases, inl, inr, arith,
}
use go_llama_cpp.Options.Types.{ModelOption, ModelOptions}
use go_llama_cpp.Options.Model.{new_model_options}
use go_llama_cpp.Llama.Params.{c_string}
use go_llama_cpp.Llama.Load.{LoadArgs, load_args}
use go_llama_cpp.Llama.Native.{Native}
use go_llama_cpp.Llama.System.{System, Go, ◌>>=◌, return, Block, allocate_all, receive}
use go_llama_cpp.Llama.Predict.{LLama}
use go_llama_cpp.Llama.Predict.Laws.{
  allocate_all-IsHeapOnly, free_all-IsHeapOnly, receive-IsHeapOnly, binding_error-IsHeapOnly,
}
use go_llama_cpp.Llama.Model.{opened, free_model, load_failed, with_mmproj, new}

-- Which models are open in a state of the library, and what its functions do about it.
pub record IsLedger {N : Type 0} (c : Native N) (is_open : N → ℕ → Bool) : Type 0 where
  pub refused :
      (args : LoadArgs) (n : N)
      → (c.load_model args n).0.0 ≡ 0
      → (p : ℕ) → is_open (c.load_model args n).1 p ≡ is_open n p
  pub loaded :
      (args : LoadArgs) (n : N)
      → (c.load_model args n).0.0 ≢ 0
      → (is_open n (c.load_model args n).0.0 ≡ false)
        × ((p : ℕ)
            → is_open (c.load_model args n).1 p
              ≡ (nat_beq p (c.load_model args n).0.0 || is_open n p))
  pub projector :
      (state : ℕ) (path : Text) (gpu : Bool) (threads : ℤ) (n : N) (p : ℕ)
      → is_open (c.load_mmproj state path gpu threads n).1 p ≡ is_open n p
  pub freed :
      (state : ℕ) (n : N) (p : ℕ)
      → is_open (c.free_model state n) p ≡ (not (nat_beq p state) && is_open n p)

-- What a load may leave: nothing more with an error, and else exactly the model returned.
abbrev pub IsNew : {N : Type 0} → (N → ℕ → Bool) → N → Result Text LLama → N → Type 0
IsNew is_open before (err e) after = (p : ℕ) → is_open after p ≡ is_open before p
IsNew is_open before (ok l) after =
    (l.state ≢ 0) × ((p : ℕ) → is_open after p ≡ (nat_beq p l.state || is_open before p))

module _ {N : Type 0} (c : Native N) (is_open : N → ℕ → Bool) (h : IsLedger c is_open) where
  load_failed-lem :
      (message : Option Block) (t : System N)
      → ((load_failed c message t).1.native ≡ t.native)
        × ((text : Text) × ((load_failed c message t).0 ≡ err text))
  unfolding load_failed
  load_failed-lem message t = ((binding_error-IsHeapOnly message _ t).1, (_, refl))

  -- The error of a load, in a state of the library where nothing more is open.
  failed-IsNew :
      (before : N) (message : Option Block) (t : System N)
      → ((p : ℕ) → is_open t.native p ≡ is_open before p)
      → IsNew is_open before (load_failed c message t).0 (load_failed c message t).1.native
  failed-IsNew before message t k =
      let (same, (text, e)) = load_failed-lem message t in
      subst (λ (r : Result Text LLama). IsNew is_open before r (load_failed c message t).1.native)
        (sym e) (λ p. ap (λ (n : N). is_open n p) same ∙ k p)

  mmproj_branch :
      (b : Bool) (before : N) (mo : ModelOptions) (state : ℕ) (message : Option Block)
      (t : System N)
      → state ≢ 0
      → is_open before state ≡ false
      → ((p : ℕ) → is_open t.native p ≡ (nat_beq p state || is_open before p))
      → let m : Go N (Result Text LLama) =
          if b
          then return (ok (opened c mo state))
          else (free_model c state >>= λ _. load_failed c message) in
        IsNew is_open before (m t).0 (m t).1.native
  unfolding opened
  mmproj_branch true before mo state message t nonzero closed k = (nonzero, k)
  mmproj_branch false before mo state message t nonzero closed k =
      failed-IsNew before message (record t { native = c.free_model state t.native })
        (λ p. ground (arith, h.freed state t.native p, k p, nat_beq_iff p state, closed))

  with_mmproj-IsNew :
      (before : N) (mo : ModelOptions) (state : ℕ) (t : System N)
      → state ≢ 0
      → is_open before state ≡ false
      → ((p : ℕ) → is_open t.native p ≡ (nat_beq p state || is_open before p))
      → IsNew is_open before (with_mmproj c mo state t).0 (with_mmproj c mo state t).1.native
  unfolding with_mmproj
  with_mmproj-IsNew before mo state t nonzero closed k =
      let cs = allocate_all 1 t in
      let r =
        c.load_mmproj state (c_string mo.mmproj) (is_positive mo.n_gpu_layers) (pos 0)
          cs.1.native in
      let t2 : System N = record cs.1 { native = r.1 } in
      let message = receive r.0.message t2 in
      let m : Go N (Result Text LLama) =
        if is_zero r.0.ret
        then return (ok (opened c mo state))
        else (free_model c state >>= λ _. load_failed c message.0) in
      let done =
        mmproj_branch (is_zero r.0.ret) before mo state message.0 message.1 nonzero closed (λ p.
          ap (λ (n : N). is_open n p) (receive-IsHeapOnly r.0.message t2).1
          ∙ h.projector state (c_string mo.mmproj) (is_positive mo.n_gpu_layers) (pos 0) cs.1.native
              p
          ∙ ap (λ (n : N). is_open n p) (allocate_all-IsHeapOnly 1 t).1
          ∙ k p) in
      subst (λ (n : N). IsNew is_open before (m message.1).0 n)
        (sym (free_all-IsHeapOnly cs.0 (m message.1).1).1) done

  -- What `New` does after `load_model` gave `state`.
  loaded_branch :
      (before : N) (mo : ModelOptions) (state : ℕ) (message : Option Block) (t : System N)
      → (state ≡ 0 → (p : ℕ) → is_open t.native p ≡ is_open before p)
      → (state ≢ 0
          → (is_open before state ≡ false)
            × ((p : ℕ) → is_open t.native p ≡ (nat_beq p state || is_open before p)))
      → let m : Go N (Result Text LLama) =
          if nat_beq state 0
          then load_failed c message
          else if is_empty mo.mmproj
          then return (ok (opened c mo state))
          else with_mmproj c mo state in
        IsNew is_open before (m t).0 (m t).1.native
  unfolding opened
  loaded_branch before mo state message t none_open one_open = elim (Bool-cases (nat_beq state 0)) [
    | inl z ↦ rw z (failed-IsNew before message t (none_open ((nat_beq_iff state 0).0 z)))
    | inr z ↦
        let nonzero : state ≢ 0 = λ e. cc ((nat_beq_iff state 0).1 e, z) in
        let (closed, k) = one_open nonzero in
        elim (Bool-cases (is_empty mo.mmproj)) [
          | inl bare ↦ rw (z, bare) (nonzero, k)
          | inr named ↦ rw (z, named) (with_mmproj-IsNew before mo state t nonzero closed k)
        ]
  ]

  -- If the library keeps to its contract (load_model opens one model that was not open and
  -- returns its address, or opens none and returns nil; a projector opens no model; free_model
  -- closes its own), then `New` leaves no model open with an error, and without one opens exactly
  -- the model that it returns, whose state is not nil.
  pub new-IsNew :
      (model : Text) (opts : List ModelOption) (s : System N)
      → IsNew is_open s.native (new c model opts s).0 (new c model opts s).1.native
  unfolding new
  new-IsNew model opts s =
      let mo = new_model_options opts in
      let cs = allocate_all 5 s in
      let same : cs.1.native ≡ s.native = (allocate_all-IsHeapOnly 5 s).1 in
      let args = load_args model mo in
      let r = c.load_model args cs.1.native in
      let t2 : System N = record cs.1 { native = r.1 } in
      let message = receive r.0.1 t2 in
      let kept : message.1.native ≡ r.1 = (receive-IsHeapOnly r.0.1 t2).1 in
      let m : Go N (Result Text LLama) =
        if nat_beq r.0.0 0
        then load_failed c message.0
        else if is_empty mo.mmproj
        then return (ok (opened c mo r.0.0))
        else with_mmproj c mo r.0.0 in
      let done =
        loaded_branch s.native mo r.0.0 message.0 message.1
          (λ z p.
            ap (λ (n : N). is_open n p) kept
            ∙ h.refused args cs.1.native z p
            ∙ ap (λ (n : N). is_open n p) same)
          (λ z. (
            ap (λ (n : N). is_open n r.0.0) (sym same) ∙ (h.loaded args cs.1.native z).0,
            λ p.
                ap (λ (n : N). is_open n p) kept
                ∙ (h.loaded args cs.1.native z).1 p
                ∙ ap (λ (b : Bool). nat_beq p r.0.0 || b) (ap (λ (n : N). is_open n p) same),
          )) in
      subst (λ (n : N). IsNew is_open s.native (m message.1).0 n)
        (sym (free_all-IsHeapOnly cs.0 (m message.1).1).1) done
