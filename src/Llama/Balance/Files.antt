-- ===== src/Llama/Balance/Files.antt =====
-- llama.go: New, LoadState and SaveState and the C heap.
use go_llama_cpp.Base.{
  ℕ, ℤ, pos, is_zero, is_positive, ◌≡◌, refl, Bool, true, false, Option, none, some, List, nat_beq,
  is_empty, if◌then◌else◌, Text, Result, ok,
}
use go_llama_cpp.Strings.{codes}
use go_llama_cpp.Options.Types.{ModelOption, ModelOptions}
use go_llama_cpp.Options.Model.{new_model_options}
use go_llama_cpp.Llama.Params.{c_string}
use go_llama_cpp.Llama.Load.{LoadArgs, load_args}
use go_llama_cpp.Llama.Native.{Native}
use go_llama_cpp.Llama.System.{
  Go, ◌>>=◌, return, Block, allocate, allocate_all, free_all, receive, binding_error,
}
use go_llama_cpp.Llama.System.Heap.{freed, Owns-freed}
use go_llama_cpp.Llama.Predict.{LLama}
use go_llama_cpp.Llama.Model.{
  opened, load_failed, free_model, with_mmproj, new, load_state, save_state,
}
use go_llama_cpp.Llama.Balance.{
  IsTidy, IsBalanced, IsTidy-IsBalanced, return-IsTidy, if-IsTidy, >>=-IsTidy, bracket-IsTidy,
  Owns-native,
}

-- What `New` returns.
abbrev Loaded : Type 0
Loaded = Result Text LLama

module _ {N : Type 0} (c : Native N) where
  load_state-IsTidy : (l : LLama) (state : Text) → IsTidy (load_state c l state)
  unfolding load_state
  load_state-IsTidy l state =
      >>=-IsTidy {B = Option Text}
        (allocate_all 2 >>= λ cs.
          (λ s.
            let r = c.load_state l.state (c_string state) (codes "rb") s.native in
            (r.0, record s { native = r.1 }))
          >>= λ a. free_all cs >>= λ _. return a)
        (λ r. return (if is_zero r then none else some (codes "error while loading state")))
        (bracket-IsTidy {A = ℤ} 2
          (λ cs s.
            let r = c.load_state l.state (c_string state) (codes "rb") s.native in
            (r.0, record s { native = r.1 }))
          λ cs s own t base h.
            Owns-native s own t (c.load_state l.state (c_string state) (codes "rb") t.native).1 h)
        (λ r. return-IsTidy (if is_zero r then none else some (codes "error while loading state")))

  save_state-IsTidy : (l : LLama) (dst : Text) → IsTidy (save_state c l dst)
  unfolding save_state
  save_state-IsTidy l dst =
      >>=-IsTidy {B = Option Text}
        (allocate_all 2 >>= λ cs.
          (λ s.
            let r = c.save_state l.state (c_string dst) (codes "wb") s.native in
            (r.0, record s { native = r.1 }))
          >>= λ a. free_all cs >>= λ _. return a)
        (λ r. return (if is_zero r then none else some (codes "error while saving state")))
        (bracket-IsTidy {A = ℤ} 2
          (λ cs s.
            let r = c.save_state l.state (c_string dst) (codes "wb") s.native in
            (r.0, record s { native = r.1 }))
          λ cs s own t base h.
            Owns-native s own t (c.save_state l.state (c_string dst) (codes "wb") t.native).1 h)
        (λ r. return-IsTidy (if is_zero r then none else some (codes "error while saving state")))

  -- The errors of `New`, which free the message.
  refused-IsTidy : (message : Option Text) → IsTidy (receive message >>= load_failed c)
  unfolding receive load_failed binding_error freed
  refused-IsTidy none s own t base h = h
  refused-IsTidy (some text) s own t base h = Owns-freed s own (some text) t base h

  closed-IsTidy :
      (state : ℕ) (message : Option Text)
      → IsTidy (receive message >>= λ b. free_model c state >>= λ _. load_failed c b)
  unfolding receive allocate load_failed binding_error freed
  closed-IsTidy state none s own t base h = Owns-native s own t (c.free_model state t.native) h
  closed-IsTidy state (some text) s own t base h =
      Owns-freed s own (some text) (record t { native = c.free_model state t.native }) base
        (Owns-native s own t (c.free_model state t.native) h)

  quiet-IsTidy :
      (message : Option Text) (m : Go N Loaded)
      → message ≡ none
      → IsTidy m
      → IsTidy {A = Loaded} (receive message >>= λ b. m)
  unfolding receive
  quiet-IsTidy none m e h = h
  quiet-IsTidy (some text) m e h = cc

  branch-IsTidy :
      (b : Bool) (message : Option Text) (k m : Option Block → Go N Loaded)
      → (b ≡ true → IsTidy (receive message >>= k))
      → (b ≡ false → IsTidy (receive message >>= m))
      → IsTidy {A = Loaded} (receive message >>= λ x. if b then k x else m x)
  branch-IsTidy true message k m h h' = h refl
  branch-IsTidy false message k m h h' = h' refl

  -- The contract of `load_model`: a message comes only with a nil model.
  abbrev pub IsLoading : LoadArgs → Type 0
  IsLoading args =
      (n : N) → nat_beq (c.load_model args n).0.0 0 ≡ false → (c.load_model args n).0.1 ≡ none

  -- The contract of `llama_binding_load_mmproj`: a message comes only with a failure.
  abbrev pub IsProjecting : Type 0
  IsProjecting =
      (state : ℕ) (path : Text) (gpu : Bool) (threads : ℤ) (n : N)
      → let r = c.load_mmproj state path gpu threads n in
        is_zero r.0.ret ≡ true → r.0.message ≡ none

  -- The projector's call, and what is made of its reply.
  abbrev project : ModelOptions → ℕ → Go N Loaded
  project mo state =
      (λ s.
        let r =
          c.load_mmproj state (c_string mo.mmproj) (is_positive mo.n_gpu_layers) (pos 0) s.native in
        (r.0, record s { native = r.1 }))
      >>= λ reply. receive reply.message >>= λ message.
          if is_zero reply.ret
          then return (ok (opened c mo state))
          else (free_model c state >>= λ _. load_failed c message)

  project-IsTidy : (mo : ModelOptions) (state : ℕ) → IsProjecting → IsTidy (project mo state)
  project-IsTidy mo state tidy s own t base h =
      let r =
        c.load_mmproj state (c_string mo.mmproj) (is_positive mo.n_gpu_layers) (pos 0) t.native in
      branch-IsTidy (is_zero r.0.ret) r.0.message (λ x. return (ok (opened c mo state)))
        (λ x. free_model c state >>= λ _. load_failed c x)
        (λ z.
          quiet-IsTidy r.0.message (return (ok (opened c mo state)))
            (tidy state (c_string mo.mmproj) (is_positive mo.n_gpu_layers) (pos 0) t.native z)
            (return-IsTidy {A = Loaded} (ok (opened c mo state))))
        (λ z. closed-IsTidy state r.0.message) s own (record t { native = r.1 }) base
        (Owns-native s own t r.1 h)

  with_mmproj-IsTidy :
      (mo : ModelOptions) (state : ℕ) → IsProjecting → IsTidy (with_mmproj c mo state)
  unfolding with_mmproj
  with_mmproj-IsTidy mo state tidy =
      bracket-IsTidy {A = Loaded} 1 (λ cs. project mo state) (λ cs. project-IsTidy mo state tidy)

  -- The call of `load_model`, and what is made of its result.
  abbrev load : LoadArgs → ModelOptions → Go N Loaded
  load args mo =
      (λ s. let r = c.load_model args s.native in (r.0, record s { native = r.1 })) >>= λ result.
      receive result.1 >>= λ message.
      if nat_beq result.0 0
      then load_failed c message
      else if is_empty mo.mmproj
      then return (ok (opened c mo result.0))
      else with_mmproj c mo result.0

  load-IsTidy :
      (args : LoadArgs) (mo : ModelOptions) → IsLoading args → IsProjecting → IsTidy (load args mo)
  load-IsTidy args mo tidy projecting s own t base h =
      let r = c.load_model args t.native in
      let rest : Go N Loaded =
        if is_empty mo.mmproj then return (ok (opened c mo r.0.0)) else with_mmproj c mo r.0.0 in
      branch-IsTidy (nat_beq r.0.0 0) r.0.1 (load_failed c) (λ x. rest) (λ z. refused-IsTidy r.0.1)
        (λ z. quiet-IsTidy r.0.1 rest (tidy t.native z) (
          if-IsTidy {A = Loaded} (is_empty mo.mmproj) (return (ok (opened c mo r.0.0)))
            (with_mmproj c mo r.0.0) (return-IsTidy {A = Loaded} (ok (opened c mo r.0.0)))
            (with_mmproj-IsTidy mo r.0.0 projecting)))
        s own (record t { native = r.1 }) base (Owns-native s own t r.1 h)

  new-IsTidy :
      (model : Text) (opts : List ModelOption)
      → IsLoading (load_args model (new_model_options opts))
      → IsProjecting
      → IsTidy (new c model opts)
  unfolding new
  new-IsTidy model opts tidy projecting =
      let mo = new_model_options opts in
      bracket-IsTidy {A = Loaded} 5 (λ cs. load (load_args model mo) mo)
        (λ cs. load-IsTidy (load_args model mo) mo tidy projecting)

  -- `New`, `LoadState` and `SaveState` leave the C heap as it was, on every path, if no block
  -- beyond the next new address was live, and if `load_model` gives a message only with a nil
  -- model and the projector's call only with a failure.
  pub files-IsBalanced :
      (model : Text) (opts : List ModelOption) (l : LLama) (file : Text)
      → IsLoading (load_args model (new_model_options opts))
      → IsProjecting
      → IsBalanced (new c model opts)
        × IsBalanced (load_state c l file)
        × IsBalanced (save_state c l file)
  files-IsBalanced model opts l file h k = (
    IsTidy-IsBalanced (new c model opts) (new-IsTidy model opts h k),
    IsTidy-IsBalanced (load_state c l file) (load_state-IsTidy l file),
    IsTidy-IsBalanced (save_state c l file) (save_state-IsTidy l file),
  )
