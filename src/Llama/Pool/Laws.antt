-- ===== src/Llama/Pool/Laws.antt =====
-- pool.go: what the methods do for a caller that is alone.
use go_llama_cpp.Base.{
  ℕ, ◌≡◌, refl, Option, none, some, if◌then◌else◌, Text, Result, ok, err, lookup, insert, delete,
  text_eq, text_beq, text_beq_iff, lookup-insert, lookup-delete, arith,
}
use go_llama_cpp.Llama.Pool.{
  Pool, PoolError, already_loaded, load_failed, reserve, register, get, load,
}

-- What `Load` of `name` does: nothing where the name is in use; nothing that a caller can see
-- where `New` fails; else the name, and no other, gets the model that is returned.
abbrev pub IsLoad :
    {W : Type 0}
    → (W → Result Text ℕ × W)
    → Text
    → Pool × W
    → Result PoolError ℕ × (Pool × W)
    → Type 0
IsLoad new name (p, w) (result, after) =
    ((m : Option ℕ)
      → lookup name p.models ≡ some m
      → (result ≡ err (already_loaded name)) × (after ≡ (p, w)))
    × ((e : Text)
        → lookup name p.models ≡ none
        → (new w).0 ≡ err e
        → (result ≡ err (load_failed name e))
          × (after.1 ≡ (new w).1)
          × ((j : Text) → lookup j after.0.models ≡ lookup j p.models))
    × ((m : ℕ)
        → lookup name p.models ≡ none
        → (new w).0 ≡ ok m
        → (result ≡ ok m)
          × (after.1 ≡ (new w).1)
          × ((j : Text) → get j after.0 ≡ (if text_beq name j then some m else get j p)))

module _ {W : Type 0} (new : W → Result Text ℕ × W) (name : Text) (p : Pool) (w : W) where
  load_used :
      (m : Option ℕ)
      → lookup name p.models ≡ some m
      → load new name (p, w) ≡ (err (already_loaded name), (p, w))
  unfolding load reserve
  load_used m h = rw (load, reserve, h)

  load_error :
      (e : Text)
      → lookup name p.models ≡ none
      → (new w).0 ≡ err e
      → load new name (p, w) ≡ (
        err (load_failed name e),
        (record p { models = delete name (insert name none p.models) }, (new w).1),
      )
  unfolding load reserve register
  load_error e h k = rw (load, reserve, h, k)

  load_ok :
      (m : ℕ)
      → lookup name p.models ≡ none
      → (new w).0 ≡ ok m
      → load new name (p, w) ≡ (
        ok m,
        (record p { models = insert name (some m) (insert name none p.models) }, (new w).1),
      )
  unfolding load reserve register
  load_ok m h k = rw (load, reserve, h, k)

  unreserved :
      (j : Text)
      → lookup name p.models ≡ none
      → lookup j (delete name (insert name none p.models)) ≡ lookup j p.models
  unreserved j h = ground (
    arith,
    lookup-delete name j (insert name none p.models),
    lookup-insert name j none p.models,
    text_beq_iff name j,
  )

  registered :
      (m : ℕ) (j : Text)
      → get j (record p { models = insert name (some m) (insert name none p.models) })
        ≡ (if text_beq name j then some m else get j p)
  unfolding get
  registered m j = ground (
    arith,
    lookup-insert name j (some m) (insert name none p.models),
    lookup-insert name j none p.models,
    text_beq_iff name j,
  )

  -- What `Load` of a name does for a caller that is alone: nothing where the name is in use;
  -- nothing that a look-up can see where `New` fails; else the name, and no other, gets the model
  -- that is returned.
  pub load-IsLoad : IsLoad new name (p, w) (load new name (p, w))
  load-IsLoad = (
    (λ m h. rw (load_used m h) (refl, refl)),
    (λ e h k. rw (load_error e h k) (refl, refl, λ j. unreserved j h)),
    (λ m h k. rw (load_ok m h k) (refl, refl, registered m)),
  )
