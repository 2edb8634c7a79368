-- ===== src/Llama/Pool.antt =====
-- pool.go: Pool, whose models are pointers, and whose operations are the parts that run under the
-- lock and their compositions.
pub mod Laws
pub mod Refinement
pub mod Threads
use go_llama_cpp.Base.{
  ℕ, Bool, true, false, Option, none, some, List, [], ◌∷◌, ◌++◌, if◌then◌else◌, Text, Result, ok,
  err, lookup, insert, delete, text_eq, nat_eq, sort_by,
}
use go_llama_cpp.Strings.{codes}

-- A model is known by its address; `none` is the nil entry of a name that is reserved.
pub record Pool : Type 0 where
  pub models : List (Text × Option ℕ)

abbrev pub new_pool : Pool
new_pool = record { models = [] }

-- The errors, with the name for `%q` and the wrapped error of `New`.
pub data PoolError : Type 0 where
  already_loaded : Text → PoolError
  load_failed : Text → Text → PoolError
  not_loaded : Text → PoolError

-- `Load` up to the first `Unlock`: the name is reserved, or it is in use.
unfoldable pub reserve : Text → Pool → Result PoolError Pool
unfolding lookup insert
reserve name p = elim (lookup name p.models) [
  | some m ↦ err (already_loaded name)
  | none ↦ ok (record p { models = insert name none p.models })
]

-- `Load` from `New` on, with what it returned.
unfoldable pub register : Text → Result Text ℕ → Pool → Pool
unfolding insert delete
register name (err e) p = record p { models = delete name p.models }
register name (ok model) p = record p { models = insert name (some model) p.models }

unfoldable pub get : Text → Pool → Option ℕ
unfolding lookup
get name p = elim (lookup name p.models) [ none ↦ none | some none ↦ none | some (some m) ↦ some m ]

abbrev pub loaded_names : List (Text × Option ℕ) → List Text
loaded_names [] = []
loaded_names ((name, none) ∷ models) = loaded_names models
loaded_names ((name, some m) ∷ models) = name ∷ loaded_names models

-- `Names`
unfoldable pub names : Pool → List Text
unfolding sort_by
names p = sort_by (λ name. name) (loaded_names p.models)

-- `Remove` under the lock: the model to free, and the pool without it.
unfoldable pub remove : Text → Pool → Option ℕ × Pool
unfolding get delete
remove name p = (get name p, record p { models = delete name p.models })

abbrev pub loaded_models : List (Text × Option ℕ) → List ℕ
loaded_models [] = []
loaded_models ((name, none) ∷ models) = loaded_models models
loaded_models ((name, some m) ∷ models) = m ∷ loaded_models models

-- `Free` under the lock: the models to free, and an empty pool.
unfoldable pub release : Pool → List ℕ × Pool
release p = (loaded_models p.models, new_pool)

-- The methods as one caller sees them, on a world of type `W` in which models are opened, freed
-- and used.
module _ {W : Type 0} where
  unfoldable pub load : (W → Result Text ℕ × W) → Text → Pool × W → Result PoolError ℕ × (Pool × W)
  unfolding reserve register
  load new name (p, w) = elim (reserve name p) [
    | err e ↦ (err e, (p, w))
    | ok reserved ↦
        let r = new w in
        elim r.0 [
          | err e ↦ (err (load_failed name e), (register name (err e) reserved, r.1))
          | ok model ↦ (ok model, (register name (ok model) reserved, r.1))
        ]
  ]

  -- `Predict` and `Embeddings`: the method of the model that `Get` finds.
  unfoldable pub on_model {ℓ} :
      {A : Type ℓ} → (ℕ → W → A × W) → Text → Pool × W → Result PoolError A × (Pool × W)
  unfolding get
  on_model method name (p, w) = elim (get name p) [
    | none ↦ (err (not_loaded name), (p, w))
    | some model ↦ let r = method model w in (ok r.0, (p, r.1))
  ]

  -- In the order of the list, where Go's is any.
  abbrev pub free_models : (ℕ → W → W) → List ℕ → W → W
  free_models free [] w = w
  free_models free (m ∷ ms) w = free_models free ms (free m w)

  unfoldable pub remove_model : (ℕ → W → W) → Text → Pool × W → Pool × W
  unfolding remove
  remove_model free name (p, w) =
      let r = remove name p in (r.1, elim r.0 [ none ↦ w | some m ↦ free m w ])

  unfoldable pub free_pool : (ℕ → W → W) → Pool × W → Pool × W
  unfolding release
  free_pool free (p, w) = let r = release p in (r.1, free_models free r.0 w)
