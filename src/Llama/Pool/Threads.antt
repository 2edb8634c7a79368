-- ===== src/Llama/Pool/Threads.antt =====
-- pool.go: several callers of one pool. The sections under the lock are atomic steps; between two of
-- them `New` opens a model, and after them `Free` of a model closes it.
pub mod Lists
pub mod Owners
pub mod Invariant
pub mod Names
use go_llama_cpp.Base.{
  ℕ, ◌≡◌, Bool, true, false, ◌||◌, Option, none, some, List, [], ◌∷◌, ◌++◌, if◌then◌else◌, nat_beq,
  Text, Result, ok, err, lookup, insert, delete, text_eq,
}
use go_llama_cpp.Llama.Pool.{Pool, PoolError, new_pool, reserve, register, get, remove, release}

-- The loads that have reserved their name and not ended, with the model once `New` has opened it;
-- the models that were taken out of the pool to be freed; and the models that are open.
pub record Shared : Type 0 where
  pub pool : Pool
  pub pending : List (Text × Option ℕ)
  pub leaving : List ℕ
  pub live : List ℕ

abbrev pub start : Shared
start = record { pool = new_pool; pending = []; leaving = []; live = [] }

abbrev pub is_in : ℕ → List ℕ → Bool
is_in m [] = false
is_in m (n ∷ ns) = nat_beq m n || is_in m ns

abbrev pub drop_first : ℕ → List ℕ → List ℕ
drop_first m [] = []
drop_first m (n ∷ ns) = let rest = drop_first m ns in if nat_beq m n then ns else n ∷ rest

abbrev pub taken : Option ℕ → List ℕ
taken none = []
taken (some m) = m ∷ []

-- A step of one caller. `removed` and `released` stand for callers that wait for the loads to
-- end: no load of the name, or no load at all, is between its two sections.
pub data Step : Shared → Shared → Type 0 where
  begun :
      {s : Shared} (name : Text) (p : Pool)
      → reserve name s.pool ≡ ok p
      → Step s (record s { pool = p; pending = insert name none s.pending })
  opened :
      {s : Shared} (name : Text) (m : ℕ)
      → lookup name s.pending ≡ some none
      → is_in m s.live ≡ false
      → Step s (record s { pending = insert name (some m) s.pending; live = m ∷ s.live })
  loaded :
      {s : Shared} (name : Text) (m : ℕ)
      → lookup name s.pending ≡ some (some m)
      → Step s (record s { pool = register name (ok m) s.pool; pending = delete name s.pending })
  failed :
      {s : Shared} (name e : Text)
      → lookup name s.pending ≡ some none
      → Step s (record s { pool = register name (err e) s.pool; pending = delete name s.pending })
  removed :
      {s : Shared} (name : Text)
      → lookup name s.pending ≡ none
      → Step s (record s {
        pool = (remove name s.pool).1;
        leaving = taken (remove name s.pool).0 ++ s.leaving;
      })
  released :
      {s : Shared}
      → s.pending ≡ []
      → Step s (record s { pool = (release s.pool).1; leaving = (release s.pool).0 ++ s.leaving })
  freed :
      {s : Shared} (m : ℕ)
      → is_in m s.leaving ≡ true
      → Step s (record s { leaving = drop_first m s.leaving; live = drop_first m s.live })

pub data Steps : Shared → Shared → Type 0 where
  done : {s : Shared} → Steps s s
  step : {s t u : Shared} → Steps s t → Step t u → Steps s u
