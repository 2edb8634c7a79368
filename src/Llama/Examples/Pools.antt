-- ===== src/Llama/Examples/Pools.antt =====
-- pool.go at small inputs.
use go_llama_cpp.Base.{
  ℕ, suc, ◌≡◌, refl, none, some, List, [], ◌∷◌, Text, Result, ok, lookup, insert, delete, text_eq,
  nat_eq,
}
use go_llama_cpp.Strings.{codes}
use go_llama_cpp.Llama.Pool.{Pool, new_pool, reserve, register, get, remove, load}
use go_llama_cpp.Llama.Pool.Laws.{IsLoad, load-IsLoad}
use go_llama_cpp.Llama.Pool.Threads.{
  Shared, start, begun, opened, loaded, removed, Steps, done, step,
}
use go_llama_cpp.Llama.Pool.Threads.Invariant.{IsOwned, Steps-IsOwned}
use go_llama_cpp.Llama.Pool.{already_loaded}
use go_llama_cpp.Llama.Pool.Refinement.{
  Op, reserves, registers, gets, removes, granted, refused, found, run, replay, view, run_refines,
}

-- A load whose models are numbered.
abbrev opening : ℕ → Result Text ℕ × ℕ
opening n = (ok n, suc n)

load-IsLoad_example :
    IsLoad opening (codes "a") (new_pool, 7) (load opening (codes "a") (new_pool, 7))
load-IsLoad_example = load-IsLoad opening (codes "a") new_pool 7

abbrev a : Text
a = codes "a"

abbrev reserved : Pool
reserved = record { models = (a, none) ∷ [] }

a-reserved : reserve a new_pool ≡ ok reserved
unfolding reserve lookup insert
a-reserved = refl

-- Model 1 is taken out of the pool, and not freed yet.
abbrev going : Shared
going = record {
  pool = (remove a (register a (ok 1) reserved)).1;
  pending = [];
  leaving = 1 ∷ [];
  live = 1 ∷ [];
}

abbrev holding : Shared
holding = record { pool = register a (ok 1) reserved; pending = []; leaving = []; live = 1 ∷ [] }

-- `Load("a")`, run to its end.
loads : Steps start holding
unfolding insert delete lookup
loads =
    step (step (step done (begun a reserved a-reserved)) (opened a 1 refl refl)) (loaded a 1 refl)

-- `Remove("a")` after it, before the model is freed.
removes_a : Steps start going
unfolding remove get register lookup insert
removes_a = step loads (removed a refl)

Steps-IsOwned_example : IsOwned going
Steps-IsOwned_example = Steps-IsOwned {s = going} removes_a

-- `Load`, `Remove` of that name before it ends, and a second `Load`: both loads succeed, and the
-- model 1 of the first is in no entry any more.
overtaken :
    (reserve a (remove a reserved).1 ≡ ok reserved)
    × (register a (ok 2) (register a (ok 1) reserved) ≡ record { models = (a, some 2) ∷ [] })
unfolding reserve remove register lookup delete insert
overtaken = (refl, refl)

-- `Load("a")`, a look-up, and `Remove`, twice.
abbrev calls : List Op
calls = reserves a ∷ registers a (ok 1) ∷ reserves a ∷ gets a ∷ removes a ∷ removes a ∷ []

run_refines_example :
    ((run calls new_pool).0 ≡ (replay calls (view new_pool)).0)
    × (view (run calls new_pool).1 ≡ (replay calls (view new_pool)).1)
run_refines_example = run_refines calls new_pool

answers :
    (run calls new_pool).0
    ≡ granted
      ∷ granted
      ∷ refused (already_loaded a)
      ∷ found (some 1)
      ∷ found (some 1)
      ∷ found none
      ∷ []
unfolding run reserve register get remove lookup insert delete
answers = refl
