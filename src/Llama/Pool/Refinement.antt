-- ===== src/Llama/Pool/Refinement.antt =====
-- pool.go: what a pool is to its callers: a function from names, changed at one name by each part
-- that runs under the lock.
use mathlib.Core.Path.{fun_ext}
use go_llama_cpp.Base.{
  ℕ, ◌≡◌, refl, ap, ap₂, ◌∙◌, Option, none, some, List, [], ◌∷◌, if◌then◌else◌, Text, Result, ok,
  err, lookup, insert, delete, text_eq, text_beq, lookup-insert, lookup-delete, arith,
}
use go_llama_cpp.Llama.Pool.{
  Pool, PoolError, already_loaded, reserve, register, get, remove, release,
}

-- The parts of the methods: `Load` is `reserve` and `register`, `Free` is `release`.
pub data Op : Type 0 where
  reserves : Text → Op
  registers : Text → Result Text ℕ → Op
  gets : Text → Op
  removes : Text → Op
  releases : Op

-- What a part reports to its caller.
pub data Answer : Type 0 where
  granted : Answer
  refused : PoolError → Answer
  found : Option ℕ → Answer

abbrev pub perform : Op → Pool → Answer × Pool
perform (reserves name) p = elim (reserve name p) [
  | err e ↦ (refused e, p)
  | ok reserved ↦ (granted, reserved)
]
perform (registers name result) p = (granted, register name result p)
perform (gets name) p = (found (get name p), p)
perform (removes name) p = let r = remove name p in (found r.0, r.1)
perform releases p = (granted, (release p).1)

unfoldable pub run : List Op → Pool → List Answer × Pool
run [] p = ([], p)
run (op ∷ ops) p =
    let first = perform op p in let rest = run ops first.1 in (first.0 ∷ rest.0, rest.1)

-- Under a name: nothing, a reservation, or a model.
pub data Entry : Type 0 where
  absent pending : Entry
  loaded : ℕ → Entry

abbrev pub View : Type 0
View = Text → Entry

abbrev pub entry : Option (Option ℕ) → Entry
entry none = absent
entry (some none) = pending
entry (some (some m)) = loaded m

abbrev pub view : Pool → View
view p name = entry (lookup name p.models)

-- A view, changed at one name.
abbrev pub change : View → Text → Entry → View
change v name e other = if text_beq name other then e else v other

abbrev pub model_of : Entry → Option ℕ
model_of (loaded m) = some m
model_of _ = none

-- The same parts on a view.
abbrev pub specify : Op → View → Answer × View
specify (reserves name) v = elim (v name) [
  | absent ↦ (granted, change v name pending)
  | _ ↦ (refused (already_loaded name), v)
]
specify (registers name (ok m)) v = (granted, change v name (loaded m))
specify (registers name (err e)) v = (granted, change v name absent)
specify (gets name) v = (found (model_of (v name)), v)
specify (removes name) v = (found (model_of (v name)), change v name absent)
specify releases v = (granted, λ name. absent)

pub replay : List Op → View → List Answer × View
replay [] v = ([], v)
replay (op ∷ ops) v =
    let first = specify op v in let rest = replay ops first.1 in (first.0 ∷ rest.0, rest.1)

view-insert :
    (name : Text) (m : Option ℕ) (p : Pool)
    → view (record p { models = insert name m p.models }) ≡ change (view p) name (entry (some m))
view-insert name m p = fun_ext λ j. ground (arith, lookup-insert name j m p.models)

view-delete :
    (name : Text) (p : Pool)
    → view (record p { models = delete name p.models }) ≡ change (view p) name absent
view-delete name p = fun_ext λ j. ground (arith, lookup-delete name j p.models)

get-view : (name : Text) (p : Pool) → get name p ≡ model_of (view p name)
unfolding get
get-view name p = ground arith

reserves_refines :
    (name : Text) (p : Pool) (o : Option (Option ℕ))
    → lookup name p.models ≡ o
    → ((perform (reserves name) p).0 ≡ (specify (reserves name) (view p)).0)
      × (view (perform (reserves name) p).1 ≡ (specify (reserves name) (view p)).1)
unfolding reserve
reserves_refines name p none free =
    rw (perform, reserve, free, specify) (refl, view-insert name none p)
reserves_refines name p (some none) used = rw (perform, reserve, used, specify) (refl, refl)
reserves_refines name p (some (some m)) used = rw (perform, reserve, used, specify) (refl, refl)

perform_refines :
    (op : Op) (p : Pool)
    → ((perform op p).0 ≡ (specify op (view p)).0)
      × (view (perform op p).1 ≡ (specify op (view p)).1)
unfolding reserve register remove release
perform_refines (reserves name) p = reserves_refines name p (lookup name p.models) refl
perform_refines (registers name (ok m)) p = (refl, view-insert name (some m) p)
perform_refines (registers name (err e)) p = (refl, view-delete name p)
perform_refines (gets name) p = (ap found (get-view name p), refl)
perform_refines (removes name) p = (ap found (get-view name p), view-delete name p)
perform_refines releases p = (refl, unfold lookup in refl)

-- Any sequence of the locked parts of `Load`, `Get`, `Remove` and `Free`, as callers in any order
-- perform them, gives the same answers as on a function from names to nothing, a reservation or a
-- model that each part changes at one name (`Free` at all), and the pool after it reads as that
-- function.
pub run_refines :
    (ops : List Op) (p : Pool)
    → ((run ops p).0 ≡ (replay ops (view p)).0) × (view (run ops p).1 ≡ (replay ops (view p)).1)
unfolding run replay
run_refines [] p = (refl, refl)
run_refines (op ∷ ops) p =
    let (answer, after) = perform_refines op p in
    let (answers, last) = run_refines ops (perform op p).1 in
    let moved = ap (λ v. replay ops v) after in
    (ap₂ (λ a as'. a ∷ as') answer (answers ∙ ap (λ r. r.0) moved), last ∙ ap (λ r. r.1) moved)
