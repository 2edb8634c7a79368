-- ===== src/Llama/Pool/Threads/Invariant.antt =====
-- pool.go: the names in use and the models that are open, over every run of the steps.
use go_llama_cpp.Base.{
  ℕ, ◌≡◌, refl, subst, sym, ap, ◌∙◌, true, false, Option, none, some, [], ◌∷◌, ◌++◌, Text, ok, err,
  lookup, insert, delete, text_eq, text_beq, text_beq_iff, lookup-insert, lookup-delete, arith,
  Option-cases, inl, inr,
}
use go_llama_cpp.Llama.Pool.{Pool, reserve, register, get, remove, release, loaded_models}
use go_llama_cpp.Llama.Pool.Threads.{
  Shared, start, is_in, taken, Step, begun, opened, loaded, failed, removed, released, freed, Steps,
  done, step,
}
use go_llama_cpp.Llama.Pool.Threads.Lists.{
  keys, distinct, distinct-insert, distinct-delete, is_in-loaded_models, loaded_models_name,
  once-loaded_models, once-taken, reserve_inv, get_inv,
}
use go_llama_cpp.Llama.Pool.Threads.Owners.{Owns, Owns-same, Owns-opened, Owns-taken, Owns-freed}

-- The open model of an entry of the pool, or of the load of its name.
abbrev pub loading : Option (Option ℕ) → Option ℕ
loading (some (some m)) = some m
loading (some none) = none
loading none = none

abbrev pub held : Option (Option ℕ) → Option (Option ℕ) → Option ℕ
held (some (some m)) pending = some m
held (some none) pending = loading pending
held none pending = loading pending

abbrev pub slot : Shared → Text → Option ℕ
slot s name = held (lookup name s.pool.models) (lookup name s.pending)

-- A model of a name that is not being loaded is that of its entry.
held-entry : (o p : Option (Option ℕ)) {m : ℕ} → p ≡ none → held o p ≡ some m → o ≡ some (some m)
held-entry (some (some k)) p e h = ap (λ x. some x) h
held-entry (some none) p e h = cc (sym (ap loading e) ∙ h)
held-entry none p e h = cc (sym (ap loading e) ∙ h)

-- A name that is being loaded is reserved, the pool has each name once, and every open model has
-- one owner: the entry of one name, the load of one name, or one caller that frees it.
pub record IsOwned (s : Shared) : Type 0 where
  pub pending_reserved :
      (name : Text) (o : Option ℕ)
      → lookup name s.pending ≡ some o
      → lookup name s.pool.models ≡ some none
  pub names_once : distinct (keys s.pool.models) ≡ true
  pub owns : Owns (slot s) s.leaving s.live

module _ (s : Shared) (h : IsOwned s) where
  -- A name that the pool does not have is not being loaded.
  not_pending : (name : Text) → lookup name s.pool.models ≡ none → lookup name s.pending ≡ none
  not_pending name e = elim (Option-cases (lookup name s.pending)) [
    | inl idle ↦ idle
    | inr (o, at) ↦ cc (sym e ∙ h.pending_reserved name o at)
  ]

  begun-IsOwned :
      (name : Text) (p : Pool)
      → reserve name s.pool ≡ ok p
      → IsOwned (record s { pool = p; pending = insert name none s.pending })
  begun-IsOwned name p k =
      let (free_name, e) = reserve_inv name s.pool p k in
      rw e (record {
        pending_reserved = λ j o q. ground (
          arith,
          lookup-insert name j none s.pool.models,
          lookup-insert name j none s.pending,
          h.pending_reserved j o,
          q,
        );
        names_once = distinct-insert name none s.pool.models h.names_once;
        owns = Owns-same (slot s) _ s.leaving s.live h.owns λ j. ground (
          arith,
          lookup-insert name j none s.pool.models,
          lookup-insert name j none s.pending,
          not_pending name free_name,
          free_name,
          text_beq_iff name j,
        );
      })

  opened-IsOwned :
      (name : Text) (m : ℕ)
      → lookup name s.pending ≡ some none
      → is_in m s.live ≡ false
      → IsOwned (record s { pending = insert name (some m) s.pending; live = m ∷ s.live })
  opened-IsOwned name m k fresh =
      let entry = h.pending_reserved name none k in
      record {
        pending_reserved = λ j o q. ground (
          arith,
          lookup-insert name j (some m) s.pending,
          h.pending_reserved j o,
          entry,
          q,
          text_beq_iff name j,
        );
        names_once = h.names_once;
        owns =
            Owns-opened (slot s) _ s.leaving s.live h.owns name m (ground (arith, entry, k)) fresh
              λ j.
                ground
                  (arith, lookup-insert name j (some m) s.pending, entry, k, text_beq_iff name j);
      }

  loaded-IsOwned :
      (name : Text) (m : ℕ)
      → lookup name s.pending ≡ some (some m)
      → IsOwned (record s { pool = register name (ok m) s.pool; pending = delete name s.pending })
  unfolding register
  loaded-IsOwned name m k =
      let entry = h.pending_reserved name (some m) k in
      record {
        pending_reserved = λ j o q. ground (
          arith,
          lookup-insert name j (some m) s.pool.models,
          lookup-delete name j s.pending,
          h.pending_reserved j o,
          q,
        );
        names_once = distinct-insert name (some m) s.pool.models h.names_once;
        owns = Owns-same (slot s) _ s.leaving s.live h.owns λ j. ground (
          arith,
          lookup-insert name j (some m) s.pool.models,
          lookup-delete name j s.pending,
          entry,
          k,
          text_beq_iff name j,
        );
      }

  failed-IsOwned :
      (name e : Text)
      → lookup name s.pending ≡ some none
      → IsOwned (record s { pool = register name (err e) s.pool; pending = delete name s.pending })
  unfolding register
  failed-IsOwned name e k =
      let entry = h.pending_reserved name none k in
      record {
        pending_reserved = λ j o q. ground (
          arith,
          lookup-delete name j s.pool.models,
          lookup-delete name j s.pending,
          h.pending_reserved j o,
          q,
        );
        names_once = distinct-delete name s.pool.models h.names_once;
        owns = Owns-same (slot s) _ s.leaving s.live h.owns λ j. ground (
          arith,
          lookup-delete name j s.pool.models,
          lookup-delete name j s.pending,
          entry,
          k,
          text_beq_iff name j,
        );
      }

  removed-IsOwned :
      (name : Text)
      → lookup name s.pending ≡ none
      → IsOwned (record s {
        pool = (remove name s.pool).1;
        leaving = taken (remove name s.pool).0 ++ s.leaving;
      })
  unfolding remove
  removed-IsOwned name k = record {
    pending_reserved = λ j o q. ground (
      arith,
      lookup-delete name j s.pool.models,
      h.pending_reserved j o,
      k,
      q,
      text_beq_iff name j,
    );
    names_once = distinct-delete name s.pool.models h.names_once;
    owns =
        Owns-taken (slot s) _ s.leaving s.live h.owns (λ j. text_beq name j)
          (taken (get name s.pool))
          (λ j. ground (arith, lookup-delete name j s.pool.models, k, text_beq_iff name j))
          (λ j m g at. (get_inv name s.pool m).1 (
            held-entry (lookup name s.pool.models) (lookup name s.pending) k
              (subst (λ n. slot s n ≡ some m) (sym ((text_beq_iff name j).0 g)) at)))
          (λ m y.
            let at = (get_inv name s.pool m).0 y in
            (name, ground (arith, text_beq_iff name name), ground (arith, at)))
          (once-taken (get name s.pool));
  }

  released-IsOwned :
      s.pending ≡ []
      → IsOwned (record s { pool = (release s.pool).1; leaving = (release s.pool).0 ++ s.leaving })
  unfolding release lookup
  released-IsOwned e = record {
    pending_reserved = λ j o q. cc (sym (ap (λ p. lookup j p) e) ∙ q);
    names_once = refl;
    owns =
        Owns-taken (slot s) _ s.leaving s.live h.owns (λ j. true) (loaded_models s.pool.models)
          (λ j. ap (λ p. loading (lookup j p)) e)
          (λ j m g at.
            is_in-loaded_models j m s.pool.models (
              held-entry (lookup j s.pool.models) (lookup j s.pending) (ap (λ p. lookup j p) e) at))
          (λ m y.
            let (j, at) = loaded_models_name m s.pool.models h.names_once y in
            (j, refl, ground (arith, at)))
          (once-loaded_models s.pool.models h.names_once
            λ i j m p q. h.owns.one_name i j m (ground (arith, p)) (ground (arith, q)));
  }

step-IsOwned : {s t : Shared} → Step s t → IsOwned s → IsOwned t
step-IsOwned {s} (begun name p e) h = begun-IsOwned s h name p e
step-IsOwned {s} (opened name m k fresh) h = opened-IsOwned s h name m k fresh
step-IsOwned {s} (loaded name m k) h = loaded-IsOwned s h name m k
step-IsOwned {s} (failed name e k) h = failed-IsOwned s h name e k
step-IsOwned {s} (removed name k) h = removed-IsOwned s h name k
step-IsOwned {s} (released e) h = released-IsOwned s h e
step-IsOwned {s} (freed m k) h = record {
  pending_reserved = h.pending_reserved;
  names_once = h.names_once;
  owns = Owns-freed (slot s) s.leaving s.live m h.owns k;
}

start-IsOwned : IsOwned start
unfolding lookup
start-IsOwned = record {
  pending_reserved = λ name o q. cc;
  names_once = refl;
  owns = record {
    owned = λ m e. cc;
    slot_live = λ name m e. cc;
    slot_kept = λ name m e. cc;
    one_name = λ i j m e k. cc;
    leaving_live = λ m e. cc;
    leaving_once = refl;
    live_once = refl;
  };
}

-- After any interleaving of the locked sections of `Load`, `Remove` and `Free` with the calls of
-- `New` between the two sections of a `Load` and the freeing of models after those of `Remove`
-- and `Free`, where a name is removed only while no load of it is between its sections, and the
-- pool is freed only while no load is: a name that is being loaded is reserved, the pool has each
-- name once, and every open model has exactly one owner, which is the entry of one name, the load
-- of one name whose `New` has returned it, or one caller that has taken it out and not freed it
-- yet; what these own is open.
pub Steps-IsOwned : {s : Shared} → Steps start s → IsOwned s
Steps-IsOwned done = start-IsOwned
Steps-IsOwned (step ss st) = step-IsOwned st (Steps-IsOwned ss)
