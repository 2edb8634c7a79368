-- ===== src/Llama/Pool/Threads/Owners.antt =====
-- pool.go: who owns an open model: a name of the pool, or a caller that frees it.
use go_llama_cpp.Base.{
  ℕ, ◌≡◌, Bool, true, false, ◌⊎◌, inl, inr, Option, none, some, List, ◌∷◌, ◌++◌, Text, text_beq,
  text_beq_iff, nat_beq, nat_beq_iff, if◌then◌else◌, arith, Bool-cases,
}
use go_llama_cpp.Llama.Pool.Threads.{is_in, drop_first}
use go_llama_cpp.Llama.Pool.Threads.Lists.{
  once, is_in-append, is_in-drop_first, once-drop_first, once-append,
}

-- `slot` says which open model a name stands for. An open model stands under one name or is being
-- freed by one caller, never both; and what stands under a name or is being freed is open.
pub record Owns (slot : Text → Option ℕ) (leaving live : List ℕ) : Type 0 where
  pub owned :
      (m : ℕ)
      → is_in m live ≡ true
      → ((name : Text) × (slot name ≡ some m)) ⊎ (is_in m leaving ≡ true)
  pub slot_live : (name : Text) (m : ℕ) → slot name ≡ some m → is_in m live ≡ true
  pub slot_kept : (name : Text) (m : ℕ) → slot name ≡ some m → is_in m leaving ≡ false
  pub one_name :
      (name other : Text) (m : ℕ) → slot name ≡ some m → slot other ≡ some m → name ≡ other
  pub leaving_live : (m : ℕ) → is_in m leaving ≡ true → is_in m live ≡ true
  pub leaving_once : once leaving ≡ true
  pub live_once : once live ≡ true

module _ (slot after : Text → Option ℕ) (leaving live : List ℕ) (h : Owns slot leaving live) where
  pub Owns-same : ((j : Text) → after j ≡ slot j) → Owns after leaving live
  Owns-same same = record {
    owned = λ m e. elim (h.owned m e) [
      | inl (name, at) ↦ inl (name, ground (arith, same name, at))
      | inr l ↦ inr l
    ];
    slot_live = λ name m e. h.slot_live name m (ground (arith, same name, e));
    slot_kept = λ name m e. h.slot_kept name m (ground (arith, same name, e));
    one_name = λ name other m e k.
        h.one_name name other m (ground (arith, same name, e)) (ground (arith, same other, k));
    leaving_live = h.leaving_live;
    leaving_once = h.leaving_once;
    live_once = h.live_once;
  }

  pub Owns-opened :
      (name : Text) (m : ℕ)
      → slot name ≡ none
      → is_in m live ≡ false
      → ((j : Text) → after j ≡ (if text_beq name j then some m else slot j))
      → Owns after leaving (m ∷ live)
  Owns-opened name m free fresh change = record {
    owned = λ n e. elim (Bool-cases (nat_beq n m)) [
      | inl y ↦ inl (name, ground (arith, change name, text_beq_iff name name, nat_beq_iff n m, y))
      | inr z ↦ elim (h.owned n (ground (arith, e, z))) [
        | inl (j, at) ↦ inl (j, ground (arith, change j, at, free, text_beq_iff name j))
        | inr l ↦ inr l
      ]
    ];
    slot_live = λ j n e. ground (arith, change j, h.slot_live j n, nat_beq_iff n m, e);
    slot_kept = λ j n e. ground (arith, change j, h.slot_kept j n, h.leaving_live n, fresh, e);
    one_name = λ i j n e k. ground (
      arith,
      change i,
      change j,
      h.one_name i j n,
      h.slot_live i n,
      h.slot_live j n,
      text_beq_iff name i,
      text_beq_iff name j,
      fresh,
    );
    leaving_live = λ n e. ground (arith, h.leaving_live n e);
    leaving_once = h.leaving_once;
    live_once = ground (arith, h.live_once, fresh);
  }

  -- The models of the names that `gone` holds for are taken out.
  pub Owns-taken :
      (gone : Text → Bool) (ms : List ℕ)
      → ((j : Text) → after j ≡ (if gone j then none else slot j))
      → ((j : Text) (m : ℕ) → gone j ≡ true → slot j ≡ some m → is_in m ms ≡ true)
      → ((m : ℕ) → is_in m ms ≡ true → (j : Text) × (gone j ≡ true) × (slot j ≡ some m))
      → once ms ≡ true
      → Owns after (ms ++ leaving) live
  Owns-taken gone ms change there back single = record {
    owned = λ m e. elim (h.owned m e) [
      | inl (j, at) ↦ elim (Bool-cases (gone j)) [
        | inl y ↦ inr (ground (arith, is_in-append m ms leaving, there j m y at))
        | inr n ↦ inl (j, ground (arith, change j, n, at))
      ]
      | inr l ↦ inr (ground (arith, is_in-append m ms leaving, l))
    ];
    slot_live = λ j m e. h.slot_live j m (ground (arith, change j, e));
    slot_kept = λ j m e. elim (Bool-cases (is_in m ms)) [
      | inl y ↦
          let (i, g, at) = back m y in
          let before : slot j ≡ some m = ground (arith, change j, e) in
          absurd (ground (arith, change j, e, g, h.one_name i j m at before))
      | inr n ↦
          let before : slot j ≡ some m = ground (arith, change j, e) in
          ground (arith, n, is_in-append m ms leaving, h.slot_kept j m before)
    ];
    one_name =
        λ i j m e k. h.one_name i j m (ground (arith, change i, e)) (ground (arith, change j, k));
    leaving_live = λ m e. elim (Bool-cases (is_in m ms)) [
      | inl y ↦ let (i, g, at) = back m y in h.slot_live i m at
      | inr n ↦ h.leaving_live m (ground (arith, n, e, is_in-append m ms leaving))
    ];
    leaving_once =
        once-append ms leaving single h.leaving_once
          λ m y. let (i, g, at) = back m y in h.slot_kept i m at;
    live_once = h.live_once;
  }

pub Owns-freed :
    (slot : Text → Option ℕ) (leaving live : List ℕ) (m : ℕ)
    → Owns slot leaving live
    → is_in m leaving ≡ true
    → Owns slot (drop_first m leaving) (drop_first m live)
Owns-freed slot leaving live m h there = record {
  owned = λ n e. elim (h.owned n (ground (arith, e, is_in-drop_first m n live h.live_once))) [
    | inl at ↦ inl at
    | inr l ↦ inr (
        ground (
          arith,
          l,
          e,
          is_in-drop_first m n live h.live_once,
          is_in-drop_first m n leaving h.leaving_once,
        ))
  ];
  slot_live = λ name n e. ground (
    arith,
    h.slot_live name n e,
    h.slot_kept name n e,
    there,
    nat_beq_iff m n,
    is_in-drop_first m n live h.live_once,
  );
  slot_kept =
      λ name n e. ground (arith, h.slot_kept name n e, is_in-drop_first m n leaving h.leaving_once);
  one_name = h.one_name;
  leaving_live = λ n e. ground (
    arith,
    e,
    h.leaving_live n,
    is_in-drop_first m n live h.live_once,
    is_in-drop_first m n leaving h.leaving_once,
  );
  leaving_once = once-drop_first m leaving h.leaving_once;
  live_once = once-drop_first m live h.live_once;
}
