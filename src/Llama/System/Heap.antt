-- ===== src/Llama/System/Heap.antt =====
-- llama.go: the C heap as a set of blocks.
use go_llama_cpp.Base.{
  ℕ, zero, suc, ◌≡◌, refl, ◌∙◌, Bool, true, false, ◌&&◌, ◌||◌, not, Option, none, some, List, [],
  ◌∷◌, ◌++◌, nat_beq, nat_beq_iff, leb, Text, arith,
}
use go_llama_cpp.Llama.System.{
  System, Block, allocate, free, allocate_all, free_all, remove, receive,
}

abbrev pub elem : ℕ → List ℕ → Bool
elem p [] = false
elem p (q ∷ qs) = nat_beq p q || elem p qs

-- The heap as a set: no block beyond `next` is live.
abbrev pub IsHeap : {N : Type 0} → System N → Type 0
IsHeap s = (p : ℕ) → leb s.next p ≡ true → elem p s.live ≡ false

pub elem-remove : (p q : ℕ) (ps : List ℕ) → elem p (remove q ps) ≡ (not (nat_beq p q) && elem p ps)
elem-remove p q [] = ground arith
elem-remove p q (r ∷ ps) =
    ground (arith, elem-remove p q ps, nat_beq_iff p q, nat_beq_iff q r, nat_beq_iff p r)

-- Freed blocks are live no more, and no other changes.
pub elem-free_all :
    {N : Type 0} (p : ℕ) (ps : List ℕ) (s : System N)
    → elem p (free_all ps s).1.live ≡ (not (elem p ps) && elem p s.live)
unfolding free_all
elem-free_all p [] s = ground arith
elem-free_all p (q ∷ ps) s = ground (arith, elem-free_all p ps (free q s).1, elem-remove p q s.live)

-- Of the blocks that are live at `t`, those of `own` came after `s`, and the others were live then.
pub record Owns {N : Type 0} (s : System N) (own : ℕ → Bool) (t : System N) : Type 0 where
  pub live : (p : ℕ) → elem p t.live ≡ (own p || elem p s.live)
  pub fresh : (p : ℕ) → own p ≡ true → leb s.next p ≡ true
  pub later : leb s.next t.next ≡ true
  pub heap : IsHeap t

abbrev pub is_block : ℕ → Option Block → Bool
is_block p none = false
is_block p (some (q, text)) = nat_beq p q

module _ {N : Type 0} (s : System N) where
  pub Owns-refl : IsHeap s → Owns s (λ p. false) s
  Owns-refl h = record { live = λ p. refl; fresh = λ p e. cc; later = ground arith; heap = h }

  pub Owns-same :
      (own other : ℕ → Bool) (t : System N)
      → ((p : ℕ) → own p ≡ other p)
      → Owns s own t
      → Owns s other t
  Owns-same own other t e h = record {
    live = λ p. ground (arith, h.live p, e p);
    fresh = λ p o. h.fresh p (e p ∙ o);
    later = h.later;
    heap = h.heap;
  }

  pub Owns-allocate :
      (own : ℕ → Bool) (t : System N)
      → Owns s own t
      → Owns s (λ p. nat_beq p t.next || own p) (allocate t).1
  unfolding allocate
  Owns-allocate own t h = record {
    live = λ p. ground (arith, h.live p);
    fresh = λ p o. ground (arith, h.fresh p, h.later, nat_beq_iff p t.next);
    later = ground (arith, h.later);
    heap = λ p q. ground (arith, h.heap p, nat_beq_iff p t.next);
  }

  pub Owns-allocate_all :
      (own : ℕ → Bool) (n : ℕ) (t : System N)
      → Owns s own t
      → Owns s (λ p. elem p (allocate_all n t).0 || own p) (allocate_all n t).1
  unfolding allocate_all
  Owns-allocate_all own zero t h = h
  Owns-allocate_all own (suc n) t h =
      let first = allocate t in
      let rest = allocate_all n first.1 in
      Owns-same (λ p. elem p rest.0 || (nat_beq p t.next || own p))
        (λ p. nat_beq p first.0 || elem p rest.0 || own p) rest.1
        (λ p. unfold allocate in ground arith)
        (Owns-allocate_all (λ p. nat_beq p t.next || own p) n first.1 (Owns-allocate own t h))

  pub Owns-receive :
      (own : ℕ → Bool) (out : Option Text) (t : System N)
      → Owns s own t
      → Owns s (λ p. is_block p (receive out t).0 || own p) (receive out t).1
  unfolding receive allocate
  Owns-receive own none t h = h
  Owns-receive own (some text) t h = Owns-allocate own t h

  free_all-next : (ps : List ℕ) (t : System N) → (free_all ps t).1.next ≡ t.next
  unfolding free_all free
  free_all-next [] t = refl
  free_all-next (p ∷ ps) t = free_all-next ps (free p t).1

  -- Blocks that came after `s` are freed.
  pub Owns-free_all :
      (own : ℕ → Bool) (ps : List ℕ) (t : System N)
      → IsHeap s
      → ((p : ℕ) → elem p ps ≡ true → leb s.next p ≡ true)
      → Owns s own t
      → Owns s (λ p. not (elem p ps) && own p) (free_all ps t).1
  Owns-free_all own ps t base mine h = record {
    live = λ p. ground (arith, elem-free_all p ps t, h.live p, mine p, base p);
    fresh = λ p o. ground (arith, h.fresh p);
    later = ground (arith, h.later, free_all-next ps t);
    heap = λ p q. ground (arith, elem-free_all p ps t, h.heap p, free_all-next ps t);
  }

  pub Owns-free :
      (own : ℕ → Bool) (q : ℕ) (t : System N)
      → IsHeap s
      → leb s.next q ≡ true
      → Owns s own t
      → Owns s (λ p. not (nat_beq p q) && own p) (free q t).1
  unfolding free_all
  Owns-free own q t base new h =
      Owns-same (λ p. not (nat_beq p q || false) && own p) (λ p. not (nat_beq p q) && own p)
        (free q t).1 (λ p. ground arith)
        (Owns-free_all own (q ∷ []) t base (λ p e. ground (arith, nat_beq_iff p q)) h)

  -- Where no block is left, the heap is as it was.
  pub Owns-none :
      (own : ℕ → Bool) (t : System N)
      → Owns s own t
      → ((p : ℕ) → own p ≡ false)
      → (p : ℕ) → elem p t.live ≡ elem p s.live
  Owns-none own t h none_left p = ground (arith, h.live p, none_left p)

pub elem-append : (p : ℕ) (ps qs : List ℕ) → elem p (ps ++ qs) ≡ (elem p ps || elem p qs)
elem-append p [] qs = refl
elem-append p (r ∷ ps) qs = ground (arith, elem-append p ps qs)

module _ {N : Type 0} where
  pub receive-none : (out : Option Text) (t : System N) → out ≡ none → (receive out t).0 ≡ none
  unfolding receive
  receive-none out t e = rw e refl

  -- The system behind a block that is freed if there is one.
  unfoldable pub freed : Option Block → System N → System N
  unfolding free
  freed none t = t
  freed (some (q, text)) t = (free q t).1

  -- A string that is received and freed leaves the blocks as they were.
  pub Owns-freed :
      (s : System N) (own : ℕ → Bool) (out : Option Text) (t : System N)
      → IsHeap s
      → Owns s own t
      → Owns s own (freed (receive out t).0 (receive out t).1)
  unfolding receive allocate freed
  Owns-freed s own none t base h = h
  Owns-freed s own (some text) t base h =
      Owns-same s (λ p. not (nat_beq p t.next) && (nat_beq p t.next || own p)) own
        (free t.next (allocate t).1).1
        (λ p. ground (arith, nat_beq_iff p t.next, h.live p, h.heap p))
        (Owns-free s (λ p. nat_beq p t.next || own p) t.next (allocate t).1 base h.later
          (Owns-allocate s own t h))
