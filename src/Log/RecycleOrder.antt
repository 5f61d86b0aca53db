-- ===== src/Log/RecycleOrder.antt =====
-- The end of a round of `worker_func` in lua-log.c, where buffers are kept and freed.
use quick.Prelude.{
  ℕ, suc, ◌+◌, ◌-◌, ◌≤◌, ◌<◌, ◌≡◌, refl, ap, ◌∙◌, Option, none, some, List, [], ◌∷◌, length, arith,
  lt→ltb,
}
use quick.Log.Heap.{Address, Buffer, buffer, blank, Heap, write, BufferList, empty_list}
use quick.Log.Cells.{
  Cells, Linked, first, count, count_option, occurs, occurs_sym, occurs_self, write_self,
  write_other, Linked-write, list_of,
}
use quick.Log.Chains.{free_chain_lem}
use quick.Log.Worker.{Worker, free_chain, recycle_one, recycle}
use quick.Log.WorkerOrder.{Idle, Busy, Reserve, worker_count}

-- What `recycle` promises: the worker is ready for its next round, the buffers that it does not
-- keep are freed, and nobody else's are touched.
pub record Recycled (h : Heap) (w : Worker) (writing : Cells) (w' : Worker) (h' : Heap)
    : Type 0 where
  pub idle : Idle h' w'
  pub counts : (a : Address) → worker_count a w' [] ≤ worker_count a w writing
  pub freed : (a : Address) → 1 ≤ count a writing → worker_count a w' [] ≡ 0 → h' a ≡ none
  pub frame : (a : Address) → worker_count a w writing ≡ 0 → h' a ≡ h a

abbrev without_head : Option Address → BufferList → BufferList
without_head next list = record list { head = next; size = list.size - 1 }

recycle_given :
    (n : Address) (list : BufferList) (h : Heap)
    → recycle_one (some n) list h ≡ some (some n, list, h)
unfolding recycle_one
recycle_given n list h = refl

recycle_head :
    (p : Address) (c : Buffer) (list : BufferList) (h : Heap)
    → 0 < list.size
    → list.head ≡ some p
    → h p ≡ some c
    → recycle_one none list h
      ≡ some (some p, record list { head = c.next; size = list.size - 1 }, write h p (some blank))
unfolding recycle_one
recycle_head p c list h pos e f = rw (lt→ltb 0 list.size pos, e, f)

recycle_steps :
    (w : Worker) (h h1 h2 g : Heap) (n1 n2 : Option Address) (list1 list2 : BufferList)
    → recycle_one w.new_buffer1 w.to_write h ≡ some (n1, list1, h1)
    → recycle_one w.new_buffer2 list1 h1 ≡ some (n2, list2, h2)
    → free_chain list2.size list2.head h2 ≡ some g
    → recycle w h ≡ some (record { to_write = empty_list; new_buffer1 = n1; new_buffer2 = n2 }, g)
unfolding recycle
recycle_steps w h h1 h2 g n1 n2 list1 list2 e1 e2 e3 = rw (e1, e2, e3)

module _ (h : Heap) (w : Worker) (given1 : w.new_buffer1 ≡ none) where
  recycle_one_kept :
      (p n : Address) (d : List ℕ) (xs : Cells)
      → w.to_write ≡ list_of ((p, d) ∷ xs)
      → Linked h ((p, d) ∷ xs) none
      → w.new_buffer2 ≡ some n
      → h n ≡ some blank
      → ((a : Address) → worker_count a w ((p, d) ∷ xs) ≤ 1)
      → (w' : Worker) × (h' : Heap) × (recycle w h ≡ some (w', h'))
        × Recycled h w ((p, d) ∷ xs) w' h'
  recycle_one_kept p n d xs e l e2 b apart =
      let own : (a : Address) → occurs a p + count a xs + occurs a n ≤ 1 =
        λ a. omega (arith, apart a, ap (count_option a) given1, ap (count_option a) e2) in
      let h1 : Heap = write h p (some blank) in
      let r =
        free_chain_lem (suc (length xs) - 1) xs h1
          (Linked-write h xs none p _ (omega (arith, own p, occurs_self p)) l.1)
          (λ a. omega (arith, own a)) (omega arith) in
      (
        record { to_write = empty_list; new_buffer1 = some p; new_buffer2 = some n },
        r.0,
        recycle_steps w h h1 h1 r.0 (some p) (some n)
            (without_head (first xs none) (list_of ((p, d) ∷ xs)))
            (without_head (first xs none) (list_of ((p, d) ∷ xs)))
            (rw (given1, e)
              (recycle_head p (buffer (first xs none) d) (list_of ((p, d) ∷ xs)) h (omega arith)
                refl l.0))
            (rw e2 (recycle_given n _ h1)) r.1,
        record {
          idle = record {
            nothing = refl;
            blank1 = r.2.kept p (omega (arith, own p, occurs_self p)) ∙ write_self h p _;
            blank2 =
                r.2.kept n (omega (arith, own n, occurs_self n))
                ∙ write_other h p n _ (omega (arith, own n, occurs_self n, occurs_sym n p))
                ∙ b;
          };
          counts = λ a. omega (arith, ap (count_option a) given1, ap (count_option a) e2);
          freed = λ a m z. r.2.gone a (omega arith);
          frame =
              λ a z. r.2.kept a (omega arith) ∙ write_other h p a _ (omega (arith, occurs_sym p a));
        },
      )

  -- Both buffers come from the chain.
  recycle_two_kept :
      (p q : Address) (c d : List ℕ) (xs : Cells)
      → w.to_write ≡ list_of ((p, d) ∷ (q, c) ∷ xs)
      → Linked h ((p, d) ∷ (q, c) ∷ xs) none
      → w.new_buffer2 ≡ none
      → ((a : Address) → worker_count a w ((p, d) ∷ (q, c) ∷ xs) ≤ 1)
      → (w' : Worker) × (h' : Heap) × (recycle w h ≡ some (w', h'))
        × Recycled h w ((p, d) ∷ (q, c) ∷ xs) w' h'
  recycle_two_kept p q c d xs e l e2 apart =
      let own : (a : Address) → occurs a p + occurs a q + count a xs ≤ 1 =
        λ a. omega (arith, apart a, ap (count_option a) given1, ap (count_option a) e2) in
      let h1 : Heap = write h p (some blank) in
      let h2 : Heap = write h1 q (some blank) in
      let r =
        free_chain_lem (suc (suc (length xs)) - 1 - 1) xs h2
          (Linked-write h1 xs none q _ (omega (arith, own q, occurs_self q))
            (Linked-write h xs none p _ (omega (arith, own p, occurs_self p)) l.1.1))
          (λ a. omega (arith, own a)) (omega arith) in
      (
        record { to_write = empty_list; new_buffer1 = some p; new_buffer2 = some q },
        r.0,
        recycle_steps w h h1 h2 r.0 (some p) (some q)
            (without_head (some q) (list_of ((p, d) ∷ (q, c) ∷ xs)))
            (without_head (first xs none) (without_head (some q) (list_of ((p, d) ∷ (q, c) ∷ xs))))
            (rw (given1, e)
              (recycle_head p (buffer (some q) d) (list_of ((p, d) ∷ (q, c) ∷ xs)) h (omega arith)
                refl l.0))
            (rw e2 (
              recycle_head q (buffer (first xs none) c) _ h1 (omega arith) refl (
                write_other h p q _ (omega (arith, own q, occurs_self q, occurs_sym p q)) ∙ l.1.0)))
            r.1,
        record {
          idle = record {
            nothing = refl;
            blank1 =
                r.2.kept p (omega (arith, own p, occurs_self p))
                ∙ write_other h1 q p _ (omega (arith, own p, occurs_self p, occurs_sym p q))
                ∙ write_self h p _;
            blank2 = r.2.kept q (omega (arith, own q, occurs_self q)) ∙ write_self h1 q _;
          };
          counts = λ a. omega (arith, ap (count_option a) given1, ap (count_option a) e2);
          freed = λ a m z. r.2.gone a (omega arith);
          frame = λ a z.
              r.2.kept a (omega arith)
              ∙ write_other h1 q a _ (omega (arith, occurs_sym q a))
              ∙ write_other h p a _ (omega (arith, occurs_sym p a));
        },
      )

  recycle_by :
      (writing : Cells) (o : Option Address)
      → w.to_write ≡ list_of writing
      → Linked h writing none
      → 1 ≤ length writing
      → w.new_buffer2 ≡ o
      → Reserve h writing o
      → ((a : Address) → worker_count a w writing ≤ 1)
      → (w' : Worker) × (h' : Heap) × (recycle w h ≡ some (w', h')) × Recycled h w writing w' h'
  recycle_by [] o e l pos e2 r d = absurd (omega arith)
  recycle_by ((p, c) ∷ xs) (some n) e l pos e2 r d = recycle_one_kept p n c xs e l e2 r d
  recycle_by ((p, c) ∷ []) none e l pos e2 r d = absurd (omega arith)
  recycle_by ((p, c) ∷ (q, b) ∷ xs) none e l pos e2 r d = recycle_two_kept p q b c xs e l e2 d

-- `recycle` never faults: its assertions hold, it finds the buffers that it keeps, and frees each
-- of the others once.
pub recycle-Recycled :
    (h : Heap) (w : Worker) (writing : Cells)
    → Busy h w writing
    → ((a : Address) → worker_count a w writing ≤ 1)
    → (w' : Worker) × (h' : Heap) × (recycle w h ≡ some (w', h')) × Recycled h w writing w' h'
recycle-Recycled h w writing b d =
    recycle_by h w b.given1 writing w.new_buffer2 b.list b.linked b.some_left refl b.reserve d
