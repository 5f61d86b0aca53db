-- ===== src/Log/WorkerOrder.antt =====
-- The worker of lua-log.c between its locked and unlocked parts, and `take`.
use quick.Prelude.{
  ℕ, ◌+◌, ◌≤◌, ◌<◌, ◌≡◌, refl, subst, ap, true, Option, none, some, List, [], ◌∷◌, ◌++◌, length,
  arith, ltb, lt→ltb,
}
use quick.Log.Heap.{Address, blank, Heap, empty_list}
use quick.Log.Cells.{
  Cells, Linked, count, count_option, occurs, list_of, Linked-snoc, last-snoc, count-append,
}
use quick.Log.Append.{Front}
use quick.Log.Front.{SpareOk, front_count, FrontOk}
use quick.Log.Appended.{cell, length-snoc}
use quick.Log.Worker.{Worker, start_round, move_current, take_with, take}

-- A buffer that is there and blank.
abbrev pub BlankAt : Heap → Option Address → Type 0
BlankAt h none = ⊥
BlankAt h (some n) = h n ≡ some blank

-- Without a second buffer of its own the worker has two to write, so that it can keep both.
abbrev pub Reserve : Heap → Cells → Option Address → Type 0
Reserve h xs none = 2 ≤ length xs
Reserve h xs (some n) = h n ≡ some blank

abbrev pub worker_count : Address → Worker → Cells → ℕ
worker_count a w writing =
    count a writing + count_option a w.new_buffer1 + count_option a w.new_buffer2

-- At the head of the loop.
pub record Idle (h : Heap) (w : Worker) : Type 0 where
  pub nothing : w.to_write ≡ empty_list
  pub blank1 : BlankAt h w.new_buffer1
  pub blank2 : BlankAt h w.new_buffer2

-- Between `take` and `recycle`.
pub record Busy (h : Heap) (w : Worker) (writing : Cells) : Type 0 where
  pub list : w.to_write ≡ list_of writing
  pub linked : Linked h writing none
  pub given1 : w.new_buffer1 ≡ none
  pub some_left : 1 ≤ length writing
  pub reserve : Reserve h writing w.new_buffer2

BlankAt-some :
    (h : Heap) (o : Option Address)
    → BlankAt h o
    → (n : Address) × (o ≡ some n) × (h n ≡ some blank)
BlankAt-some h none b = absurd b
BlankAt-some h (some n) b = (n, refl, b)

start_round_lem :
    (h : Heap) (w : Worker) (n1 n2 : Address)
    → w.to_write ≡ empty_list
    → w.new_buffer1 ≡ some n1
    → w.new_buffer2 ≡ some n2
    → h n1 ≡ some blank
    → h n2 ≡ some blank
    → start_round w h ≡ some tt
unfolding start_round
start_round_lem h w n1 n2 z e1 e2 b1 b2 = rw (z, e1, e2, b1, b2)

-- Moving the current buffer makes the list one longer; it is linked already.
move_current_lem :
    (f : Front) (full : Cells) (cur : List ℕ)
    → f.buffers ≡ list_of full
    → move_current f ≡ list_of (full ++ cell f.curr_buffer cur)
move_current_lem f [] cur e = rw e
move_current_lem f ((p, d) ∷ xs) cur e =
    rw e (ground (arith, last-snoc xs f.curr_buffer cur (some p), length-snoc xs f.curr_buffer cur))

-- What `take` promises: the worker holds all buffers with content, the front end two blank ones,
-- and no buffer has two holders.
pub record Taken (capacity : ℕ) (h : Heap) (f : Front) (full : Cells) (cur : List ℕ) (f' : Front)
    (w' : Worker) : Type 0 where
  pub front : FrontOk capacity h f' [] []
  pub busy : Busy h w' (full ++ cell f.curr_buffer cur)
  pub apart :
      (a : Address) → front_count a f' [] + worker_count a w' (full ++ cell f.curr_buffer cur) ≤ 1

module _ (capacity : ℕ) (h : Heap) (f : Front) (full : Cells) (cur : List ℕ) (w : Worker)
    (v : FrontOk capacity h f full cur) (i : Idle h w)
    (distinct : (a : Address) → front_count a f full + worker_count a w [] ≤ 1) where
  nonempty : ltb 0 (length (full ++ cell f.curr_buffer cur)) ≡ true
  nonempty = lt→ltb _ _ (omega (arith, length-snoc full f.curr_buffer cur))

  -- Who holds an address before, with each buffer by its name.
  held :
      (n1 n2 : Address) (o : Option Address)
      → w.new_buffer1 ≡ some n1
      → w.new_buffer2 ≡ some n2
      → f.next_buffer ≡ o
      → (a : Address)
      → count a (full ++ cell f.curr_buffer cur) + count_option a o + occurs a n1 + occurs a n2 ≤ 1
  held n1 n2 o e1 e2 e a = omega (
    arith,
    distinct a,
    ap (count_option a) e,
    ap (count_option a) e1,
    ap (count_option a) e2,
    count-append a full (cell f.curr_buffer cur),
  )

  fresh_front :
      (n1 n : Address)
      → h n1 ≡ some blank
      → h n ≡ some blank
      → ((a : Address) → occurs a n1 + occurs a n ≤ 1)
      → FrontOk capacity h
          (record { curr_buffer = n1; next_buffer = some n; buffers = empty_list })
          []
          []
  fresh_front n1 n b1 b d = record {
    list = refl;
    linked = tt;
    current = b1;
    spare = b;
    distinct = λ a. omega (arith, d a);
    fit = tt;
    fit_current = omega arith;
  }

  take_by :
      (n1 n2 : Address) (o : Option Address)
      → w.new_buffer1 ≡ some n1
      → w.new_buffer2 ≡ some n2
      → h n1 ≡ some blank
      → h n2 ≡ some blank
      → f.next_buffer ≡ o
      → (f' : Front) × (w' : Worker) × (take f w h ≡ some (f', w'))
        × Taken capacity h f full cur f' w'
  unfolding take take_with
  take_by n1 n2 (some n) e1 e2 b1 b2 e = (
    record { curr_buffer = n1; next_buffer = some n; buffers = empty_list },
    record {
      to_write = list_of (full ++ cell f.curr_buffer cur);
      new_buffer1 = none;
      new_buffer2 = some n2;
    },
    rw (
      start_round_lem h w n1 n2 i.nothing e1 e2 b1 b2,
      e1,
      move_current_lem f full cur v.list,
      e,
      e2,
      nonempty,
    ),
    record {
      front =
          fresh_front n1 n b1 (subst (SpareOk h full) e v.spare)
            (λ a. omega (arith, held n1 n2 (some n) e1 e2 e a));
      busy = record {
        list = refl;
        linked = Linked-snoc h full none f.curr_buffer cur v.linked v.current;
        given1 = refl;
        some_left = omega (arith, length-snoc full f.curr_buffer cur);
        reserve = b2;
      };
      apart = λ a. omega (arith, held n1 n2 (some n) e1 e2 e a);
    },
  )
  take_by n1 n2 none e1 e2 b1 b2 e =
      let waiting : 0 < length full = subst (SpareOk h full) e v.spare in
      (
        record { curr_buffer = n1; next_buffer = some n2; buffers = empty_list },
        record {
          to_write = list_of (full ++ cell f.curr_buffer cur);
          new_buffer1 = none;
          new_buffer2 = none;
        },
        rw (
          start_round_lem h w n1 n2 i.nothing e1 e2 b1 b2,
          e1,
          move_current_lem f full cur v.list,
          e,
          e2,
          nonempty,
        ),
        record {
          front = fresh_front n1 n2 b1 b2 (λ a. omega (arith, held n1 n2 none e1 e2 e a));
          busy = record {
            list = refl;
            linked = Linked-snoc h full none f.curr_buffer cur v.linked v.current;
            given1 = refl;
            some_left = omega (arith, length-snoc full f.curr_buffer cur);
            reserve = omega (arith, length-snoc full f.curr_buffer cur);
          };
          apart = λ a. omega (arith, held n1 n2 none e1 e2 e a);
        },
      )

  -- The locked part of a round never faults: the worker gets all full buffers and the current
  -- one, in order, and the front end goes on with two blank ones; no buffer has two holders.
  pub take-Taken :
      (f' : Front) × (w' : Worker) × (take f w h ≡ some (f', w'))
      × Taken capacity h f full cur f' w'
  take-Taken =
      let (n1, e1, b1) = BlankAt-some h w.new_buffer1 i.blank1 in
      let (n2, e2, b2) = BlankAt-some h w.new_buffer2 i.blank2 in
      take_by n1 n2 f.next_buffer e1 e2 b1 b2 refl
