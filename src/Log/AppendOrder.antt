-- ===== src/Log/AppendOrder.antt =====
-- `append` of lua-log.c on each of its three branches.
use mathlib.Core.Path.{fun_ext}
use quick.Prelude.{
  ℕ, ◌+◌, ◌≤◌, ◌<◌, ◌≡◌, refl, sym, subst, ap, ◌∙◌, inl, inr, Option, none, some, List, [], ◌∷◌,
  ◌++◌, length, length-append, arith, ltb, Bool-cases, append_assoc,
}
use quick.Log.Heap.{Address, Buffer, buffer, blank, Heap, write, BufferList}
use quick.Log.Cells.{
  Cells, Linked, list_of, last, count, count_option, occurs, contents, occurs_sym, occurs-cases,
  occurs_self, write_self, write_other, Linked-write, count_fresh, occurs_fresh, last-snoc,
}
use quick.Log.Append.{
  Front, copy_line, set_next, link_tail, push_full, assert_last, advance_buffer, append_full,
  append,
}
use quick.Log.Front.{SpareOk, FrontOk}
use quick.Log.Appended.{cell, length-snoc, Appended, moved, behind, moved-Appended}

-- Writing what is there already changes nothing.
write_same : (h : Heap) (p : Address) (c : Option Buffer) → h p ≡ c → write h p c ≡ h
unfolding write
write_same h p c e = fun_ext λ q. ground arith

link_tail_lem :
    (h : Heap) (c : Address × List ℕ) (xs : Cells) (curr : Address) (start : Option Address)
    → Linked h (c ∷ xs) (some curr)
    → link_tail curr (last (c ∷ xs) start) h ≡ some h
unfolding set_next
link_tail_lem h (p, d) [] curr start l =
    rw l.0 (ap some (write_same h p (some (buffer (some curr) d)) l.0))
link_tail_lem h (p, d) (x ∷ xs) curr start l = link_tail_lem h x xs curr (some p) l.1

-- Pushing the current buffer only changes the list.
push_full_lem :
    (h : Heap) (f : Front) (full : Cells) (cur : List ℕ)
    → f.buffers ≡ list_of full
    → Linked h full (some f.curr_buffer)
    → push_full f h ≡ some (list_of (full ++ cell f.curr_buffer cur), h)
unfolding push_full
push_full_lem h f [] cur e l = rw e
push_full_lem h f ((p, d) ∷ xs) cur e l =
    rw (e, link_tail_lem h (p, d) xs f.curr_buffer none l)
      (ground (arith, last-snoc xs f.curr_buffer cur (some p), length-snoc xs f.curr_buffer cur))

copy_blank :
    (h : Heap) (line : List ℕ) (f : Front)
    → h f.curr_buffer ≡ some blank
    → copy_line line f h ≡ some (f, write h f.curr_buffer (some (buffer none line)))
unfolding copy_line
copy_blank h line f e = rw e

module _ (h : Heap) (f : Front) (cur line : List ℕ) (list : BufferList)
    (current : h f.curr_buffer ≡ some (buffer none cur)) where
  advance_spare :
      (fresh n : Address)
      → f.next_buffer ≡ some n
      → advance_buffer fresh list f h
        ≡ some (
          record { curr_buffer = n; next_buffer = none; buffers = list },
          write h f.curr_buffer (some (buffer (some n) cur)),
        )
  unfolding advance_buffer
  advance_spare fresh n e = rw (e, current)

  advance_fresh :
      (fresh : Address)
      → f.next_buffer ≡ none
      → occurs fresh f.curr_buffer ≡ 0
      → advance_buffer fresh list f h
        ≡ some (
          record { curr_buffer = fresh; next_buffer = none; buffers = list },
          write (write h fresh (some blank)) f.curr_buffer (some (buffer (some fresh) cur)),
        )
  unfolding advance_buffer
  advance_fresh fresh e apart =
      rw (e, write_other h fresh f.curr_buffer (some blank) apart ∙ current)

  assert_last_lem : assert_last f.curr_buffer h ≡ some tt
  unfolding assert_last
  assert_last_lem = rw current

-- A call of `append` that does not fault and keeps that promise.
abbrev pub AppendResult :
    ℕ → Address → List ℕ → Heap → Front → Cells → List ℕ → Option (Front × Heap) → Type 0
AppendResult capacity fresh line h f full cur r =
    (f' : Front) × (h' : Heap) × (r ≡ some (f', h'))
    × Appended capacity fresh line h f full cur f' h'

-- A full current buffer: the line goes to the spare buffer, or to a fresh one.
module _ (capacity : ℕ) (h : Heap) (f : Front) (full : Cells) (cur line : List ℕ) (fresh : Address)
    (v : FrontOk capacity h f full cur) (unused : h fresh ≡ none)
    (fit_line : length line ≤ capacity) where
  append_spare :
      (n : Address)
      → f.next_buffer ≡ some n
      → AppendResult capacity fresh line h f full cur (append_full capacity fresh line f h)
  unfolding append_full
  append_spare n e =
      let blank_n : h n ≡ some blank = subst (SpareOk h full) e v.spare in
      let apart : (a : Address) → count a full + occurs a f.curr_buffer + occurs a n ≤ 1 = λ a.
        subst (λ o. count a full + occurs a f.curr_buffer + count_option a o ≤ 1) e
          (v.distinct a) in
      (
        behind f full cur n,
        moved h f.curr_buffer cur n line,
        rw
            (
              push_full_lem h f full cur v.list v.linked,
              assert_last_lem h f cur line (list_of full) v.current,
              advance_spare h f cur line (list_of (full ++ cell f.curr_buffer cur)) v.current fresh
                  n e,
            )
            (copy_blank _ line (behind f full cur n) (
              write_other h f.curr_buffer n _
                (omega (arith, apart n, occurs_self n, occurs_sym f.curr_buffer n))
              ∙ blank_n)),
        moved-Appended capacity h f full cur line n v.linked apart v.fit v.fit_current fit_line h
            fresh (λ a new. refl) (λ a. ap_le a),
      )
    where
      ap_le : (a : Address) → occurs a n ≤ count_option a f.next_buffer + occurs a fresh
      ap_le a = rw e (omega arith)

  append_fresh :
      f.next_buffer ≡ none
      → AppendResult capacity fresh line h f full cur (append_full capacity fresh line f h)
  unfolding append_full
  append_fresh e =
      let off_full : count fresh full ≡ 0 = count_fresh h full _ fresh unused v.linked in
      let off_curr : occurs fresh f.curr_buffer ≡ 0 =
        occurs_fresh h fresh f.curr_buffer _ unused v.current in
      let h1 : Heap = write h fresh (some blank) in
      (
        behind f full cur fresh,
        moved h1 f.curr_buffer cur fresh line,
        rw
            (
              push_full_lem h f full cur v.list v.linked,
              assert_last_lem h f cur line (list_of full) v.current,
              advance_fresh h f cur line (list_of (full ++ cell f.curr_buffer cur)) v.current fresh
                  e off_curr,
            )
            (copy_blank _ line (behind f full cur fresh) (
              write_other h1 f.curr_buffer fresh _ (omega (arith, occurs_sym f.curr_buffer fresh))
              ∙ write_self h fresh _)),
        moved-Appended capacity h1 f full cur line fresh
            (Linked-write h full _ fresh _ off_full v.linked) (apart off_full off_curr) v.fit
            v.fit_current fit_line h fresh
            (λ a new. write_other h fresh a _ (omega (arith, occurs_sym fresh a)))
            (λ a. omega arith),
      )
    where
      apart :
          count fresh full ≡ 0
          → occurs fresh f.curr_buffer ≡ 0
          → (a : Address) → count a full + occurs a f.curr_buffer + occurs a fresh ≤ 1
      apart off_full off_curr a = elim (occurs-cases a fresh) [
        | inl other ↦ omega (arith, v.distinct a)
        | inr same ↦ rw same (omega (arith, occurs_self fresh))
      ]

  append_room :
      length cur + length line < capacity
      → (copied : Heap) × (copy_line line f h ≡ some (f, copied))
        × Appended capacity fresh line h f full cur f copied
  unfolding copy_line
  append_room room = (
    write h f.curr_buffer (some (buffer none (cur ++ line))),
    rw v.current,
    record {
      full' = full;
      cur' = cur ++ line;
      ok = record {
        list = v.list;
        linked = Linked-write h full _ f.curr_buffer _ (omega (arith, own)) v.linked;
        current = write_self h f.curr_buffer _;
        spare = spare_write f.next_buffer v.spare (omega (arith, own));
        distinct = v.distinct;
        fit = v.fit;
        fit_current = omega (arith, length-append cur line);
      };
      order = sym (append_assoc (contents full) cur line);
      counts = λ a. omega arith;
      frame =
          λ a mine new. write_other h f.curr_buffer a _ (omega (arith, occurs_sym f.curr_buffer a));
    },
  )
    where
      own : count f.curr_buffer full + 1 + count_option f.curr_buffer f.next_buffer ≤ 1
      own = omega (arith, v.distinct f.curr_buffer, occurs_self f.curr_buffer)

      spare_write :
          (o : Option Address)
          → SpareOk h full o
          → count_option f.curr_buffer o ≡ 0
          → SpareOk (write h f.curr_buffer (some (buffer none (cur ++ line)))) full o
      spare_write none s z = s
      spare_write (some n) s z = write_other h f.curr_buffer n _ z ∙ s

  -- `append` never faults. The line comes behind all that was logged before, the front end stays
  -- in order with every buffer within its capacity, and no other address is touched. Asked of the
  -- call: a front end in order, a fresh address that is unused, a line no longer than a buffer.
  pub append-Appended :
      AppendResult capacity fresh line h f full cur (append capacity fresh line f h)
  unfolding append
  append-Appended = elim (Bool-cases (ltb (length cur + length line) capacity)) [
    | inl room ↦ let r = append_room (ground arith) in (f, r.0, rw (v.current, room) r.1, r.2)
    | inr full ↦ let r = next f.next_buffer refl in (r.0, r.1, rw (v.current, full) r.2, r.3)
  ]
    where
      next :
          (o : Option Address)
          → f.next_buffer ≡ o
          → AppendResult capacity fresh line h f full cur (append_full capacity fresh line f h)
      next none e = append_fresh e
      next (some n) e = append_spare n e
