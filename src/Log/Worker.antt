-- ===== src/Log/Worker.antt =====
-- `worker_func` of lua-log.c, cut where the mutex is taken and released: `take` is the locked
-- part of a round, `drop_excess`, `flush` and `recycle` are what follows it. Loops over a list
-- run on fuel, and null pointers and failing assertions are faults.
use quick.Prelude.{
  ℕ, zero, suc, ◌+◌, ◌-◌, Bool, true, false, Option, none, some, List, ◌++◌, ltb, ◌==◌,
  if◌then◌else◌, length,
}
use quick.Log.Heap.{
  Address, blank, Heap, write, BufferList, empty_list, ◌>>=◌, ◌>>◌, assert, is_null,
}
use quick.Log.Roll.{Roll, Handle, null, standard, file, System, Rolled, rolled, rollfile}
use quick.Log.Append.{Front, set_next, append}

-- The worker's local variables.
pub record Worker : Type 0 where
  pub to_write : BufferList
  pub new_buffer1 : Option Address
  pub new_buffer2 : Option Address

-- `assert(new_buffer->size == 0)`
unfoldable pub assert_blank : Option Address → Heap → Option (Unit {0})
assert_blank none h = none
assert_blank (some p) h = do c ← h p; assert (length c.data_used == 0)

unfoldable pub start_round : Worker → Heap → Option (Unit {0})
unfolding assert_blank
start_round w h = do
  assert (is_null w.to_write.head)
  assert_blank w.new_buffer1 h
  assert_blank w.new_buffer2 h

-- The current buffer goes to the end of the list: only `tail` is set, since `append` has linked it.
abbrev pub move_current : Front → BufferList
move_current f = elim (f.buffers.head) [
  | none ↦ record {
    head = some f.curr_buffer;
    tail = some f.curr_buffer;
    size = f.buffers.size + 1;
  }
  | some first ↦ record { head = some first; tail = some f.curr_buffer; size = f.buffers.size + 1 }
]

-- The spare that the front end keeps, or the worker's second buffer if it has none.
abbrev pub refill : Option Address → Option Address → Option Address × Option Address
refill none new2 = (new2, none)
refill (some n) new2 = (some n, new2)

-- A null `new_buffer1` cannot become the current buffer.
unfoldable pub take_with : Address → Front → Worker → Front × Worker
take_with new1 f w =
    let (next, new2) = refill f.next_buffer w.new_buffer2 in
    (
      record { curr_buffer = new1; next_buffer = next; buffers = empty_list },
      record { to_write = move_current f; new_buffer1 = none; new_buffer2 = new2 },
    )

unfoldable pub take : Front → Worker → Heap → Option (Front × Worker)
unfolding start_round
take f w h = do
  start_round w h
  new1 ← w.new_buffer1
  assert (ltb 0 (move_current f).size)
  some (take_with new1 f w)

-- `while (node != NULL) { p = node; node = node->next; free(p); }`
unfoldable pub free_chain : ℕ → Option Address → Heap → Option Heap
free_chain fuel none h = some h
free_chain zero (some p) h = none
free_chain (suc fuel) (some p) h = do c ← h p; free_chain fuel c.next (write h p none)

-- More than 25 buffers: a notice is logged, and all but the first two are freed.
unfoldable pub keep_two : BufferList → Heap → Option (BufferList × Heap)
keep_two list h = do
  first ← list.head
  c ← h first
  new_tail ← c.next
  t ← h new_tail
  h' ← free_chain list.size t.next h
  h'' ← set_next new_tail none h'
  some (record { head = some first; tail = some new_tail; size = 2 }, h'')

module _ (capacity : ℕ) (fresh : Address) (notice : List ℕ) where
  unfoldable pub drop_excess : Front → Worker → Heap → Option (Front × Worker × Heap)
  unfolding keep_two
  drop_excess f w h = elim (ltb 25 w.to_write.size) [
    | false ↦ some (f, w, h)
    | true ↦ do
      (f', h') ← append capacity fresh notice f h
      (list, h'') ← keep_two w.to_write h'
      some (f', record w { to_write = list }, h'')
  ]

abbrev pub has_handle : Handle → Bool
has_handle null = false
has_handle standard = true
has_handle (file date index) = true

-- What `fwrite` adds to the log, and the count of it.
abbrev pub emit : List ℕ → Roll → List ℕ → Roll × List ℕ
emit bytes r out =
    if has_handle r.handle
    then (record r { written_bytes = r.written_bytes + length bytes }, out ++ bytes)
    else (r, out)

unfoldable pub write_chain : ℕ → Option Address → Heap → Roll → List ℕ → Option (Roll × List ℕ)
write_chain fuel none h r out = some (r, out)
write_chain zero (some p) h r out = none
write_chain (suc fuel) (some p) h r out = do
  c ← h p
  write_chain fuel c.next h (emit c.data_used r out).0 (emit c.data_used r out).1

unfoldable pub flush : Worker → Heap → Roll → List ℕ → Option (Roll × List ℕ)
unfolding write_chain
flush w h r out = write_chain w.to_write.size w.to_write.head h r out

-- After the loop, and on a new day, the file is rolled.
unfoldable pub roll_when : Bool → ℕ → System → Roll → Rolled
roll_when due fuel sys r = if due then rollfile fuel sys r else rolled r

abbrev pub too_large : Roll → Bool
too_large r = ltb r.rollsize r.written_bytes

abbrev pub new_day : System → Roll → Bool
new_day sys r = if r.roll_mday == sys.mday then false else true

-- `new_buffer = head; head = head->next; memset(new_buffer, 0, …); size -= 1;` if it is null.
unfoldable pub recycle_one :
    Option Address → BufferList → Heap → Option (Option Address × BufferList × Heap)
recycle_one (some n) list h = some (some n, list, h)
recycle_one none list h = do
  assert (ltb 0 list.size)
  p ← list.head
  c ← h p
  some (some p, record list { head = c.next; size = list.size - 1 }, write h p (some blank))

unfoldable pub recycle : Worker → Heap → Option (Worker × Heap)
unfolding recycle_one free_chain
recycle w h = do
  (new1, list1, h1) ← recycle_one w.new_buffer1 w.to_write h
  (new2, list2, h2) ← recycle_one w.new_buffer2 list1 h1
  h3 ← free_chain list2.size list2.head h2
  some (record { to_write = empty_list; new_buffer1 = new1; new_buffer2 = new2 }, h3)
