-- ===== src/Log/Append.antt =====
-- `append` of lua-log.c, which runs with the mutex held. `capacity` is LOG_BUFFER_SIZE, and
-- `fresh` the address that `calloc` returns if the call needs a buffer.
use quick.Prelude.{ℕ, ◌+◌, Option, none, some, List, ◌++◌, ltb, if◌then◌else◌, length}
use quick.Log.Heap.{Address, buffer, blank, Heap, write, BufferList, ◌>>=◌, ◌>>◌, assert, is_null}

-- The part of `inst` that the mutex guards.
pub record Front : Type 0 where
  pub curr_buffer : Address
  pub next_buffer : Option Address
  pub buffers : BufferList

abbrev pub log_buffer_size : ℕ
log_buffer_size = 4194304

-- `memcpy` behind the bytes in use of the current buffer.
unfoldable pub copy_line : List ℕ → Front → Heap → Option (Front × Heap)
copy_line line f h = do
  c ← h f.curr_buffer
  some (f, write h f.curr_buffer (some (buffer c.next (c.data_used ++ line))))

-- `p->next = q`
unfoldable pub set_next : Address → Option Address → Heap → Option Heap
set_next p q h = do c ← h p; some (write h p (some (buffer q c.data_used)))

-- The current buffer becomes the last of the list.
abbrev pub link_tail : Address → Option Address → Heap → Option Heap
link_tail curr none h = none
link_tail curr (some t) h = set_next t (some curr) h

unfoldable pub push_full : Front → Heap → Option (BufferList × Heap)
unfolding set_next
push_full f h = elim (f.buffers.head) [
  | none ↦ do
    assert (is_null f.buffers.tail)
    some (
      record { head = some f.curr_buffer; tail = some f.curr_buffer; size = f.buffers.size + 1 },
      h,
    )
  | some first ↦ do
    h' ← link_tail f.curr_buffer f.buffers.tail h
    some (record { head = some first; tail = some f.curr_buffer; size = f.buffers.size + 1 }, h')
]

-- `assert(inst.buffers.tail->next == NULL)`
unfoldable pub assert_last : Address → Heap → Option (Unit {0})
assert_last p h = do c ← h p; assert (is_null c.next)

-- The spare buffer, or a new one, becomes the current buffer.
unfoldable pub advance_buffer : Address → BufferList → Front → Heap → Option (Front × Heap)
unfolding set_next
advance_buffer fresh list f h = elim (f.next_buffer) [
  | some n ↦ do
    h' ← set_next f.curr_buffer (some n) h
    some (record { curr_buffer = n; next_buffer = none; buffers = list }, h')
  | none ↦ do
    h' ← set_next f.curr_buffer (some fresh) (write h fresh (some blank))
    some (record { curr_buffer = fresh; next_buffer = none; buffers = list }, h')
]

module _ (capacity : ℕ) (fresh : Address) where
  unfoldable pub append_full : List ℕ → Front → Heap → Option (Front × Heap)
  append_full line f h = do
    (list, h') ← push_full f h
    assert_last f.curr_buffer h'
    (f', h'') ← advance_buffer fresh list f h'
    copy_line line f' h''

  unfoldable pub append : List ℕ → Front → Heap → Option (Front × Heap)
  append line f h = do
    c ← h f.curr_buffer
    if ltb (length c.data_used + length line) capacity
        then copy_line line f h
        else append_full line f h
