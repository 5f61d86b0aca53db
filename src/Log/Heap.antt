-- ===== src/Log/Heap.antt =====
-- `struct buffer`, `struct buffer_list` and the memory that holds the buffers. A buffer's `data`
-- are the bytes in use, so `size` is their number. An address with no buffer is not allocated:
-- using it is a fault, and so is an assertion that fails.
pub use quick.Prelude.{◌>>=◌, ◌>>◌, assert}
use quick.Prelude.{ℕ, Bool, true, false, Option, none, some, List, [], ◌==◌, if◌then◌else◌}

abbrev pub Address : Type 0
Address = ℕ

pub record Buffer : Type 0 where
  pub next : Option Address
  pub data_used : List ℕ

abbrev pub buffer : Option Address → List ℕ → Buffer
buffer next bytes = record { next = next; data_used = bytes }

-- A buffer as `calloc` or `memset` leaves it.
abbrev pub blank : Buffer
blank = buffer none []

abbrev pub Heap : Type 0
Heap = Address → Option Buffer

-- `write h p none` is `free(p)`.
unfoldable pub write : Heap → Address → Option Buffer → Heap
write h p cell q = if q == p then cell else h q

pub record BufferList : Type 0 where
  pub head : Option Address
  pub tail : Option Address
  pub size : ℕ

abbrev pub empty_list : BufferList
empty_list = record { head = none; tail = none; size = 0 }

abbrev pub is_null : Option Address → Bool
is_null none = true
is_null (some p) = false
