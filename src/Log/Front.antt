-- ===== src/Log/Front.antt =====
-- What holds of the front end of lua-log.c whenever the mutex is free.
use quick.Prelude.{ℕ, ◌+◌, ◌≤◌, ◌<◌, ◌≡◌, Option, none, some, List, length, All}
use quick.Log.Heap.{Address, buffer, blank, Heap}
use quick.Log.Cells.{Cells, Linked, list_of, count, count_option, occurs}
use quick.Log.Append.{Front}

-- A spare buffer is blank; it is missing only when a full buffer waits.
abbrev pub SpareOk : Heap → Cells → Option Address → Type 0
SpareOk h full none = 0 < length full
SpareOk h full (some n) = h n ≡ some blank

abbrev pub Fit : ℕ → Cells → Type 0
Fit capacity = All (λ c. length c.1 ≤ capacity)

-- How often the front end holds an address.
abbrev pub front_count : Address → Front → Cells → ℕ
front_count a f full = count a full + occurs a f.curr_buffer + count_option a f.next_buffer

-- `full` are the buffers in the list, `cur` is the content of the current one. The last full
-- buffer already points to the current one.
pub record FrontOk (capacity : ℕ) (h : Heap) (f : Front) (full : Cells) (cur : List ℕ)
    : Type 0 where
  pub list : f.buffers ≡ list_of full
  pub linked : Linked h full (some f.curr_buffer)
  pub current : h f.curr_buffer ≡ some (buffer none cur)
  pub spare : SpareOk h full f.next_buffer
  pub distinct : (a : Address) → front_count a f full ≤ 1
  pub fit : Fit capacity full
  pub fit_current : length cur ≤ capacity
