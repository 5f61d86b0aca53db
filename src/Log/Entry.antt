-- ===== src/Log/Entry.antt =====
-- The Lua functions of lua-log.c: `init` sets the logger up, and `debug`, `info`, `warning`,
-- `error` and `fatal` format a line and hand it to `append`.
use quick.Prelude.{
  ◌-◌, ◌+◌, ◌^◌, ◌&&◌, ltb, ◌%◌, c_string, ℕ, ◌*◌, Bool, true, Option, none, some, List, [], ◌∷◌,
  ◌++◌, if◌then◌else◌, take, codes,
}
use quick.Prelude.Int.{negsuc, ℤ, pos, leb_ℤ, ltb_ℤ, pos_part}
use quick.Log.Heap.{Address, Heap, write, blank, empty_list}
use quick.Log.Roll.{Roll, null, System, rollfile}
use quick.Log.Logger.{Logger, idle, Outcome, running, on_rolled}

-- `enum logger_level`; the functions are named after the levels.
pub data Level : Type 0 where
  debug info warning error fatal : Level

abbrev pub level_debug : ℤ
level_debug = pos 0

abbrev pub level_info : ℤ
level_info = pos 1

abbrev pub log_max : ℕ
log_max = 4096

abbrev pub prefix : Level → List ℕ
prefix debug = codes "[DEBUG] "
prefix info = codes "[INFO] "
prefix warning = codes "[WARNING] "
prefix error = codes "[ERROR] "
prefix fatal = codes "[FATAL] "

-- `snprintf` into `char msg[LOG_MAX]`, which keeps room for the NUL.
unfoldable pub message : Level → List ℕ → List ℕ
message level text = take 4095 (prefix level ++ (c_string text ++ (10 ∷ [])))

-- Only `debug` and `info` look at the level that is set.
abbrev pub enabled : ℤ → Level → Bool
enabled loglevel debug = leb_ℤ loglevel level_debug
enabled loglevel info = leb_ℤ loglevel level_info
enabled loglevel warning = true
enabled loglevel error = true
enabled loglevel fatal = true

-- What a call appends, if anything; an argument that is no string is ignored.
unfoldable pub submit : ℤ → Level → Option (List ℕ) → Option (List ℕ)
submit loglevel level none = none
submit loglevel level (some text) =
    if enabled loglevel level then some (message level text) else none

-- The 32 bits of an integer from Lua that is stored in an `int`.
abbrev pub low32 : ℤ → ℕ
low32 (pos n) = n % 2 ^ 32
low32 (negsuc n) = 2 ^ 32 - 1 - n % 2 ^ 32

-- Whether those bits are an `int` above 0.
abbrev pub is_positive : ℕ → Bool
is_positive m = ltb 0 m && ltb m (2 ^ 31)

-- The 32 bits of an `int` as the `size_t` that they become next to `written_bytes`.
abbrev pub extend64 : ℕ → ℕ
extend64 m = if ltb m (2 ^ 31) then m else m + 2 ^ 64 - 2 ^ 32

-- `inst.rollsize > 0 ? inst.rollsize * ONE_MB : DEFAULT_ROLL_SIZE` in an `int`, with the product
-- wrapped around at 32 bits, as it is compared with `written_bytes`.
unfoldable pub roll_size : ℤ → ℕ
roll_size size =
    let m = low32 size in extend64 (if is_positive m then m * 1048576 % 2 ^ 32 else 1073741824)

unfoldable pub flush_interval : ℤ → ℕ
flush_interval seconds = if ltb_ℤ (pos 0) seconds then pos_part seconds else 5

-- `linit` and the head of `worker_func`: four blank buffers, then the first `rollfile`.
module _ (curr next new1 new2 : Address) where
  unfoldable pub start_heap : Heap
  start_heap =
      write
        (write (write (write (λ _. none) curr (some blank)) next (some blank)) new1 (some blank))
        new2 (some blank)

  unfoldable pub start_logger : Roll → Logger
  start_logger r = record {
    front = record { curr_buffer = curr; next_buffer = some next; buffers = empty_list };
    worker = record { to_write = empty_list; new_buffer1 = some new1; new_buffer2 = some new2 };
    heap = start_heap;
    roll = r;
    output = [];
    phase = idle;
  }

  unfoldable pub linit : ℕ → System → ℤ → Outcome
  linit fuel sys size =
      on_rolled
        (rollfile fuel sys
          (record { handle = null; rollsize = roll_size size; written_bytes = 0; roll_mday = 0 }))
        λ r. running (start_logger r)
