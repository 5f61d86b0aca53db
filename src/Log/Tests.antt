-- ===== src/Log/Tests.antt =====
-- The logger of lua-log.c at small inputs: buffers of four bytes.
use quick.Prelude.{◌≡◌, refl, true, none, some, List, [], ◌∷◌, ◌++◌, arith}
use quick.Prelude.Int.{pos}
use quick.Log.Heap.{empty_list, Heap, write, blank, buffer}
use quick.Log.Cells.{Cells, list_of}
use quick.Log.WorkerOrder.{Idle, Taken, take-Taken}
use quick.Log.RecycleOrder.{Recycled, recycle-Recycled}
use quick.Log.Roll.{open_from, Roll, System, present, file, rollfile, rolled}
use quick.Log.RollIndex.{rollfile-RolledOk, RolledOk, rollfile_index, at_index}
use quick.Log.Append.{Front, append, copy_line, append_full, push_full, assert_last, advance_buffer}
use quick.Log.AppendOrder.{AppendResult, append-Appended}
use quick.Log.Front.{FrontOk}
use quick.Log.Worker.{Worker, take, take_with, drop_excess, flush, roll_when, recycle}
use quick.Log.Logger.{
  Logger, Event, log, work, step, run, lines, take_part, write_part, recycle_part,
}
use quick.Log.InOrder.{InOrder}
use quick.Log.Delivery.{Goes, Allowed, run-InOrder}
use quick.Log.Entry.{roll_size, start_logger, start_heap, linit}
use quick.Log.Start.{start_logger-InOrder, linit-InOrder}

abbrev today : System
today = record { directory = present; date = 20260101; mday = 1; fopen = λ _. true }

abbrev opened : Roll
opened = record { handle = file 20260101 0; rollsize = 1000; written_bytes = 0; roll_mday = 1 }

abbrev ready : Logger
ready = start_logger 0 1 2 3 opened

-- Two calls fill the first buffer, the worker takes over, a third call comes in between.
abbrev script : List Event
script =
    log 10 (1 ∷ 2 ∷ [])
    ∷ log 11 (3 ∷ 4 ∷ [])
    ∷ work today 12 []
    ∷ log 13 (5 ∷ [])
    ∷ work today 14 []
    ∷ work today 15 []
    ∷ []

ready-InOrder : InOrder 4 ready []
ready-InOrder = start_logger-InOrder 4 0 1 2 3 opened (λ a. ground arith) refl (omega arith)

script-Allowed : Allowed 4 2 script ready
unfolding step append copy_line append_full push_full assert_last advance_buffer take take_part
    write_part recycle_part take_with drop_excess flush roll_when recycle write start_logger
    start_heap
script-Allowed = (
  (refl, omega arith),
  (
    (refl, omega arith),
    ((refl, λ e. cc), ((refl, omega arith), ((refl, λ e. omega arith), ((refl, λ e. cc), tt)))),
  ),
)

run-InOrder_example : Goes 4 ([] ++ lines script) (run 4 2 script ready)
run-InOrder_example = run-InOrder 4 2 script ready [] ready-InOrder (omega arith) script-Allowed

abbrev idle_worker : Worker
idle_worker = record { to_write = empty_list; new_buffer1 = some 2; new_buffer2 = some 3 }

-- Buffer 5 is full and linked to the current buffer 0; the spare is gone.
abbrev heap : Heap
heap =
    write
      (write
        (write (write (λ _. none) 5 (some (buffer (some 0) (1 ∷ 2 ∷ 3 ∷ [])))) 0
          (some (buffer none (4 ∷ []))))
        2 (some blank))
      3 (some blank)

abbrev full : Cells
full = (5, 1 ∷ 2 ∷ 3 ∷ []) ∷ []

abbrev front : Front
front = record { curr_buffer = 0; next_buffer = none; buffers = list_of full }

front-FrontOk : FrontOk 4 heap front full (4 ∷ [])
unfolding write
front-FrontOk = record {
  list = refl;
  linked = (refl, tt);
  current = refl;
  spare = omega arith;
  distinct = λ a. ground arith;
  fit = omega arith;
  fit_current = omega arith;
}

idle_worker-Idle : Idle heap idle_worker
unfolding write
idle_worker-Idle = record { nothing = refl; blank1 = refl; blank2 = refl }

heap-unused : heap 9 ≡ none
unfolding write
heap-unused = refl

-- The line does not fit and there is no spare: a fresh buffer becomes the current one.
append-Appended_example :
    AppendResult 4 9
      (7 ∷ 8 ∷ 9 ∷ 9 ∷ [])
      heap
      front
      full
      (4 ∷ [])
      (append 4 9 (7 ∷ 8 ∷ 9 ∷ 9 ∷ []) front heap)
append-Appended_example =
    append-Appended 4 heap front full (4 ∷ []) (7 ∷ 8 ∷ 9 ∷ 9 ∷ []) 9 front-FrontOk heap-unused
      (omega arith)

take-Taken_example :
    (f' : Front) × (w' : Worker) × (take front idle_worker heap ≡ some (f', w'))
    × Taken 4 heap front full (4 ∷ []) f' w'
take-Taken_example =
    take-Taken 4 heap front full (4 ∷ []) idle_worker front-FrontOk idle_worker-Idle
      (λ a. ground arith)

-- The worker with two buffers to write and none of its own.
abbrev busy_worker : Worker
busy_worker = record { to_write = list_of writing; new_buffer1 = none; new_buffer2 = none }
  where
    writing : Cells
    writing = (5, 1 ∷ 2 ∷ 3 ∷ []) ∷ (0, 4 ∷ []) ∷ []

recycle-Recycled_example :
    (w' : Worker) × (h' : Heap) × (recycle busy_worker heap ≡ some (w', h'))
    × Recycled heap busy_worker ((5, 1 ∷ 2 ∷ 3 ∷ []) ∷ (0, 4 ∷ []) ∷ []) w' h'
unfolding write
recycle-Recycled_example =
    recycle-Recycled heap busy_worker ((5, 1 ∷ 2 ∷ 3 ∷ []) ∷ (0, 4 ∷ []) ∷ [])
      (record {
        list = refl;
        linked = (refl, (refl, tt));
        given1 = refl;
        some_left = omega arith;
        reserve = omega arith;
      })
      (λ a. ground arith)

abbrev big : Roll
big = record { handle = file 20260101 1; rollsize = 1000; written_bytes = 1000; roll_mday = 1 }

rollfile-RolledOk_example : (r' : Roll) × (rollfile 2 today big ≡ rolled r') × RolledOk big r'
rollfile-RolledOk_example = rollfile-RolledOk 2 today big refl (omega arith) (omega arith)

rollfile_index_example : rollfile 2 today big ≡ rolled (at_index today big)
rollfile_index_example = rollfile_index 0 today big refl (λ index. refl) (λ e. cc) (omega arith)

linit-InOrder_example : Goes 4 [] (linit 0 1 2 3 2 today (pos 100))
linit-InOrder_example =
    linit-InOrder 4 2 0 1 2 3 today (pos 100) (λ a. ground arith) refl (omega arith) (omega arith)

-- 4096 megabytes are 0 bytes, and each file is then too long.
roll_size_zero : roll_size (pos 4096) ≡ 0
unfolding roll_size
roll_size_zero = refl

rollfile_zero : (open_from today 100 0 (record opened { rollsize = roll_size (pos 4096) })) ≡ none
unfolding roll_size open_from
rollfile_zero = refl
