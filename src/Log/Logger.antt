-- ===== src/Log/Logger.antt =====
-- The logger of lua-log.c as a machine: one event is a call of `append` by some thread, or the
-- next part of the worker's round. Each runs as a whole: `append` and `take` hold the mutex, and
-- the other parts touch only the worker's buffers and the file.
use quick.Prelude.{ℕ, Option, none, some, List, [], ◌∷◌, ◌++◌}
use quick.Log.Heap.{Address, Heap}
use quick.Log.Roll.{Roll, System, Rolled, exited, stuck, rolled}
use quick.Log.Append.{Front, append}
use quick.Log.Worker.{Worker, take, drop_excess, flush, roll_when, too_large, new_day, recycle}

-- Where the worker is in its round.
pub data Phase : Type 0 where
  idle taken written : Phase

pub record Logger : Type 0 where
  pub front : Front
  pub worker : Worker
  pub heap : Heap
  pub roll : Roll
  pub output : List ℕ
  pub phase : Phase

-- `fresh` is the address that `calloc` returns if it is called; `notice` is the text that the
-- worker logs when it drops buffers.
pub data Event : Type 0 where
  log : (fresh : Address) → (line : List ℕ) → Event
  work : (sys : System) → (fresh : Address) → (notice : List ℕ) → Event

-- A fault is undefined behaviour, a failed assertion or a loop without fuel; the process exits if
-- `rollfile` finds no directory.
pub data Outcome : Type 0 where
  fault : Outcome
  exit : Outcome
  running : Logger → Outcome

abbrev pub on_rolled : Rolled → (Roll → Outcome) → Outcome
on_rolled exited k = exit
on_rolled stuck k = fault
on_rolled (rolled r) k = k r

abbrev pub on_some {ℓ} : {A : Type ℓ} → Option A → (A → Outcome) → Outcome
on_some none k = fault
on_some (some a) k = k a

unfoldable pub recycle_part : Logger → Outcome
recycle_part s =
    on_some (recycle s.worker s.heap)
      λ (w, h). running (record s { worker = w; heap = h; phase = idle })

module _ (capacity fuel : ℕ) where
  -- On a new day the file is rolled before the buffers change hands.
  unfoldable pub take_part : System → Logger → Outcome
  take_part sys s = on_rolled (roll_when (new_day sys s.roll) fuel sys s.roll) λ r.
      on_some (take s.front s.worker s.heap)
        λ (f, w). running (record s { front = f; worker = w; roll = r; phase = taken })

  unfoldable pub write_part : System → Address → List ℕ → Logger → Outcome
  write_part sys fresh notice s =
      on_some (drop_excess capacity fresh notice s.front s.worker s.heap) λ (f, w, h).
        on_some (flush w h s.roll s.output) λ (r, out).
          on_rolled (roll_when (too_large r) fuel sys r) λ r'.
            running
              (record { front = f; worker = w; heap = h; roll = r'; output = out; phase = written })

  abbrev pub work_part : Phase → System → Address → List ℕ → Logger → Outcome
  work_part idle sys fresh notice s = take_part sys s
  work_part taken sys fresh notice s = write_part sys fresh notice s
  work_part written sys fresh notice s = recycle_part s

  unfoldable pub step : Event → Logger → Outcome
  step (log fresh line) s =
      on_some (append capacity fresh line s.front s.heap)
        λ (f, h). running (record s { front = f; heap = h })
  step (work sys fresh notice) s = work_part s.phase sys fresh notice s

  abbrev pub then_run : Outcome → (Logger → Outcome) → Outcome
  then_run fault k = fault
  then_run exit k = exit
  then_run (running s) k = k s

  unfoldable pub run : List Event → Logger → Outcome
  run [] s = running s
  run (e ∷ es) s = then_run (step e s) (run es)

-- The lines of the events, in order.
unfoldable pub lines : List Event → List ℕ
lines [] = []
lines (log fresh line ∷ es) = line ++ lines es
lines (work sys fresh notice ∷ es) = lines es
