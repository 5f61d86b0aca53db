-- ===== src/Log/Delivery.antt =====
-- Runs of the logger of lua-log.c, from `init` on: calls of `append` and parts of the worker's
-- rounds, in the permitted orders.
use quick.Prelude.{
  ℕ, ◌+◌, ◌≤◌, ◌<◌, ◌≡◌, refl, sym, subst, ap, ◌∙◌, Bool, true, false, none, some, List, [], ◌∷◌,
  ◌++◌, length, arith, append_assoc, append-nil, ltb,
}
use quick.Log.Heap.{Address, BufferList}
use quick.Log.Cells.{Cells, contents, contents-append, list_of}
use quick.Log.Front.{front_count}
use quick.Log.Appended.{cell}
use quick.Log.AppendOrder.{append-Appended}
use quick.Log.Chains.{write_chain_lem}
use quick.Log.Roll.{Roll, System, rolled, directory_ready}
use quick.Log.RollIndex.{rollfile-RolledOk, RolledOk}
use quick.Log.Worker.{has_handle, drop_excess, write_chain, flush, roll_when, too_large, new_day}
use quick.Log.WorkerOrder.{Idle, Busy, worker_count, take-Taken}
use quick.Log.Owners.{FrontOk-frame}
use quick.Log.RecycleOrder.{recycle-Recycled}
use quick.Log.InOrder.{PhaseOk, unwritten, InOrder, log_InOrder}
use quick.Log.Logger.{
  Phase, idle, taken, written, Logger, Event, log, work, Outcome, fault, exit, running, take_part,
  write_part, recycle_part, work_part, step, run, lines,
}

roll_when_ok :
    (due : Bool) (fuel : ℕ) (sys : System) (r : Roll)
    → directory_ready sys.directory ≡ true
    → 0 < r.rollsize
    → 2 ≤ fuel
    → has_handle r.handle ≡ true
    → (r' : Roll) × (roll_when due fuel sys r ≡ rolled r') × RolledOk r r'
unfolding roll_when
roll_when_ok true fuel sys r ready pos enough usable = rollfile-RolledOk fuel sys r ready pos enough
roll_when_ok false fuel sys r ready pos enough usable =
    (r, refl, record { usable = usable; rollsize = refl })

few_ltb :
    (list : BufferList) (xs : Cells) → list ≡ list_of xs → length xs ≤ 25 → ltb 25 list.size ≡ false
few_ltb list xs e few =
    let n : list.size ≡ length xs = ap (λ (l : BufferList). l.size) e in ground arith

few_cells : (list : BufferList) (xs : Cells) → list ≡ list_of xs → list.size ≤ 25 → length xs ≤ 25
few_cells list xs e few =
    let n : list.size ≡ length xs = ap (λ (l : BufferList). l.size) e in omega arith

-- The logger goes on, in order.
abbrev pub Goes : ℕ → List ℕ → Outcome → Type 0
Goes capacity history o = (s' : Logger) × (o ≡ running s') × InOrder capacity s' history

-- The worker's parts, each at its phase.
module _ (capacity fuel : ℕ) (s : Logger) (history : List ℕ) (sys : System)
    (v : InOrder capacity s history) (ready : directory_ready sys.directory ≡ true)
    (enough : 2 ≤ fuel) where
  streamed :
      (p : Phase)
      → s.phase ≡ p
      → s.output ++ (unwritten p v.writing ++ (contents v.full ++ v.cur)) ≡ history
  streamed p e =
      subst (λ q. s.output ++ (unwritten q v.writing ++ (contents v.full ++ v.cur)) ≡ history) e
        v.stream

  kept_all :
      (fresh : Address) (notice : List ℕ)
      → Busy s.heap s.worker v.writing
      → length v.writing ≤ 25
      → drop_excess capacity fresh notice s.front s.worker s.heap ≡ some (s.front, s.worker, s.heap)
  unfolding drop_excess
  kept_all fresh notice b few =
      let small : ltb 25 s.worker.to_write.size ≡ false = few_ltb _ _ b.list few in
      rw (small, drop_excess)

  flushed :
      Busy s.heap s.worker v.writing
      → flush s.worker s.heap s.roll s.output
        ≡ some (
          record s.roll { written_bytes = s.roll.written_bytes + length (contents v.writing) },
          s.output ++ contents v.writing,
        )
  unfolding flush
  flushed b =
      ap (λ (l : BufferList). write_chain l.size l.head s.heap s.roll s.output) b.list
      ∙ write_chain_lem (length v.writing) v.writing s.heap s.roll s.output b.linked v.usable
          (omega arith)

  take-Goes : s.phase ≡ idle → Goes capacity history (take_part capacity fuel sys s)
  unfolding take_part
  take-Goes e =
      let ok : (v.writing ≡ []) × Idle s.heap s.worker =
        subst (λ p. PhaseOk p s.heap s.worker v.writing) e v.worker in
      let (r, er, rok) =
        roll_when_ok (new_day sys s.roll) fuel sys s.roll ready v.limit enough v.usable in
      let (f, w, et, t) =
        take-Taken capacity s.heap s.front v.full v.cur s.worker v.front ok.1 (λ a.
          subst (λ xs. front_count a s.front v.full + worker_count a s.worker xs ≤ 1) ok.0
            (v.apart a)) in
      (
        record s { front = f; worker = w; roll = r; phase = taken },
        rw (er, et),
        record {
          writing = v.full ++ cell s.front.curr_buffer v.cur;
          full = [];
          cur = [];
          front = t.front;
          worker = t.busy;
          apart = t.apart;
          usable = rok.usable;
          limit = omega (arith, rok.rollsize);
          stream =
              ap (λ t. s.output ++ t)
                (append-nil _
                  ∙ contents-append v.full (cell s.front.curr_buffer v.cur)
                  ∙ ap (λ t. contents v.full ++ t) (append-nil v.cur))
              ∙ streamed idle e;
        },
      )

  busy : (p : Phase) → s.phase ≡ p → PhaseOk p s.heap s.worker v.writing
  busy p e = subst (λ q. PhaseOk q s.heap s.worker v.writing) e v.worker

  -- At most 25 buffers: nothing is dropped.
  write-Goes :
      (fresh : Address) (notice : List ℕ)
      → s.phase ≡ taken
      → length v.writing ≤ 25
      → Goes capacity history (write_part capacity fuel sys fresh notice s)
  unfolding write_part
  write-Goes fresh notice e few =
      let b : Busy s.heap s.worker v.writing = busy taken e in
      let r1 : Roll = record s.roll {
        written_bytes = s.roll.written_bytes + length (contents v.writing);
      } in
      let (r, er, rok) = roll_when_ok (too_large r1) fuel sys r1 ready v.limit enough v.usable in
      (
        record {
          front = s.front;
          worker = s.worker;
          heap = s.heap;
          roll = r;
          output = s.output ++ contents v.writing;
          phase = written;
        },
        rw (kept_all fresh notice b few, flushed b, er),
        record {
          writing = v.writing;
          full = v.full;
          cur = v.cur;
          front = v.front;
          worker = b;
          apart = v.apart;
          usable = rok.usable;
          limit = omega (arith, rok.rollsize);
          stream = append_assoc s.output (contents v.writing) _ ∙ streamed taken e;
        },
      )

  recycle-Goes : s.phase ≡ written → Goes capacity history (recycle_part s)
  unfolding recycle_part
  recycle-Goes e =
      let b : Busy s.heap s.worker v.writing = busy written e in
      let (w, h, er, rec) =
        recycle-Recycled s.heap s.worker v.writing b (λ a. omega (arith, v.apart a)) in
      (
        record s { worker = w; heap = h; phase = idle },
        rw er,
        record {
          writing = [];
          full = v.full;
          cur = v.cur;
          front =
              FrontOk-frame capacity s.heap h s.front v.full v.cur
                (λ a m. rec.frame a (omega (arith, v.apart a))) v.front;
          worker = (refl, rec.idle);
          apart = λ a. omega (arith, v.apart a, rec.counts a);
          usable = v.usable;
          limit = v.limit;
          stream = streamed written e;
        },
      )

-- What is asked of the surroundings: `calloc` returns unused addresses, a line fits a buffer, the
-- log's directory can be had, and the worker keeps up: it never takes over more than 25 buffers.
abbrev pub Permitted : ℕ → Event → Logger → Type 0
Permitted capacity (log fresh line) s = (s.heap fresh ≡ none) × (length line ≤ capacity)
Permitted capacity (work sys fresh notice) s =
    (directory_ready sys.directory ≡ true) × (s.phase ≡ taken → s.worker.to_write.size ≤ 25)

abbrev pub WhenRunning : Outcome → (Logger → Type 0) → Type 0
WhenRunning fault P = Unit
WhenRunning exit P = Unit
WhenRunning (running s) P = P s

abbrev pub Allowed : ℕ → ℕ → List Event → Logger → Type 0
Allowed capacity fuel [] s = Unit
Allowed capacity fuel (e ∷ es) s =
    Permitted capacity e s × WhenRunning (step capacity fuel e s) (Allowed capacity fuel es)

abbrev pub line_of : Event → List ℕ
line_of (log fresh line) = line
line_of (work sys fresh notice) = []

work_step :
    (capacity fuel : ℕ) (s : Logger) (history : List ℕ) (sys : System) (fresh : Address)
    (notice : List ℕ)
    → InOrder capacity s history
    → 2 ≤ fuel
    → Permitted capacity (work sys fresh notice) s
    → (p : Phase) → s.phase ≡ p
    → Goes capacity history (work_part capacity fuel p sys fresh notice s)
work_step capacity fuel s history sys fresh notice v enough ok idle e =
    take-Goes capacity fuel s history sys v ok.0 enough e
work_step capacity fuel s history sys fresh notice v enough ok taken e =
    write-Goes capacity fuel s history sys v ok.0 enough fresh notice e
      (few_cells _ _ (busy capacity fuel s history sys v ok.0 enough taken e).list (ok.1 e))
work_step capacity fuel s history sys fresh notice v enough ok written e =
    recycle-Goes capacity fuel s history sys v ok.0 enough e

lines_cons :
    (history : List ℕ) (e : Event) (es : List Event)
    → (history ++ line_of e) ++ lines es ≡ history ++ lines (e ∷ es)
unfolding lines
lines_cons history (log fresh line) es = append_assoc history line (lines es)
lines_cons history (work sys fresh notice) es = ap (λ t. t ++ lines es) (append-nil history)

-- Every permitted event keeps the logger going and in order, with its line behind the others.
pub step-InOrder :
    (capacity fuel : ℕ) (s : Logger) (history : List ℕ) (e : Event)
    → InOrder capacity s history
    → 2 ≤ fuel
    → Permitted capacity e s
    → Goes capacity (history ++ line_of e) (step capacity fuel e s)
unfolding step
step-InOrder capacity fuel s history (log fresh line) v enough ok =
    let (f, h, e, a) =
      append-Appended capacity s.heap s.front v.full v.cur line fresh v.front ok.0 ok.1 in
    (record s { front = f; heap = h }, rw e, log_InOrder capacity s history fresh line v ok.0 f h a)
step-InOrder capacity fuel s history (work sys fresh notice) v enough ok =
    let (s', e, v') = work_step capacity fuel s history sys fresh notice v enough ok s.phase refl in
    (s', e, subst (InOrder capacity s') (sym (append-nil history)) v')

-- From a logger in order, with 2 rounds of fuel or more, in any run of permitted events, in any
-- order of threads and worker, nothing faults and nothing exits; what is written, what the worker
-- holds and what the buffers hold are together the lines logged so far, each once and in order,
-- behind the bytes that there were. Permitted: `calloc` returns unused addresses, a line fits a
-- buffer, the log's directory can be had, and the worker never takes over more than 25 buffers.
pub run-InOrder :
    (capacity fuel : ℕ) (es : List Event) (s : Logger) (history : List ℕ)
    → InOrder capacity s history
    → 2 ≤ fuel
    → Allowed capacity fuel es s
    → Goes capacity (history ++ lines es) (run capacity fuel es s)
unfolding run lines
run-InOrder capacity fuel [] s history v enough ok =
    (s, refl, subst (InOrder capacity s) (sym (append-nil history)) v)
run-InOrder capacity fuel (e ∷ es) s history v enough ok =
    let (s1, e1, v1) = step-InOrder capacity fuel s history e v enough ok.0 in
    let (s2, e2, v2) =
      run-InOrder capacity fuel es s1 (history ++ line_of e) v1 enough
        (subst (λ o. WhenRunning o (Allowed capacity fuel es)) e1 ok.1) in
    (s2, rw e1 e2, subst (InOrder capacity s2) (lines_cons history e es) v2)
