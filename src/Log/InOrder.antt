-- ===== src/Log/InOrder.antt =====
-- The whole logger of lua-log.c in order: the owners of the buffers, and the bytes on their way;
-- a call of `append` from there.
use quick.Prelude.{
  ℕ, ◌+◌, ◌≤◌, ◌<◌, ◌≡◌, subst, ap, ◌∙◌, true, inl, inr, none, List, [], ◌++◌, arith, append_assoc,
}
use quick.Log.Heap.{Address, Heap}
use quick.Log.Cells.{Cells, occurs, contents, occurs-cases}
use quick.Log.Append.{Front}
use quick.Log.Front.{FrontOk, front_count}
use quick.Log.Appended.{Appended}
use quick.Log.Worker.{Worker, has_handle}
use quick.Log.WorkerOrder.{Idle, Busy, worker_count}
use quick.Log.Owners.{Idle-frame, Busy-frame, Idle-unused, Busy-unused}
use quick.Log.Logger.{Phase, idle, taken, written, Logger}

abbrev pub PhaseOk : Phase → Heap → Worker → Cells → Type 0
PhaseOk idle h w writing = (writing ≡ []) × Idle h w
PhaseOk taken h w writing = Busy h w writing
PhaseOk written h w writing = Busy h w writing

-- The bytes that the worker holds and has not written.
abbrev pub unwritten : Phase → Cells → List ℕ
unwritten idle writing = []
unwritten taken writing = contents writing
unwritten written writing = []

-- The logger in order: `writing` and `full` are the worker's and the front end's chains, `cur` is
-- in the current buffer, and `history` is all that was logged.
pub record InOrder (capacity : ℕ) (s : Logger) (history : List ℕ) : Type 0 where
  pub writing : Cells
  pub full : Cells
  pub cur : List ℕ
  pub front : FrontOk capacity s.heap s.front full cur
  pub worker : PhaseOk s.phase s.heap s.worker writing
  pub apart : (a : Address) → front_count a s.front full + worker_count a s.worker writing ≤ 1
  pub usable : has_handle s.roll.handle ≡ true
  pub limit : 0 < s.roll.rollsize
  pub stream : s.output ++ (unwritten s.phase writing ++ (contents full ++ cur)) ≡ history

PhaseOk-frame :
    (phase : Phase) (h g : Heap) (w : Worker) (writing : Cells)
    → ((a : Address) → 1 ≤ worker_count a w writing → g a ≡ h a)
    → PhaseOk phase h w writing
    → PhaseOk phase g w writing
PhaseOk-frame idle h g w writing same ok = (ok.0, Idle-frame h g w writing same ok.1)
PhaseOk-frame taken h g w writing same ok = Busy-frame h g w writing same ok
PhaseOk-frame written h g w writing same ok = Busy-frame h g w writing same ok

PhaseOk-unused :
    (phase : Phase) (h : Heap) (p : Address) (w : Worker) (writing : Cells)
    → h p ≡ none
    → PhaseOk phase h w writing
    → worker_count p w writing ≡ 0
PhaseOk-unused idle h p w writing unused ok = rw ok.0 (Idle-unused h p unused w ok.1)
PhaseOk-unused taken h p w writing unused ok = Busy-unused h p unused w writing ok
PhaseOk-unused written h p w writing unused ok = Busy-unused h p unused w writing ok

pub regroup : (xs ys zs ws : List ℕ) → xs ++ (ys ++ (zs ++ ws)) ≡ (xs ++ (ys ++ zs)) ++ ws
regroup xs ys zs ws = simp append_assoc

-- A call of `append` by any thread, at any moment.
module _ (capacity : ℕ) (s : Logger) (history : List ℕ) (fresh : Address) (line : List ℕ)
    (v : InOrder capacity s history) (unused : s.heap fresh ≡ none) where
  not_fresh : (a : Address) → 1 ≤ worker_count a s.worker v.writing → occurs a fresh ≡ 0
  not_fresh a m = elim (occurs-cases a fresh) [
    | inl other ↦ other
    | inr same ↦ absurd (
        omega (
          arith,
          PhaseOk-unused s.phase s.heap fresh s.worker v.writing unused v.worker,
          subst (λ p. 1 ≤ worker_count p s.worker v.writing) same m,
        ))
  ]

  pub log_InOrder :
      (f : Front) (h : Heap)
      → Appended capacity fresh line s.heap s.front v.full v.cur f h
      → InOrder capacity (record s { front = f; heap = h }) (history ++ line)
  log_InOrder f h a = record {
    writing = v.writing;
    full = a.full';
    cur = a.cur';
    front = a.ok;
    worker =
        PhaseOk-frame s.phase s.heap h s.worker v.writing
          (λ p m. a.frame p (omega (arith, v.apart p)) (not_fresh p m)) v.worker;
    apart = λ p. elim (occurs-cases p fresh) [
      | inl other ↦ omega (arith, v.apart p, a.counts p)
      | inr same ↦ rw same (
          omega (
            arith,
            a.ok.distinct fresh,
            PhaseOk-unused s.phase s.heap fresh s.worker v.writing unused v.worker,
          ))
    ];
    usable = v.usable;
    limit = v.limit;
    stream =
        ap (λ t. s.output ++ (unwritten s.phase v.writing ++ t)) a.order
        ∙ regroup s.output (unwritten s.phase v.writing) (contents v.full ++ v.cur) line
        ∙ ap (λ t. t ++ line) v.stream;
  }
