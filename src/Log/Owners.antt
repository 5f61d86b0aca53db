-- ===== src/Log/Owners.antt =====
-- Who owns which address in the logger of lua-log.c, and changes elsewhere.
use quick.Prelude.{ℕ, ◌≤◌, ◌≡◌, refl, ap, ◌∙◌, Option, none, some, List, [], arith}
use quick.Log.Heap.{Address, blank, Heap}
use quick.Log.Cells.{Cells, count_option, occurs_self, count_fresh, occurs_fresh}
use quick.Log.Append.{Front}
use quick.Log.Front.{SpareOk, FrontOk, front_count}
use quick.Log.Chains.{Linked-frame}
use quick.Log.Worker.{Worker}
use quick.Log.WorkerOrder.{Idle, Busy, Reserve, BlankAt, worker_count}

BlankAt-frame :
    (h g : Heap) (o : Option Address)
    → ((a : Address) → 1 ≤ count_option a o → g a ≡ h a)
    → BlankAt h o
    → BlankAt g o
BlankAt-frame h g none same b = b
BlankAt-frame h g (some n) same b = same n (omega (arith, occurs_self n)) ∙ b

Reserve-frame :
    (h g : Heap) (xs : Cells) (o : Option Address)
    → ((a : Address) → 1 ≤ count_option a o → g a ≡ h a)
    → Reserve h xs o
    → Reserve g xs o
Reserve-frame h g xs none same b = b
Reserve-frame h g xs (some n) same b = same n (omega (arith, occurs_self n)) ∙ b

SpareOk-frame :
    (h g : Heap) (xs : Cells) (o : Option Address)
    → ((a : Address) → 1 ≤ count_option a o → g a ≡ h a)
    → SpareOk h xs o
    → SpareOk g xs o
SpareOk-frame h g xs none same b = b
SpareOk-frame h g xs (some n) same b = same n (omega (arith, occurs_self n)) ∙ b

module _ (h g : Heap) (w : Worker) (writing : Cells)
    (same : (a : Address) → 1 ≤ worker_count a w writing → g a ≡ h a) where
  pub Idle-frame : Idle h w → Idle g w
  Idle-frame i = record {
    nothing = i.nothing;
    blank1 = BlankAt-frame h g w.new_buffer1 (λ a m. same a (omega arith)) i.blank1;
    blank2 = BlankAt-frame h g w.new_buffer2 (λ a m. same a (omega arith)) i.blank2;
  }

  pub Busy-frame : Busy h w writing → Busy g w writing
  Busy-frame b = record {
    list = b.list;
    linked = Linked-frame h g writing none (λ a m. same a (omega arith)) b.linked;
    given1 = b.given1;
    some_left = b.some_left;
    reserve = Reserve-frame h g writing w.new_buffer2 (λ a m. same a (omega arith)) b.reserve;
  }

pub FrontOk-frame :
    (capacity : ℕ) (h g : Heap) (f : Front) (full : Cells) (cur : List ℕ)
    → ((a : Address) → 1 ≤ front_count a f full → g a ≡ h a)
    → FrontOk capacity h f full cur
    → FrontOk capacity g f full cur
FrontOk-frame capacity h g f full cur same v = record {
  list = v.list;
  linked = Linked-frame h g full _ (λ a m. same a (omega arith)) v.linked;
  current = same f.curr_buffer (omega (arith, occurs_self f.curr_buffer)) ∙ v.current;
  spare = SpareOk-frame h g full f.next_buffer (λ a m. same a (omega arith)) v.spare;
  distinct = v.distinct;
  fit = v.fit;
  fit_current = v.fit_current;
}

-- An unallocated address has no owner.
module _ (h : Heap) (p : Address) (unused : h p ≡ none) where
  blank_unused : (o : Option Address) → BlankAt h o → count_option p o ≡ 0
  blank_unused none b = refl
  blank_unused (some n) b = occurs_fresh h p n blank unused b

  Reserve-unused : (xs : Cells) (o : Option Address) → Reserve h xs o → count_option p o ≡ 0
  Reserve-unused xs none b = refl
  Reserve-unused xs (some n) b = occurs_fresh h p n blank unused b

  spare_unused : (xs : Cells) (o : Option Address) → SpareOk h xs o → count_option p o ≡ 0
  spare_unused xs none b = refl
  spare_unused xs (some n) b = occurs_fresh h p n blank unused b

  pub Idle-unused : (w : Worker) → Idle h w → worker_count p w [] ≡ 0
  Idle-unused w i =
      omega (arith, blank_unused w.new_buffer1 i.blank1, blank_unused w.new_buffer2 i.blank2)

  pub Busy-unused : (w : Worker) (writing : Cells) → Busy h w writing → worker_count p w writing ≡ 0
  Busy-unused w writing b = omega (
    arith,
    count_fresh h writing none p unused b.linked,
    ap (count_option p) b.given1,
    Reserve-unused writing w.new_buffer2 b.reserve,
  )

  pub FrontOk-unused :
      (capacity : ℕ) (f : Front) (full : Cells) (cur : List ℕ)
      → FrontOk capacity h f full cur
      → front_count p f full ≡ 0
  FrontOk-unused capacity f full cur v = omega (
    arith,
    count_fresh h full _ p unused v.linked,
    occurs_fresh h p f.curr_buffer _ unused v.current,
    spare_unused full f.next_buffer v.spare,
  )
