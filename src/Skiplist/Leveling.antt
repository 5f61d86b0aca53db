-- ===== src/Skiplist/Leveling.antt =====
-- The two loops of `slInsert` over the levels leave a list with the new node between the nodes that
-- the walk has passed and the others.
use quick.Prelude.{
  ltb, Bool-cases, ℕ, suc, ◌+◌, ◌-◌, ◌≤◌, ◌<◌, ◌^◌, ◌≡◌, ◌≢◌, refl, sym, ap, ap₂, ◌∙◌, some, ◌∷◌,
  ◌++◌, length, length-append, arith, inl, inr,
}
use quick.Skiplist.Nodes.{
  Garbage, Address, level, Heap, max_level, get_level, sub32, add32, write, create_node,
}
use quick.Skiplist.Search.{Trail}
use quick.Skiplist.Insert.{link, widen}
use quick.Skiplist.Cells.{
  gap_at-append-Low, next_at-append-Low, Cell, Cells, next_at, gap_at, end_of, height_of, Low,
  Linked, info,
}
use quick.Skiplist.Apart.{Apart}
use quick.Skiplist.Walk.{Reached}
use quick.Skiplist.Memory.{levels-create_other, levels-create}
use quick.Skiplist.Linking.{move_place, Widened, move-Placed, OffTrail, Place, Placed, widen_lem}
use quick.Skiplist.Joining.{Joined, link_lem}
use quick.Skiplist.Splits.{gap_at-le}
use quick.Skiplist.Trails.{reached_entry, reached_off}
use quick.Skiplist.Spliced.{Leveled, end_of-old, whole_split}

sub32-exact : (a b : ℕ) → b ≤ a → a < 2 ^ 32 → sub32 a b ≡ a - b
sub32-exact a b le lt = omega arith

-- The memory with the new node.
abbrev pub grown : {A : Type 0} → Heap A → Garbage → Cell A → Heap A
grown h raw c = write h c.at (some (create_node raw c.height c.score (some c.obj)))

module _ {A : Type 0} (h : Heap A) (header n : ℕ) (good bad : Cells A) (c : Cell A) (trail : Trail)
    (v : Linked h header n (good ++ bad)) (apart : Apart header c.at (good ++ bad))
    (reached : (j : ℕ) → j < n → Reached header good j (trail j))
    (small : suc (length (good ++ bad)) < 2 ^ 32) (le : c.height ≤ n) (raw : Garbage) where
  old_level :
      (d r : Cells A) (j : ℕ)
      → good ++ bad ≡ d ++ r
      → get_level (grown h raw c) (end_of header d) j ≡ get_level h (end_of header d) j
  old_level d r j split =
      levels-create_other h c.at raw c.height c.score (some c.obj) (end_of header d) j
        (end_of-old h header n good bad c trail v apart reached d r split)

  place_of :
      (j : ℕ) (front rest : Cells A)
      → j < n
      → good ≡ front ++ rest
      → Low j rest
      → j < height_of max_level front
      → Place trail
          (grown h raw c)
          j
          (end_of header front)
          (length front)
          (level (next_at j (rest ++ bad)) (gap_at j (rest ++ bad)))
  place_of j front rest lt split low tall =
      let whole = whole_split h header n good bad c trail v apart reached front rest split in
      record {
        entry = reached_entry header good j trail (reached j lt) front rest split low tall;
        holds = old_level front (rest ++ bad) j whole ∙ v.links front (rest ++ bad) j whole lt tall;
      }

  placed : (j : ℕ) → j < n → Placed trail (grown h raw c) j
  placed j lt =
      let r = reached j lt in
      record {
        node = end_of header r.front;
        rank = length r.front;
        old = level (next_at j (r.rest ++ bad)) (gap_at j (r.rest ++ bad));
        place = place_of j r.front r.rest lt r.split r.low r.tall;
      }

  off_trail :
      (q : Address) (j : ℕ)
      → j < n
      → ((front rest : Cells A)
          → j < n
          → good ≡ front ++ rest
          → Low j rest
          → j < height_of max_level front
          → q ≢ end_of header front)
      → OffTrail trail j q
  off_trail q j lt off =
      reached_off header good j trail (reached j lt) q
        (λ front rest split low tall. off front rest lt split low tall)

  module _ (l : Joined trail c.at (length good) (grown h raw c) 0 c.height)
      (w : Widened trail l.after c.height (n - c.height)) where
    new_lem :
        (j : ℕ)
        → j < c.height
        → get_level w.after c.at j ≡ some (level (next_at j bad) (gap_at j bad))
    new_lem j lt =
        let r = reached j (omega arith) in
        let gap = gap_at-append-Low j r.rest bad r.low in
        let bound = gap_at-le j bad in
        let size = ap length r.split ∙ length-append r.front r.rest in
        let sizes = length-append good bad in
        let rank : sub32 (length good) (length r.front) ≡ length r.rest =
          sub32-exact (length good) (length r.front) (omega (arith, size)) (omega (arith, sizes))
          ∙ omega (arith, size) in
        let span : sub32 (gap_at j (r.rest ++ bad)) (sub32 (length good) (length r.front))
            ≡ gap_at j bad =
          ap₂ sub32 gap rank
          ∙ sub32-exact (length r.rest + gap_at j bad) (length r.rest) (omega arith)
              (omega (arith, bound, size, sizes))
          ∙ omega arith in
        w.other_level c.at j (inl lt)
        ∙ l.new_level j (end_of header r.front) (length r.front)
            (level (next_at j (r.rest ++ bad)) (gap_at j (r.rest ++ bad))) (omega arith)
            (omega arith) (place_of j r.front r.rest (omega arith) r.split r.low r.tall)
        ∙ ap₂ (λ f k. some (level f k)) (next_at-append-Low j r.rest bad r.low) span

    before_lem :
        (j : ℕ) (front rest : Cells A)
        → j < n
        → good ≡ front ++ rest
        → Low j rest
        → j < height_of max_level front
        → get_level w.after (end_of header front) j
          ≡ some (level (next_at j (rest ++ (c ∷ bad))) (gap_at j (rest ++ (c ∷ bad))))
    before_lem j front rest lt split low tall =
        let place = place_of j front rest lt split low tall in
        let old = level (next_at j (rest ++ bad)) (gap_at j (rest ++ bad)) in
        let next = next_at-append-Low j rest (c ∷ bad) low in
        let gap = gap_at-append-Low j rest (c ∷ bad) low in
        let old_gap = gap_at-append-Low j rest bad low in
        let bound = gap_at-le j bad in
        let size = ap length split ∙ length-append front rest in
        let sizes = length-append good bad in
        let rank =
          sub32-exact (length good) (length front) (omega (arith, size)) (omega (arith, sizes)) in
        elim (Bool-cases (ltb j c.height)) [
          | inl new ↦
              let one : gap_at j (c ∷ bad) ≡ 1 = rw new refl in
              w.other_level (end_of header front) j (inl (ground arith))
              ∙ l.before_level j (end_of header front) (length front) old (omega arith)
                  (ground arith) place
              ∙ ap₂ (λ f k. some (level f k)) (sym (next ∙ rw new refl))
                  (ap (λ k. add32 k 1) rank ∙ omega (arith, gap, one, size, sizes))
          | inr above ↦
              let more : gap_at j (c ∷ bad) ≡ suc (gap_at j bad) = rw above refl in
              w.wider j (end_of header front) (length front) old (ground arith) (ground arith) (
                move_place trail (grown h raw c) l.after j (end_of header front) (length front) old
                  (l.other_level (end_of header front) j (inr (ground arith))) place)
              ∙ ap₂ (λ f k. some (level f k))
                  (next_at-append-Low j rest bad low ∙ sym (next ∙ rw above refl))
                  (omega (arith, gap, more, old_gap, bound, size, sizes))
        ]

    other_lem :
        (q : Address) (j : ℕ)
        → q ≢ c.at
        → ((front rest : Cells A)
            → j < n
            → good ≡ front ++ rest
            → Low j rest
            → j < height_of max_level front
            → q ≢ end_of header front)
        → get_level w.after q j ≡ get_level h q j
    other_lem q j ne off =
        let old = levels-create_other h c.at raw c.height c.score (some c.obj) q j ne in
        elim (Bool-cases (ltb j n)) [
          | inl inside ↦
              let away = off_trail q j (ground arith) off in
              w.other_node q j away ∙ l.other_node q j ne away ∙ old
          | inr outside ↦
              w.other_level q j (inr (ground arith)) ∙ l.other_level q j (inr (ground arith)) ∙ old
        ]

  pub record Grown : Type 0 where
    pub linked_heap : Heap A
    pub after : Heap A
    pub links : link c.height 0 c.at (length good) trail (grown h raw c) ≡ some linked_heap
    pub widens : widen (n - c.height) c.height trail linked_heap ≡ some after
    pub levels : Leveled h header n good bad c trail v apart reached after
    pub infos_same : (q : Address) → info after q ≡ info (grown h raw c) q

  pub grow_lem : Grown
  grow_lem =
      let new_off : (j : ℕ) → j < n → OffTrail trail j c.at = λ j lt.
        off_trail c.at j lt (λ front rest ltn split low tall same.
          end_of-old h header n good bad c trail v apart reached front (rest ++ bad)
            (whole_split h header n good bad c trail v apart reached front rest split)
            (sym same)) in
      let new_room : (j : ℕ)
          → j < c.height
          → get_level (grown h raw c) c.at j ≡ some (raw.level_at j) =
        λ j lt. levels-create h c.at raw c.height c.score (some c.obj) c.at j lt ∙ ground arith in
      let l =
        link_lem trail c.at (length good) (grown h raw c) 0 c.height
          (λ j le0 lt. placed j (omega arith)) (λ j le0 lt. new_off j (omega arith))
          (λ j le0 lt. (raw.level_at j, new_room j (omega arith))) in
      let w = widen_lem trail l.after c.height (n - c.height) (λ j lec lt.
        move-Placed trail (grown h raw c) l.after j (λ u r e. l.other_level u j (inr (omega arith)))
          (placed j (omega arith))) in
      record {
        linked_heap = l.after;
        after = w.after;
        links = l.runs;
        widens = w.runs;
        levels = record {
          new_level = new_lem l w;
          before_level = before_lem l w;
          other_level = other_lem l w;
        };
        infos_same = λ q. w.infos_same q ∙ l.infos_same q;
      }
