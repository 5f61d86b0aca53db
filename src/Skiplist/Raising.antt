-- ===== src/Skiplist/Raising.antt =====
-- The first loop of `slInsert` behind the walk: the levels that the list gets are those of the
-- header, which cross the whole list.
use quick.Prelude.{
  ap₂, ◌≢◌, ◌%◌, inr, inl, Bool-cases, subst, ℕ, zero, suc, ◌+◌, ◌≤◌, ◌<◌, ◌^◌, ◌≡◌, refl, sym, ap,
  ◌∙◌, none, some, [], ◌∷◌, ◌++◌, length, arith, ◌==◌,
}
use quick.Skiplist.Nodes.{Address, level, Heap, max_level, get_level}
use quick.Skiplist.Search.{Trail, set_trail}
use quick.Skiplist.Insert.{raise}
use quick.Skiplist.Cells.{
  gap_at-Low, next_at-Low, Heights-Low, Low-mono, info, Heights-split, Cell, Cells, end_of,
  height_of, Heights, Linked,
}
use quick.Skiplist.Memory.{set_level-runs}
use quick.Skiplist.Walk.{Reached}

module _ {A : Type 0} where
  height_of-Heights :
      (n k : ℕ) (c : Cell A) (cs : Cells A) → Heights n (c ∷ cs) → height_of k (c ∷ cs) ≤ n
  height_of-Heights n k c [] v = v.1
  height_of-Heights n k c (e ∷ cs) v = height_of-Heights n c.height e cs v.2

  Heights-suc : (n : ℕ) (xs : Cells A) → Heights n xs → Heights (suc n) xs
  Heights-suc n [] v = tt
  Heights-suc n (c ∷ xs) v = (v.0, omega (arith, v.1), Heights-suc n xs v.2)

  -- Only the header is on a level that no node has.
  front-Heights : (n : ℕ) (d r : Cells A) → Heights n (d ++ r) → n < height_of max_level d → d ≡ []
  front-Heights n [] r v lt = refl
  front-Heights n (c ∷ d) r v lt =
      absurd (omega (arith, height_of-Heights n max_level c d (Heights-split n (c ∷ d) r v).0, lt))

module _ {A : Type 0} (header : Address) (xs : Cells A) (small : length xs < 2 ^ 32) where
  Linked-raise :
      (h g : Heap A) (n : ℕ)
      → n < max_level
      → Linked h header n xs
      → get_level g header n ≡ some (level none (length xs))
      → ((q : Address) (j : ℕ) → j ≢ n → get_level g q j ≡ get_level h q j)
      → ((q : Address) → info g q ≡ info h q)
      → Linked g header (suc n) xs
  Linked-raise h g n lt v here others infos = record {
    header_info = (v.header_info.0, infos header ∙ v.header_info.1);
    infos = λ d c r split. infos c.at ∙ v.infos d c r split;
    links = λ d r i split le tall. elim (Bool-cases (i == n)) [
      | inl same ↦
          let at : i ≡ n = ground arith in
          let top =
            front-Heights n d r (subst (λ ys. Heights n ys) split v.heights)
              (omega (arith, tall, at)) in
          let whole : xs ≡ r = split ∙ ap (λ ys. ys ++ r) top in
          let low =
            Low-mono n i r (omega (arith, at))
              (Heights-Low n r (subst (λ ys. Heights n ys) whole v.heights)) in
          ap₂ (λ q j. get_level g q j) (ap (end_of header) top) at
          ∙ here
          ∙ ap some
              (ap₂ level (sym (next_at-Low i r low)) (ap length whole ∙ sym (gap_at-Low i r low)))
      | inr other ↦
          others (end_of header d) i (ground arith) ∙ v.links d r i split (ground arith) tall
    ];
    spare = λ i le ltm.
        let old = v.spare i (omega arith) ltm in
        (old.0, others header i (λ e. omega (arith, e)) ∙ old.1);
    heights = Heights-suc n xs v.heights;
    at_least = omega arith;
    at_most = omega arith;
  }

  -- What the loop leaves.
  pub record Raised (h : Heap A) (i k : ℕ) (trail : Trail) (good : Cells A) : Type 0 where
    pub trail_left : Trail
    pub heap_left : Heap A
    pub runs : raise k i header (length xs) trail h ≡ some (trail_left, heap_left)
    pub linked : Linked heap_left header (i + k) xs
    pub reached : (j : ℕ) → j < i + k → Reached header good j (trail_left j)

  pub raise_lem :
      (h : Heap A) (i k : ℕ) (trail : Trail) (good bad : Cells A)
      → xs ≡ good ++ bad
      → i + k ≤ max_level
      → Linked h header i xs
      → ((j : ℕ) → j < i → Reached header good j (trail j))
      → Raised h i k trail good
  unfolding raise set_trail
  raise_lem h i zero trail good bad split le v reached = record {
    trail_left = trail;
    heap_left = h;
    runs = refl;
    linked = subst (λ k. Linked h header k xs) (omega arith) v;
    reached = λ j lt. reached j (omega arith);
  }
  raise_lem h i (suc k) trail good bad split le v reached =
      let old = v.spare i (omega arith) (omega arith) in
      let t = set_level-runs h header i (level none (length xs)) (level none old.0) old.1 in
      let v' = Linked-raise h t.after i (omega arith) v t.here t.other_level t.infos_same in
      let trail' = set_trail trail i (header, 0) in
      let reached' : (j : ℕ) → j < suc i → Reached header good j (trail' j) = λ j lt.
        elim (Bool-cases (j == i)) [
          | inl same ↦
              let at : j ≡ i = ground arith in
              let low = Low-mono i j good (omega (arith, at)) (
                Heights-Low i good
                  (Heights-split i good bad (subst (λ ys. Heights i ys) split v.heights)).0) in
              record {
                front = [];
                rest = good;
                split = refl;
                tall = omega arith;
                low = low;
                entry_is = rw same refl;
              }
          | inr other ↦ rw other (reached j (ground arith))
        ] in
      let rest = raise_lem t.after (suc i) k trail' good bad split (omega arith) v' reached' in
      let len : length xs % 2 ^ 32 ≡ length xs = omega arith in
      record {
        trail_left = rest.trail_left;
        heap_left = rest.heap_left;
        runs = rw (old.1, len, t.runs) rest.runs;
        linked = subst (λ k. Linked rest.heap_left header k xs) (omega arith) rest.linked;
        reached = λ j lt. rest.reached j (omega arith);
      }
