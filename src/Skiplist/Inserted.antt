-- ===== src/Skiplist/Inserted.antt =====
-- `slInsert` behind the walk: the entry stands between the two parts of the list.
use quick.Prelude.{
  ◌>>=◌, ◌==◌, ltb, if◌then◌else◌, ℕ, suc, ◌+◌, ◌-◌, ◌≤◌, ◌<◌, ◌^◌, ◌≡◌, refl, sym, subst, ap, ◌∙◌,
  Option, none, some, [], ◌∷◌, ◌++◌, length, length-append, arith,
}
use quick.Skiplist.Objects.{Obj}
use quick.Skiplist.Nodes.{Address, SkipList, max_level, add64}
use quick.Skiplist.Search.{Trail}
use quick.Skiplist.Insert.{insert_node}
use quick.Skiplist.Cells.{Cell, Cells, end_of, prev_of, Linked}
use quick.Skiplist.Apart.{Absent-append, end_of-Absent, Distinct, Apart-insert}
use quick.Skiplist.Walk.{Reached}
use quick.Skiplist.State.{Represents}
use quick.Skiplist.Raising.{raise_lem}
use quick.Skiplist.Leveling.{grow_lem}
use quick.Skiplist.Backing.{back_lem, tail_with}
use quick.Skiplist.Splits.{prev_of-cell, prev_of-behind}
use quick.Skiplist.Spliced.{splice_lem}

module _ {A : Type 0} (s : SkipList A) (good bad : Cells A) (n : ℕ) (score : A) (obj : Obj)
    (trail : Trail) (v : Represents s (good ++ bad))
    (reached : (j : ℕ) → j < s.level → Reached s.header good j (trail j)) (pos : 1 ≤ n)
    (le : n ≤ max_level) (small : suc (length (good ++ bad)) < 2 ^ 32) where
  -- The new entry stands at the next address that memory gives.
  abbrev pub new_cell : Cell A
  new_cell = record { at = s.fresh; score = score; obj = obj; height = n }

  pub record Inserted : Type 0 where
    pub after : SkipList A
    pub runs : insert_node n score obj (end_of s.header good) (length good) trail s ≡ some after
    pub represents : Represents after (good ++ (new_cell ∷ bad))

  new_tail :
      (ys : Cells A)
      → s.tail ≡ prev_of (good ++ ys)
      → tail_with s.fresh s.tail ys ≡ prev_of (good ++ (new_cell ∷ ys))
  new_tail [] e = sym (prev_of-cell good new_cell)
  new_tail (c ∷ cs) e = e ∙ sym (prev_of-behind good cs new_cell c)

  prev_if :
      (d : Cells A) (a : Address)
      → Distinct a (d ++ bad)
      → (if end_of a d == a then none else some (end_of a d)) ≡ prev_of d
  prev_if [] a w = ground arith
  prev_if (c ∷ d) a w =
      let other = end_of-Absent a c d (w.0, (Absent-append a d bad w.1).0) in ground (arith, other)

  prev_node :
      (if end_of s.header good == s.header then none else some (end_of s.header good))
      ≡ prev_of good
  prev_node = prev_if good s.header v.apart.distinct

  pub insert_node_lem : Inserted
  unfolding insert_node
  insert_node_lem =
      let xs = good ++ bad in
      let r =
        raise_lem s.header xs (omega (arith, small)) s.heap s.level (n - s.level) trail good bad
          refl (omega (arith, v.linked.at_most)) v.linked reached in
      let top = s.level + (n - s.level) in
      let g =
        grow_lem r.heap_left s.header top good bad new_cell r.trail_left r.linked v.apart r.reached
          small (omega arith) (s.memory s.fresh) in
      let b =
        back_lem r.heap_left s.header top good bad new_cell r.trail_left r.linked v.apart r.reached
          g.after (s.memory s.fresh) g.levels g.infos_same in
      let linked =
        splice_lem r.heap_left s.header top good bad new_cell r.trail_left r.linked v.apart
          r.reached b.after b.spliced pos (omega arith) in
      let last = tail_with s.fresh s.tail bad in
      let after : SkipList A = record {
        memory = s.memory;
        heap = b.after;
        fresh = suc s.fresh;
        header = s.header;
        tail = last;
        length = add64 s.length 1;
        level = if ltb s.level n then n else s.level;
      } in
      let base : SkipList A = record s {
        heap = b.first;
        fresh = suc s.fresh;
        length = length xs;
        level = if ltb s.level n then n else s.level;
      } in
      let counted : Option (SkipList A) → Option (SkipList A) =
        λ o. o >>= λ t. some (record t { length = add64 (length xs) 1 }) in
      let first = b.next_is ∙ g.levels.new_level 0 pos in
      let untouched : s.level - n ≡ top - n = omega arith in
      record {
        after = after;
        runs =
            rw (v.count, r.runs, g.links, untouched, g.widens, prev_node, b.sets, first)
              (ap counted (b.links base refl));
        represents = record {
          linked =
              subst (λ k. Linked b.after s.header k (good ++ (new_cell ∷ bad))) (ground arith)
                linked;
          apart = Apart-insert s.header s.fresh good bad new_cell refl v.apart;
          count =
              omega (
                arith,
                v.count,
                small,
                length-append good bad,
                length-append good (new_cell ∷ bad),
              );
          last = new_tail bad v.last;
          small = omega (arith, small, length-append good bad, length-append good (new_cell ∷ bad));
        };
      }
