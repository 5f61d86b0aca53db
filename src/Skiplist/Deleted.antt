-- ===== src/Skiplist/Deleted.antt =====
-- `slDeleteNode` and `slFreeNode`.
use quick.Prelude.{
  append_assoc, append-nil, ℕ, ◌^◌, ◌<◌, ◌≡◌, ◌≢◌, refl, sym, subst, ap, ◌∙◌, Option, none, some,
  [], ◌∷◌, ◌++◌, length, length-append, arith, ◌>>=◌,
}
use quick.Skiplist.Spliced.{NotFirst}
use quick.Skiplist.Splits.{prev_of-behind}
use quick.Skiplist.Nodes.{write, set_backward, Address, Heap, SkipList, sub64}
use quick.Skiplist.Search.{Trail}
use quick.Skiplist.Delete.{lower, delete_node, unlink_back, free_node}
use quick.Skiplist.Cells.{
  end_of, Heights, Heights-split, Cell, Cells, Info, next_at, prev_of, Linked,
}
use quick.Skiplist.Apart.{Distinct}
use quick.Skiplist.Walk.{Reached}
use quick.Skiplist.State.{Represents}
use quick.Skiplist.Memory.{write-other, node_of, set_backward-runs}
use quick.Skiplist.Trails.{Linked-elsewhere, Apart-remove, removed-Absent}
use quick.Skiplist.Unlinking.{lower_lem}
use quick.Skiplist.Removed.{Removed, remove_lem, PointsBack}
use quick.Skiplist.Deleting.{LevelsCut, unlink_levels}

-- The tail is the node before if no node stands behind.
abbrev tail_without : {A : Type 0} → Option Address → Option Address → Cells A → Option Address
tail_without back tail [] = back
tail_without back tail (e ∷ es) = tail

module _ {A : Type 0} (h : Heap A) (header n : ℕ) (good bad : Cells A) (c : Cell A) (trail : Trail)
    (v : Linked h header n (good ++ (c ∷ bad))) (distinct : Distinct header (good ++ (c ∷ bad)))
    (reached : (j : ℕ) → j < n → Reached header good j (trail j))
    (small : length (good ++ (c ∷ bad)) < 2 ^ 32)
    (t : LevelsCut h header n good bad c trail v distinct reached small) where
  record Unbacked : Type 0 where
    after : Heap A
    runs :
        (s : SkipList A)
        → s.heap ≡ t.after
        → unlink_back (prev_of good) (next_at 0 bad) s
          ≡ some (record s { heap = after; tail = tail_without (prev_of good) s.tail bad })
    removed : Removed h header n good bad c v distinct after

  unback_end : bad ≡ [] → Unbacked
  unback_end back = record {
    after = t.after;
    runs = λ s e. rw back (ap (λ m. some (record s { heap = m; tail = prev_of good })) e);
    removed = record {
      before_level = t.before_level;
      other_level = t.other_level;
      next_info = subst (λ ys. PointsBack t.after (prev_of good) ys) (sym back) tt;
      other_info = λ q nf. t.infos_same q;
    };
  }

  unback_next : (e : Cell A) (es : Cells A) → bad ≡ e ∷ es → Unbacked
  unback_next e es back =
      let d = good ++ (c ∷ []) in
      let old : good ++ (c ∷ bad) ≡ d ++ (e ∷ es) =
        ap (λ ys. good ++ (c ∷ ys)) back ∙ sym (append_assoc good (c ∷ []) (e ∷ es)) in
      let held = t.infos_same e.at ∙ v.infos d e es old in
      let f =
        set_backward-runs t.after e.at (prev_of good) (prev_of d) (some e.obj) e.score e.height
          held in
      record {
        after = f.after;
        runs = λ s same.
            let sets : set_backward e.at (prev_of good) s.heap ≡ some f.after =
              ap (λ m. set_backward e.at (prev_of good) m) same ∙ f.runs in
            let pos = (Heights-split n d (e ∷ es) (subst (λ ys. Heights n ys) old v.heights)).1 in
            let nexts : next_at 0 bad ≡ some e.at = ap (next_at 0) back ∙ ground (arith, pos.0) in
            let tails : tail_without (prev_of good) s.tail bad ≡ s.tail =
              ap (tail_without (prev_of good) s.tail) back in
            rw (nexts, tails, sets) refl;
        removed = record {
          before_level = λ j front rest lt split low tall.
              f.levels_same (end_of header front) j ∙ t.before_level j front rest lt split low tall;
          other_level = λ q j off. f.levels_same q j ∙ t.other_level q j off;
          next_info =
              subst (λ ys. PointsBack f.after (prev_of good) ys) (sym back)
                (f.infos_are e.at ∙ ground arith);
          other_info = λ q nf.
              let apart_next : q ≢ e.at = subst (λ ys. NotFirst q ys) back nf in
              f.infos_are q ∙ ground (arith, apart_next, t.infos_same q);
        };
      }

  unback_cases : (ys : Cells A) → bad ≡ ys → Unbacked
  unback_cases [] back = unback_end back
  unback_cases (e ∷ es) back = unback_next e es back

  unback_lem : Unbacked
  unback_lem = unback_cases bad refl

module _ {A : Type 0} (s : SkipList A) (good bad : Cells A) (c : Cell A) (trail : Trail)
    (v : Represents s (good ++ (c ∷ bad)))
    (reached : (j : ℕ) → j < s.level → Reached s.header good j (trail j)) where
  old_tail :
      (ys : Cells A)
      → s.tail ≡ prev_of (good ++ (c ∷ ys))
      → tail_without (prev_of good) s.tail ys ≡ prev_of (good ++ ys)
  old_tail [] e = ap prev_of (sym (append-nil good))
  old_tail (a ∷ ys) e = e ∙ prev_of-behind good ys c a

  pub record Deleted : Type 0 where
    pub after : SkipList A
    pub runs : delete_node c.at trail s ≡ some after
    pub represents : Represents (free_node c.at after) (good ++ bad)

  pub delete_node_lem : Deleted
  unfolding delete_node
  delete_node_lem =
      let l = v.linked in
      let t =
        unlink_levels s.heap s.header s.level good bad c trail l v.apart.distinct reached v.small in
      let b =
        unback_lem s.heap s.header s.level good bad c trail l v.apart.distinct reached v.small t in
      let linked =
        remove_lem s.heap s.header s.level good bad c l v.apart.distinct b.after b.removed in
      let low = lower_lem b.after s.header (good ++ bad) s.level linked in
      let pos = (Heights-split s.level good (c ∷ bad) l.heights).1.0 in
      let m =
        node_of t.after c.at (some c.obj, c.score, prev_of good, c.height)
          (t.infos_same c.at ∙ l.infos good c bad refl) in
      let back_of : Info A → Option Address = λ (o, k, q, j). q in
      let backs : m.node.backward ≡ prev_of good = ap back_of m.parts in
      let first = t.first_level pos in
      let base : SkipList A = record s { heap = t.after } in
      let finish : SkipList A → Option (SkipList A) = λ u. lower u.heap u.header u.level >>= λ k.
      some (record u { level = k; length = sub64 u.length 1 }) in
      let last = tail_without (prev_of good) s.tail bad in
      let after : SkipList A = record s {
        heap = b.after;
        tail = last;
        level = low.left;
        length = sub64 s.length 1;
      } in
      let finished : finish (record s { heap = b.after; tail = last }) ≡ some after =
        rw (low.runs) refl in
      let away = removed-Absent s.header good bad c v.apart.distinct in
      record {
        after = after;
        runs =
            rw (t.runs, m.found, first, backs)
              (ap (λ o. o >>= finish) (b.runs base refl) ∙ finished);
        represents = record {
          linked =
              Linked-elsewhere b.after (write b.after c.at none) s.header c.at low.left
                (good ++ bad) (λ q ne. write-other b.after c.at none q ne) away.0 away.1 low.linked;
          apart = Apart-remove s.header s.fresh good bad c v.apart;
          count =
              omega (arith, v.count, v.small, length-append good bad, length-append good (c ∷ bad));
          last = old_tail bad v.last;
          small = omega (arith, v.small, length-append good bad, length-append good (c ∷ bad));
        };
      }
