-- ===== src/Skiplist/Backing.antt =====
-- The links back, which `slInsert` sets last.
use quick.Prelude.{
  append_assoc, ℕ, ◌<◌, ◌≡◌, ◌≢◌, refl, sym, subst, ap, ◌∙◌, Option, some, [], ◌∷◌, ◌++◌, arith,
}
use quick.Skiplist.Nodes.{Garbage, set_backward, Address, Heap, SkipList, get_level}
use quick.Skiplist.Search.{Trail}
use quick.Skiplist.Insert.{link_back}
use quick.Skiplist.Cells.{
  Heights, Heights-split, Cell, Cells, next_at, end_of, prev_of, Linked, info,
}
use quick.Skiplist.Apart.{Apart}
use quick.Skiplist.Walk.{Reached}
use quick.Skiplist.Splits.{end_of-cell}
use quick.Skiplist.Memory.{BackwardSet, info-create, set_backward-runs}
use quick.Skiplist.Spliced.{NotFirst, FirstBack, Leveled, Spliced, end_of-old}
use quick.Skiplist.Leveling.{grown}

-- The tail is the new node `x` if none stands behind it.
abbrev pub tail_with : {A : Type 0} → Address → Option Address → Cells A → Option Address
tail_with x tail [] = some x
tail_with x tail (e ∷ es) = tail

module _ {A : Type 0} (h : Heap A) (header n : ℕ) (good bad : Cells A) (c : Cell A) (trail : Trail)
    (v : Linked h header n (good ++ bad)) (apart : Apart header c.at (good ++ bad))
    (reached : (j : ℕ) → j < n → Reached header good j (trail j)) where
  Leveled-same :
      (g g' : Heap A)
      → ((q : Address) (j : ℕ) → get_level g' q j ≡ get_level g q j)
      → Leveled h header n good bad c trail v apart reached g
      → Leveled h header n good bad c trail v apart reached g'
  Leveled-same g g' same t = record {
    new_level = λ j lt. same c.at j ∙ t.new_level j lt;
    before_level = λ j front rest lt split low tall.
        same (end_of header front) j ∙ t.before_level j front rest lt split low tall;
    other_level = λ q j ne off. same q j ∙ t.other_level q j ne off;
  }

  pub record Backed (g : Heap A) : Type 0 where
    pub first : Heap A
    pub after : Heap A
    pub sets : set_backward c.at (prev_of good) g ≡ some first
    pub links :
        (s : SkipList A)
        → s.heap ≡ first
        → link_back c.at (next_at 0 bad) s
          ≡ some (record s { heap = after; tail = tail_with c.at s.tail bad })
    pub spliced : Spliced h header n good bad c trail v apart reached after
    pub next_is : get_level first c.at 0 ≡ get_level g c.at 0

  module _ (g : Heap A) (raw : Garbage)
      (levels : Leveled h header n good bad c trail v apart reached g)
      (infos : (q : Address) → info g q ≡ info (grown h raw c) q) where
    other_grown : (q : Address) → q ≢ c.at → info g q ≡ info h q
    other_grown q ne =
        infos q ∙ info-create h c.at raw c.height c.score (some c.obj) q ∙ ground (arith, ne)

    new_grown : info g c.at ≡ some (some c.obj, c.score, raw.backward, c.height)
    new_grown =
        infos c.at ∙ info-create h c.at raw c.height c.score (some c.obj) c.at ∙ ground arith

    backward_set : BackwardSet g c.at (prev_of good) (some c.obj) c.score c.height
    backward_set =
        set_backward-runs g c.at (prev_of good) raw.backward (some c.obj) c.score c.height new_grown

    back_end : bad ≡ [] → Backed g
    back_end back =
        let b = backward_set in
        record {
          first = b.after;
          after = b.after;
          sets = b.runs;
          links = λ s e. rw back (ap (λ m. some (record s { heap = m; tail = some c.at })) e);
          spliced = record {
            levels = Leveled-same g b.after b.levels_same levels;
            new_info = b.infos_are c.at ∙ ground arith;
            next_info = subst (λ ys. FirstBack b.after c.at ys) (sym back) tt;
            other_info = λ q ne nf. b.infos_are q ∙ ground (arith, ne, other_grown q ne);
          };
          next_is = b.levels_same c.at 0;
        }

    back_next : (e : Cell A) (es : Cells A) → bad ≡ e ∷ es → Backed g
    back_next e es back =
        let b = backward_set in
        let old : good ++ bad ≡ good ++ (e ∷ es) = ap (λ ys. good ++ ys) back in
        let ne : e.at ≢ c.at = λ same.
          end_of-old h header n good bad c trail v apart reached (good ++ (e ∷ [])) es
            (old ∙ sym (append_assoc good (e ∷ []) es)) (end_of-cell header good e ∙ same) in
        let held : info b.after e.at ≡ some (some e.obj, e.score, prev_of good, e.height) =
          b.infos_are e.at ∙ ground (arith, ne) ∙ other_grown e.at ne ∙ v.infos good e es old in
        let f =
          set_backward-runs b.after e.at (some c.at) (prev_of good) (some e.obj) e.score e.height
            held in
        record {
          first = b.after;
          after = f.after;
          sets = b.runs;
          links = λ s same.
              let sets : set_backward e.at (some c.at) s.heap ≡ some f.after =
                ap (λ m. set_backward e.at (some c.at) m) same ∙ f.runs in
              let pos =
                (Heights-split n good (e ∷ es) (subst (λ ys. Heights n ys) old v.heights)).1 in
              let nexts : next_at 0 bad ≡ some e.at = ap (next_at 0) back ∙ ground (arith, pos.0) in
              let tails : tail_with c.at s.tail bad ≡ s.tail = ap (tail_with c.at s.tail) back in
              rw (nexts, tails, sets) refl;
          spliced = record {
            levels = Leveled-same g f.after (λ q j. f.levels_same q j ∙ b.levels_same q j) levels;
            new_info = f.infos_are c.at ∙ ground (arith, ne) ∙ b.infos_are c.at ∙ ground arith;
            next_info =
                subst (λ ys. FirstBack f.after c.at ys) (sym back)
                  (f.infos_are e.at ∙ ground arith);
            other_info = λ q neq nf.
                let apart_next : q ≢ e.at = subst (λ ys. NotFirst q ys) back nf in
                f.infos_are q
                ∙ ground (arith, apart_next)
                ∙ b.infos_are q
                ∙ ground (arith, neq, other_grown q neq);
          };
          next_is = b.levels_same c.at 0;
        }

    back_cases : (ys : Cells A) → bad ≡ ys → Backed g
    back_cases [] back = back_end back
    back_cases (e ∷ es) back = back_next e es back

    pub back_lem : Backed g
    back_lem = back_cases bad refl
