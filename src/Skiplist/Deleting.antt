-- ===== src/Skiplist/Deleting.antt =====
-- `slDeleteNode` for a node that stands behind the nodes of the walk.
use quick.Prelude.{
  ℕ, suc, ◌+◌, ◌^◌, ◌≤◌, ◌<◌, ◌≡◌, ◌≢◌, refl, sym, subst, ap, ap₂, ◌∙◌, some, [], ◌∷◌, ◌++◌, length,
  length-append, arith, inl, inr, append_assoc, append-nil, true, false, Bool-cases, ltb, ◌==◌,
}
use quick.Skiplist.Nodes.{Address, level, Heap, max_level, get_level, add32, sub32}
use quick.Skiplist.Search.{Trail}
use quick.Skiplist.Delete.{unlink, points_to}
use quick.Skiplist.Cells.{
  end_of-append, gap_at-append-Low, next_at-Low, next_at-append-Low, height_of-append, Cell, Cells,
  next_at, gap_at, end_of, height_of, Low, find-First, Linked, info,
}
use quick.Skiplist.Apart.{Distinct}
use quick.Skiplist.Walk.{Reached}
use quick.Skiplist.Splits.{next_at-First, gap_at-le, end_of-cell}
use quick.Skiplist.Linking.{Place}
use quick.Skiplist.Trails.{reached_entry, reached_off}
use quick.Skiplist.Unlinking.{cut_level, Cuttable, unlink_lem}
use quick.Skiplist.Removed.{with_rest, same_place}

-- A span of `r + 1` and one of `g` joined.
join_spans : (r g : ℕ) → r + g < 2 ^ 32 → add32 (r + 1) (sub32 g 1) ≡ r + g
join_spans r g lt = omega arith

module _ {A : Type 0} (h : Heap A) (header n : ℕ) (good bad : Cells A) (c : Cell A) (trail : Trail)
    (v : Linked h header n (good ++ (c ∷ bad))) (distinct : Distinct header (good ++ (c ∷ bad)))
    (reached : (j : ℕ) → j < n → Reached header good j (trail j))
    (small : length (good ++ (c ∷ bad)) < 2 ^ 32) where
  at_node : good ++ (c ∷ bad) ≡ (good ++ (c ∷ [])) ++ bad
  at_node = sym (append_assoc good (c ∷ []) bad)

  -- The node is not one of those in front of it, nor one of those behind.
  front_other : (front rest : Cells A) → good ≡ front ++ rest → end_of header front ≢ c.at
  front_other front rest split e = omega (
    arith,
    same_place h header n good bad c v distinct front (rest ++ (c ∷ bad)) (good ++ (c ∷ [])) bad
        (with_rest h header n good bad c v distinct front rest split) at_node
        (e ∙ sym (end_of-cell header good c)),
    length-append good (c ∷ []),
    ap length split,
    length-append front rest,
  )

  next_other : (j : ℕ) → points_to (next_at j bad) c.at ≡ false
  next_other j = elim (find-First j bad) [
    | inl low ↦ ap (λ f. points_to f c.at) (next_at-Low j bad low)
    | inr t ↦
        let next : next_at j bad ≡ some t.cell.at =
          ap (next_at j) (sym (append-nil bad)) ∙ next_at-First j bad [] t in
        let front = good ++ (c ∷ (t.before ++ (t.cell ∷ []))) in
        let split : good ++ (c ∷ bad) ≡ front ++ t.behind =
          ap (λ ys. good ++ (c ∷ ys)) (t.split ∙ sym (append_assoc t.before (t.cell ∷ []) t.behind))
          ∙ sym (append_assoc good (c ∷ (t.before ++ (t.cell ∷ []))) t.behind) in
        let ends : end_of header front ≡ t.cell.at =
          end_of-append header good (c ∷ (t.before ++ (t.cell ∷ [])))
          ∙ end_of-cell c.at t.before t.cell in
        let other : t.cell.at ≢ c.at = λ e. omega (
          arith,
          same_place h header n good bad c v distinct front t.behind (good ++ (c ∷ [])) bad split
              at_node (ends ∙ e ∙ sym (end_of-cell header good c)),
          length-append good (c ∷ []),
          length-append good (c ∷ (t.before ++ (t.cell ∷ []))),
          length-append t.before (t.cell ∷ []),
        ) in
        ap (λ f. points_to f c.at) next ∙ ground (arith, other)
  ]

  node_level :
      (j : ℕ)
      → j < n
      → j < c.height
      → get_level h c.at j ≡ some (level (next_at j bad) (gap_at j bad))
  node_level j lt tall =
      ap (λ q. get_level h q j) (sym (end_of-cell header good c))
      ∙ v.links (good ++ (c ∷ [])) bad j at_node lt
          (subst (λ k. j < k) (sym (height_of-append max_level good (c ∷ []))) tall)

  -- What becomes of the level of a node in front of it.
  cut_is :
      (j : ℕ) (front rest : Cells A)
      → j < n
      → good ≡ front ++ rest
      → Low j rest
      → cut_level c.at h j (level (next_at j (rest ++ (c ∷ bad))) (gap_at j (rest ++ (c ∷ bad))))
        ≡ some (level (next_at j (rest ++ bad)) (gap_at j (rest ++ bad)))
  unfolding cut_level
  cut_is j front rest lt split low =
      let next = next_at-append-Low j rest (c ∷ bad) low in
      let gap = gap_at-append-Low j rest (c ∷ bad) low in
      let new_next = next_at-append-Low j rest bad low in
      let new_gap = gap_at-append-Low j rest bad low in
      let bound = gap_at-le j bad in
      let size = ap length split ∙ length-append front rest in
      let sizes = length-append good (c ∷ bad) in
      elim (Bool-cases (ltb j c.height)) [
        | inl tall ↦
            let here : next_at j (rest ++ (c ∷ bad)) ≡ some c.at = next ∙ rw tall refl in
            let span : gap_at j (rest ++ (c ∷ bad)) ≡ length rest + 1 = gap ∙ rw tall refl in
            let points : (c.at == c.at) ≡ true = ground arith in
            let spans : add32 (length rest + 1) (sub32 (gap_at j bad) 1) ≡ gap_at j (rest ++ bad) =
              join_spans (length rest) (gap_at j bad) (omega (arith, bound, size, sizes))
              ∙ sym new_gap in
            rw (here, span, points, node_level j lt (ground arith))
              (ap₂ (λ f k. some (level f k)) (sym new_next) spans)
        | inr short ↦
            let here : next_at j (rest ++ (c ∷ bad)) ≡ next_at j bad = next ∙ rw short refl in
            let span : gap_at j (rest ++ (c ∷ bad)) ≡ length rest + suc (gap_at j bad) =
              gap ∙ rw short refl in
            let spans : sub32 (length rest + suc (gap_at j bad)) 1 ≡ gap_at j (rest ++ bad) =
              omega (arith, bound, size, sizes, new_gap) in
            rw (here, span, next_other j) (ap₂ (λ f k. some (level f k)) (sym new_next) spans)
      ]

  place_at :
      (j : ℕ) (front rest : Cells A)
      → j < n
      → good ≡ front ++ rest
      → Low j rest
      → j < height_of max_level front
      → Place trail h j
          (end_of header front)
          (length front)
          (level (next_at j (rest ++ (c ∷ bad))) (gap_at j (rest ++ (c ∷ bad))))
  place_at j front rest lt split low tall = record {
    entry = reached_entry header good j trail (reached j lt) front rest split low tall;
    holds =
        v.links front (rest ++ (c ∷ bad)) j
          (with_rest h header n good bad c v distinct front rest split) lt tall;
  }

  cuttable : (j : ℕ) → j < n → Cuttable trail c.at h j
  cuttable j lt =
      let r = reached j lt in
      record {
        node = end_of header r.front;
        rank = length r.front;
        old = level (next_at j (r.rest ++ (c ∷ bad))) (gap_at j (r.rest ++ (c ∷ bad)));
        new = level (next_at j (r.rest ++ bad)) (gap_at j (r.rest ++ bad));
        place = place_at j r.front r.rest lt r.split r.low r.tall;
        cut_is = cut_is j r.front r.rest lt r.split r.low;
        apart = front_other r.front r.rest r.split;
      }

  -- What the first loop leaves.
  pub record LevelsCut : Type 0 where
    pub after : Heap A
    pub runs : unlink n 0 c.at trail h ≡ some after
    pub before_level :
        (j : ℕ) (front rest : Cells A)
        → j < n
        → good ≡ front ++ rest
        → Low j rest
        → j < height_of max_level front
        → get_level after (end_of header front) j
          ≡ some (level (next_at j (rest ++ bad)) (gap_at j (rest ++ bad)))
    pub other_level :
        (q : Address) (j : ℕ)
        → ((front rest : Cells A)
            → j < n
            → good ≡ front ++ rest
            → Low j rest
            → j < height_of max_level front
            → q ≢ end_of header front)
        → get_level after q j ≡ get_level h q j
    pub infos_same : (q : Address) → info after q ≡ info h q
    pub first_level :
        1 ≤ c.height → get_level after c.at 0 ≡ some (level (next_at 0 bad) (gap_at 0 bad))

  pub unlink_levels : LevelsCut
  unlink_levels =
      let u = unlink_lem trail c.at h 0 n (λ j le lt. cuttable j (omega arith)) in
      let others : (q : Address) (j : ℕ)
          → ((front rest : Cells A)
              → j < n
              → good ≡ front ++ rest
              → Low j rest
              → j < height_of max_level front
              → q ≢ end_of header front)
          → get_level u.after q j ≡ get_level h q j =
        λ q j off. elim (Bool-cases (ltb j n)) [
          | inl inside ↦
              let lt : j < n = ground arith in
              u.other_node q j (
                reached_off header good j trail (reached j lt) q
                  (λ front rest split low tall. off front rest lt split low tall))
          | inr outside ↦ u.other_level q j (inr (ground arith))
        ] in
      record {
        after = u.after;
        runs = u.runs;
        before_level = λ j front rest lt split low tall.
            u.changed j (end_of header front) (length front)
              (level (next_at j (rest ++ (c ∷ bad))) (gap_at j (rest ++ (c ∷ bad))))
              (level (next_at j (rest ++ bad)) (gap_at j (rest ++ bad))) (omega arith) (omega arith)
              (place_at j front rest lt split low tall) (cut_is j front rest lt split low);
        other_level = others;
        infos_same = u.infos_same;
        first_level = λ pos.
            others c.at 0 (λ front rest lt split low tall e. front_other front rest split (sym e))
            ∙ node_level 0 (omega (arith, v.at_least)) pos;
      }
