-- ===== src/Skiplist/Removed.antt =====
-- A node taken out of a list of skiplist.c: where the levels of the nodes before it and what the
-- next node holds are as they should be, the list without the entry stands in memory.
use quick.Prelude.{
  ℕ, suc, ◌<◌, ◌≡◌, ◌≢◌, refl, sym, subst, ap, ap₂, ◌∙◌, Option, some, [], ◌∷◌, ◌++◌, length,
  length-append, arith, inl, inr, append_assoc, append-nil,
}
use quick.Skiplist.Nodes.{Address, level, Heap, max_level, get_level}
use quick.Skiplist.Cells.{
  Cell, Cells, next_at, gap_at, end_of, height_of, Low, find-First, prev_of, Linked, info,
  Heights-split, Heights-append, end_of-append, height_of-append,
}
use quick.Skiplist.Apart.{end_of-injective, Distinct}
use quick.Skiplist.Splits.{
  append_cases, front_unique, append_cancel, next_at-First, gap_at-First, First-Low, end_of-cell,
  prev_of-behind,
}
use quick.Skiplist.Spliced.{NotFirst}

-- The next node points back to `back`.
abbrev pub PointsBack : {A : Type 0} → Heap A → Option Address → Cells A → Type 0
PointsBack g back [] = Unit
PointsBack g back (e ∷ es) = info g e.at ≡ some (some e.obj, e.score, back, e.height)

module _ {A : Type 0} (h : Heap A) (header n : ℕ) (good bad : Cells A) (c : Cell A)
    (v : Linked h header n (good ++ (c ∷ bad)))
    (distinct : Distinct header (good ++ (c ∷ bad))) where
  pub record Removed (g : Heap A) : Type 0 where
    pub before_level :
        (j : ℕ) (front rest : Cells A)
        → j < n
        → good ≡ front ++ rest
        → Low j rest
        → j < height_of max_level front
        → get_level g (end_of header front) j
          ≡ some (level (next_at j (rest ++ bad)) (gap_at j (rest ++ bad)))
    pub other_level :
        (q : Address) (j : ℕ)
        → ((front rest : Cells A)
            → j < n
            → good ≡ front ++ rest
            → Low j rest
            → j < height_of max_level front
            → q ≢ end_of header front)
        → get_level g q j ≡ get_level h q j
    pub next_info : PointsBack g (prev_of good) bad
    pub other_info : (q : Address) → NotFirst q bad → info g q ≡ info h q

  pub same_place :
      (d r d' r' : Cells A)
      → good ++ (c ∷ bad) ≡ d ++ r
      → good ++ (c ∷ bad) ≡ d' ++ r'
      → end_of header d ≡ end_of header d'
      → length d ≡ length d'
  same_place d r d' r' split split' e =
      end_of-injective header d r d' r' (subst (λ ys. Distinct header ys) split distinct)
        (sym split ∙ split') e

  pub with_rest : (d m : Cells A) → good ≡ d ++ m → good ++ (c ∷ bad) ≡ d ++ (m ++ (c ∷ bad))
  with_rest d m split = ap (λ ys. ys ++ (c ∷ bad)) split ∙ append_assoc d m (c ∷ bad)

  with_front :
      (e : Cell A) (m r : Cells A)
      → bad ≡ e ∷ (m ++ r)
      → good ++ (c ∷ bad) ≡ (good ++ (c ∷ (e ∷ m))) ++ r
  with_front e m r split =
      ap (λ ys. good ++ (c ∷ ys)) split ∙ sym (append_assoc good (c ∷ (e ∷ m)) r)

  end_of-NotFirst :
      (d r ys : Cells A)
      → good ++ (c ∷ bad) ≡ d ++ r
      → length d ≢ suc (suc (length good))
      → bad ≡ ys
      → NotFirst (end_of header d) ys
  end_of-NotFirst d r [] split ne back = tt
  end_of-NotFirst d r (b ∷ ys) split ne back = λ same.
      let len =
        same_place d r (good ++ (c ∷ (b ∷ []))) ys split (with_front b [] ys back)
          (same ∙ sym (end_of-append header good (c ∷ (b ∷ [])))) in
      ne (omega (arith, len, length-append good (c ∷ (b ∷ []))))

  cell-NotFirst :
      (d r : Cells A) (e : Cell A)
      → good ++ (c ∷ bad) ≡ d ++ (e ∷ r)
      → length d ≢ suc (length good)
      → NotFirst e.at bad
  cell-NotFirst d r e split ne =
      subst (λ q. NotFirst q bad) (end_of-cell header d e)
        (end_of-NotFirst (d ++ (e ∷ [])) r bad (split ∙ sym (append_assoc d (e ∷ []) r))
          (λ len. ne (omega (arith, len, length-append d (e ∷ [])))) refl)

  module _ (g : Heap A) (t : Removed g) where
    front_link :
        (d m : Cells A) (j : ℕ)
        → good ≡ d ++ m
        → j < n
        → j < height_of max_level d
        → get_level g (end_of header d) j
          ≡ some (level (next_at j (m ++ bad)) (gap_at j (m ++ bad)))
    front_link d m j split lt tall = elim (find-First j m) [
      | inl low ↦ t.before_level j d m lt split low tall
      | inr f ↦
          t.other_level (end_of header d) j (λ front rest lt' split' low' tall' e.
            let len =
              same_place d (m ++ (c ∷ bad)) front (rest ++ (c ∷ bad)) (with_rest d m split)
                (with_rest front rest split') e in
            let fronts = front_unique d m front rest (sym split ∙ split') len in
            let rests =
              append_cancel d m rest (sym split ∙ split' ∙ ap (λ ys. ys ++ rest) (sym fronts)) in
            First-Low j m f (subst (λ ys. Low j ys) (sym rests) low'))
          ∙ v.links d (m ++ (c ∷ bad)) j (with_rest d m split) lt tall
          ∙ ap some (
              ap₂ level (next_at-First j m (c ∷ bad) f ∙ sym (next_at-First j m bad f))
                (gap_at-First j m (c ∷ bad) f ∙ sym (gap_at-First j m bad f)))
    ]

    back_link :
        (e : Cell A) (m r : Cells A) (j : ℕ)
        → bad ≡ e ∷ (m ++ r)
        → j < n
        → j < height_of e.height m
        → get_level g (end_of e.at m) j ≡ some (level (next_at j r) (gap_at j r))
    back_link e m r j split lt tall =
        let d = good ++ (c ∷ (e ∷ m)) in
        let split' = with_front e m r split in
        let ends : end_of header d ≡ end_of e.at m = end_of-append header good (c ∷ (e ∷ m)) in
        let heights : height_of max_level d ≡ height_of e.height m =
          height_of-append max_level good (c ∷ (e ∷ m)) in
        ap (λ q. get_level g q j) (sym ends)
        ∙ t.other_level (end_of header d) j (λ front rest lt1 split1 low1 tall1 same. omega (
          arith,
          same_place d r front (rest ++ (c ∷ bad)) split' (with_rest front rest split1) same,
          length-append good (c ∷ (e ∷ m)),
          ap length split1,
          length-append front rest,
        ))
        ∙ v.links d r j split' lt (omega (arith, tall, heights))

    remove_links :
        (d r : Cells A) (j : ℕ)
        → good ++ bad ≡ d ++ r
        → j < n
        → j < height_of max_level d
        → get_level g (end_of header d) j ≡ some (level (next_at j r) (gap_at j r))
    remove_links d r j split lt tall = elim (append_cases good bad d r split) [
      | inl f ↦
          front_link d f.middle j f.front_is lt tall
          ∙ ap (λ ys. some (level (next_at j ys) (gap_at j ys))) (sym f.back_is)
      | inr b ↦
          let ends : end_of header d ≡ end_of b.cell.at b.middle =
            ap (end_of header) b.front_is ∙ end_of-append header good (b.cell ∷ b.middle) in
          let heights : height_of max_level d ≡ height_of b.cell.height b.middle =
            ap (height_of max_level) b.front_is
            ∙ height_of-append max_level good (b.cell ∷ b.middle) in
          ap (λ q. get_level g q j) ends
          ∙ back_link b.cell b.middle r j b.back_is lt (omega (arith, tall, heights))
    ]

    front_info :
        (d m r : Cells A) (e : Cell A)
        → good ≡ d ++ m
        → e ∷ r ≡ m ++ bad
        → info g e.at ≡ some (some e.obj, e.score, prev_of d, e.height)
    front_info d [] r e whole back =
        let same : d ≡ good = sym (whole ∙ append-nil d) in
        subst (λ ys. PointsBack g (prev_of good) ys) (sym back) t.next_info
        ∙ ap (λ ys. some (some e.obj, e.score, prev_of ys, e.height)) (sym same)
    front_info d (a ∷ m) r e whole back =
        let head : e ≡ a = cc in
        let old : good ++ (c ∷ bad) ≡ d ++ (e ∷ (m ++ (c ∷ bad))) =
          with_rest d (a ∷ m) whole ∙ ap (λ x. d ++ (x ∷ (m ++ (c ∷ bad)))) (sym head) in
        t.other_info e.at (
          cell-NotFirst d (m ++ (c ∷ bad)) e old
            (λ len. omega (arith, len, ap length whole, length-append d (a ∷ m))))
        ∙ v.infos d e (m ++ (c ∷ bad)) old

    back_info :
        (a e : Cell A) (m r : Cells A)
        → bad ≡ a ∷ (m ++ (e ∷ r))
        → info g e.at ≡ some (some e.obj, e.score, prev_of (good ++ (a ∷ m)), e.height)
    back_info a e m r split =
        let d = good ++ (c ∷ (a ∷ m)) in
        let old = with_front a m (e ∷ r) split in
        t.other_info e.at
          (cell-NotFirst d r e old (λ len. omega (arith, len, length-append good (c ∷ (a ∷ m)))))
        ∙ v.infos d e r old
        ∙ ap (λ p. some (some e.obj, e.score, p, e.height)) (prev_of-behind good m c a)

    pub remove_lem : Linked g header n (good ++ bad)
    remove_lem =
        let heights = Heights-split n good (c ∷ bad) v.heights in
        record {
          header_info = (
            v.header_info.0,
            t.other_info header
                  (end_of-NotFirst [] (good ++ (c ∷ bad)) bad refl (λ len. omega (arith, len)) refl)
                ∙ v.header_info.1,
          );
          infos = λ d e r split. elim (append_cases good bad d (e ∷ r) split) [
            | inl f ↦ front_info d f.middle r e f.front_is f.back_is
            | inr b ↦
                back_info b.cell e b.middle r b.back_is
                ∙ ap (λ ys. some (some e.obj, e.score, prev_of ys, e.height)) (sym b.front_is)
          ];
          links = remove_links;
          spare = λ j le lt.
              let old = v.spare j le lt in
              (old.0, t.other_level header j (λ front rest ltn. absurd (omega arith)) ∙ old.1);
          heights = Heights-append n good bad heights.0 heights.1.2;
          at_least = v.at_least;
          at_most = v.at_most;
        }
