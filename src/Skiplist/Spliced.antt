-- ===== src/Skiplist/Spliced.antt =====
-- A node put into a list of skiplist.c: where its levels, those of the nodes before it and what the
-- nodes hold are as they should be, the list with the new entry stands in memory.
use quick.Prelude.{
  append-nil, ℕ, suc, ◌≤◌, ◌<◌, ◌≡◌, ◌≢◌, refl, sym, subst, ap, ap₂, ◌∙◌, some, [], ◌∷◌, ◌++◌,
  length, length-append, arith, inl, inr, append_assoc,
}
use quick.Skiplist.Nodes.{Address, level, Heap, max_level, get_level}
use quick.Skiplist.Search.{Trail}
use quick.Skiplist.Cells.{
  Heights-append, Heights-split, height_of-append, end_of-append, find-First, Cell, Cells, next_at,
  gap_at, end_of, height_of, Low, prev_of, Linked, info,
}
use quick.Skiplist.Apart.{Below, Distinct, end_of-Below, Apart, end_of-injective}
use quick.Skiplist.Walk.{Reached}
use quick.Skiplist.Splits.{
  prev_of-cell, end_of-cell, prev_of-behind, gap_at-First, next_at-First, First-Low, append_cancel,
  front_unique, cut_cases,
}

-- Not the first node of the list.
abbrev pub NotFirst : {A : Type 0} → Address → Cells A → Type 0
NotFirst q [] = Unit
NotFirst q (e ∷ es) = q ≢ e.at

abbrev pub FirstBack : {A : Type 0} → Heap A → Address → Cells A → Type 0
FirstBack g x [] = Unit
FirstBack g x (e ∷ es) = info g e.at ≡ some (some e.obj, e.score, some x, e.height)

module _ {A : Type 0} (h : Heap A) (header n : ℕ) (good bad : Cells A) (c : Cell A) (trail : Trail)
    (v : Linked h header n (good ++ bad)) (apart : Apart header c.at (good ++ bad))
    (reached : (j : ℕ) → j < n → Reached header good j (trail j)) where
  pub record Leveled (g : Heap A) : Type 0 where
    pub new_level :
        (j : ℕ) → j < c.height → get_level g c.at j ≡ some (level (next_at j bad) (gap_at j bad))
    pub before_level :
        (j : ℕ) (front rest : Cells A)
        → j < n
        → good ≡ front ++ rest
        → Low j rest
        → j < height_of max_level front
        → get_level g (end_of header front) j
          ≡ some (level (next_at j (rest ++ (c ∷ bad))) (gap_at j (rest ++ (c ∷ bad))))
    pub other_level :
        (q : Address) (j : ℕ)
        → q ≢ c.at
        → ((front rest : Cells A)
            → j < n
            → good ≡ front ++ rest
            → Low j rest
            → j < height_of max_level front
            → q ≢ end_of header front)
        → get_level g q j ≡ get_level h q j

  pub record Spliced (g : Heap A) : Type 0 where
    pub levels : Leveled g
    pub new_info : info g c.at ≡ some (some c.obj, c.score, prev_of good, c.height)
    pub next_info : FirstBack g c.at bad
    pub other_info : (q : Address) → q ≢ c.at → NotFirst q bad → info g q ≡ info h q

  -- A node of the list is not the new one.
  pub end_of-old : (d r : Cells A) → good ++ bad ≡ d ++ r → end_of header d ≢ c.at
  end_of-old d r split e = omega (
    arith,
    end_of-Below header c.at d r apart.low (subst (λ ys. Below c.at ys) split apart.below),
    e,
  )

  same_length :
      (d r d' r' : Cells A)
      → good ++ bad ≡ d ++ r
      → good ++ bad ≡ d' ++ r'
      → end_of header d ≡ end_of header d'
      → length d ≡ length d'
  same_length d r d' r' split split' e =
      end_of-injective header d r d' r' (subst (λ ys. Distinct header ys) split apart.distinct)
        (sym split ∙ split') e

  pub whole_split : (d m : Cells A) → good ≡ d ++ m → good ++ bad ≡ d ++ (m ++ bad)
  whole_split d m split = ap (λ ys. ys ++ bad) split ∙ append_assoc d m bad

  module _ (g : Heap A) (t : Spliced g) where
    -- A node in front of the new one.
    front_link :
        (d m : Cells A) (j : ℕ)
        → good ≡ d ++ m
        → j < n
        → j < height_of max_level d
        → get_level g (end_of header d) j
          ≡ some (level (next_at j (m ++ (c ∷ bad))) (gap_at j (m ++ (c ∷ bad))))
    front_link d m j split lt tall = elim (find-First j m) [
      | inl low ↦ t.levels.before_level j d m lt split low tall
      | inr f ↦
          t.levels.other_level (end_of header d) j (end_of-old d (m ++ bad) (whole_split d m split))
            (λ front rest lt' split' low' tall' e.
              let len =
                same_length d (m ++ bad) front (rest ++ bad) (whole_split d m split)
                  (whole_split front rest split') e in
              let fronts = front_unique d m front rest (sym split ∙ split') len in
              let rests =
                append_cancel d m rest (sym split ∙ split' ∙ ap (λ ys. ys ++ rest) (sym fronts)) in
              First-Low j m f (subst (λ ys. Low j ys) (sym rests) low'))
          ∙ v.links d (m ++ bad) j (whole_split d m split) lt tall
          ∙ ap some (
              ap₂ level (next_at-First j m bad f ∙ sym (next_at-First j m (c ∷ bad) f))
                (gap_at-First j m bad f ∙ sym (gap_at-First j m (c ∷ bad) f)))
    ]

    -- The new node, and those behind it.
    back_link :
        (m r : Cells A) (j : ℕ)
        → bad ≡ m ++ r
        → j < n
        → j < height_of c.height m
        → get_level g (end_of c.at m) j ≡ some (level (next_at j r) (gap_at j r))
    back_link [] r j split lt tall =
        t.levels.new_level j tall ∙ ap (λ ys. some (level (next_at j ys) (gap_at j ys))) split
    back_link (e ∷ m) r j split lt tall =
        let d = good ++ (e ∷ m) in
        let split' : good ++ bad ≡ d ++ r =
          ap (λ ys. good ++ ys) split ∙ sym (append_assoc good (e ∷ m) r) in
        let ends : end_of header d ≡ end_of e.at m = end_of-append header good (e ∷ m) in
        let heights : height_of max_level d ≡ height_of e.height m =
          height_of-append max_level good (e ∷ m) in
        ap (λ q. get_level g q j) (sym ends)
        ∙ t.levels.other_level (end_of header d) j (end_of-old d r split')
            (λ front rest lt1 split1 low1 tall1 same. omega (
              arith,
              same_length d r front (rest ++ bad) split' (whole_split front rest split1) same,
              length-append good (e ∷ m),
              ap length split1,
              length-append front rest,
            ))
        ∙ v.links d r j split' lt (omega (arith, tall, heights))

    splice_links :
        (d r : Cells A) (j : ℕ)
        → good ++ (c ∷ bad) ≡ d ++ r
        → j < n
        → j < height_of max_level d
        → get_level g (end_of header d) j ≡ some (level (next_at j r) (gap_at j r))
    splice_links d r j split lt tall = elim (cut_cases good bad d r c split) [
      | inl f ↦
          front_link d f.middle j f.front_is lt tall
          ∙ ap (λ ys. some (level (next_at j ys) (gap_at j ys))) (sym f.back_is)
      | inr b ↦
          let ends : end_of header d ≡ end_of c.at b.middle =
            ap (end_of header) b.front_is ∙ end_of-append header good (c ∷ b.middle) in
          let heights : height_of max_level d ≡ height_of c.height b.middle =
            ap (height_of max_level) b.front_is ∙ height_of-append max_level good (c ∷ b.middle) in
          ap (λ q. get_level g q j) ends
          ∙ back_link b.middle r j b.back_is lt (omega (arith, tall, heights))
    ]

    cell_old : (d r : Cells A) (e : Cell A) → good ++ bad ≡ d ++ (e ∷ r) → e.at ≢ c.at
    cell_old d r e split same =
        end_of-old (d ++ (e ∷ [])) r (split ∙ sym (append_assoc d (e ∷ []) r))
          (end_of-cell header d e ∙ same)

    -- A node that does not stand where the next one does.
    end_of-NotFirst :
        (d r ys : Cells A)
        → good ++ bad ≡ d ++ r
        → length d ≢ suc (length good)
        → bad ≡ ys
        → NotFirst (end_of header d) ys
    end_of-NotFirst d r [] split ne back = tt
    end_of-NotFirst d r (b ∷ ys) split ne back =
        let split' : good ++ bad ≡ (good ++ (b ∷ [])) ++ ys =
          ap (λ zs. good ++ zs) back ∙ sym (append_assoc good (b ∷ []) ys) in
        λ same.
          let len =
            same_length d r (good ++ (b ∷ [])) ys split split'
              (same ∙ sym (end_of-cell header good b)) in
          ne (omega (arith, len, length-append good (b ∷ [])))

    cell-NotFirst :
        (d r : Cells A) (e : Cell A)
        → good ++ bad ≡ d ++ (e ∷ r)
        → length d ≢ length good
        → NotFirst e.at bad
    cell-NotFirst d r e split ne =
        subst (λ q. NotFirst q bad) (end_of-cell header d e)
          (end_of-NotFirst (d ++ (e ∷ [])) r bad (split ∙ sym (append_assoc d (e ∷ []) r))
            (λ len. ne (omega (arith, len, length-append d (e ∷ [])))) refl)

    splice_infos :
        (d r : Cells A) (e : Cell A)
        → good ++ (c ∷ bad) ≡ d ++ (e ∷ r)
        → info g e.at ≡ some (some e.obj, e.score, prev_of d, e.height)
    splice_infos d r e split = elim (cut_cases good bad d (e ∷ r) c split) [
      | inl f ↦ front f.middle f.front_is f.back_is
      | inr b ↦
          back b.middle b.back_is
          ∙ ap (λ ys. some (some e.obj, e.score, prev_of ys, e.height)) (sym b.front_is)
    ]
      where
        front :
            (m : Cells A)
            → good ≡ d ++ m
            → e ∷ r ≡ m ++ (c ∷ bad)
            → info g e.at ≡ some (some e.obj, e.score, prev_of d, e.height)
        front [] whole back =
            let head : e ≡ c = cc in
            ap (λ x. info g x.at) head
            ∙ t.new_info
            ∙ ap₂ (λ x ys. some (some x.obj, x.score, prev_of ys, x.height)) (sym head)
                (whole ∙ append-nil d)
        front (a ∷ m) whole back =
            let head : e ≡ a = cc in
            let old : good ++ bad ≡ d ++ (e ∷ (m ++ bad)) =
              whole_split d (a ∷ m) whole ∙ ap (λ x. d ++ (x ∷ (m ++ bad))) (sym head) in
            t.other_info e.at (cell_old d (m ++ bad) e old) (
              cell-NotFirst d (m ++ bad) e old
                (λ len. omega (arith, len, ap length whole, length-append d (a ∷ m))))
            ∙ v.infos d e (m ++ bad) old

        back :
            (m : Cells A)
            → bad ≡ m ++ (e ∷ r)
            → info g e.at ≡ some (some e.obj, e.score, prev_of (good ++ (c ∷ m)), e.height)
        back [] behind =
            subst (λ ys. FirstBack g c.at ys) behind t.next_info
            ∙ ap (λ p. some (some e.obj, e.score, p, e.height)) (sym (prev_of-cell good c))
        back (a ∷ m) behind =
            let d0 = good ++ (a ∷ m) in
            let old : good ++ bad ≡ d0 ++ (e ∷ r) =
              ap (λ ys. good ++ ys) behind ∙ sym (append_assoc good (a ∷ m) (e ∷ r)) in
            t.other_info e.at (cell_old d0 r e old)
              (cell-NotFirst d0 r e old (λ len. omega (arith, len, length-append good (a ∷ m))))
            ∙ v.infos d0 e r old
            ∙ ap (λ p. some (some e.obj, e.score, p, e.height)) (sym (prev_of-behind good m c a))

    pub splice_lem : 1 ≤ c.height → c.height ≤ n → Linked g header n (good ++ (c ∷ bad))
    splice_lem pos le =
        let heights = Heights-split n good bad v.heights in
        let header_old : header ≢ c.at = end_of-old [] (good ++ bad) refl in
        record {
          header_info = (
            v.header_info.0,
            t.other_info header header_old
                  (end_of-NotFirst [] (good ++ bad) bad refl (λ len. omega (arith, len)) refl)
                ∙ v.header_info.1,
          );
          infos = λ d e r split. splice_infos d r e split;
          links = splice_links;
          spare = λ j le lt.
              let old = v.spare j le lt in
              (
                old.0,
                t.levels.other_level header j header_old (λ front rest ltn. absurd (omega arith))
                    ∙ old.1,
              );
          heights = Heights-append n good (c ∷ bad) heights.0 (pos, le, heights.1);
          at_least = v.at_least;
          at_most = v.at_most;
        }
