-- ===== src/Skiplist/Splits.antt =====
-- Where a list of skiplist.c is cut, seen from the entry that is put between two parts of it.
use quick.Prelude.{
  append-nil, none, ℕ, suc, ◌≤◌, ◌<◌, ◌≡◌, refl, sym, subst, ap, ap₂, ◌∙◌, some, [], ◌∷◌, ◌++◌,
  length, arith, ◌⊎◌, inl, inr, append_assoc,
}
use quick.Skiplist.Nodes.{Address}
use quick.Skiplist.Cells.{
  next_at-Low, next_at-append-Low, gap_at-append-Low, end_of-append, Cell, Cells, next_at, gap_at,
  end_of, height_of, Low, First, prev_of,
}

module _ {A : Type 0} where
  -- The cut lies in the first part, or behind the new entry.
  pub record InFront (good bad d r : Cells A) (c : Cell A) : Type 0 where
    pub middle : Cells A
    pub front_is : good ≡ d ++ middle
    pub back_is : r ≡ middle ++ (c ∷ bad)

  pub record Behind (good bad d r : Cells A) (c : Cell A) : Type 0 where
    pub middle : Cells A
    pub front_is : d ≡ good ++ (c ∷ middle)
    pub back_is : bad ≡ middle ++ r

  pub cut_cases :
      (good bad d r : Cells A) (c : Cell A)
      → good ++ (c ∷ bad) ≡ d ++ r
      → InFront good bad d r c ⊎ Behind good bad d r c
  cut_cases good bad [] r c split =
      inl (record { middle = good; front_is = refl; back_is = sym split })
  cut_cases [] bad (e ∷ d) r c split =
      let head : c ≡ e = cc in
      let rest : bad ≡ d ++ r = cc in
      inr (record { middle = d; front_is = ap (λ a. a ∷ d) (sym head); back_is = rest })
  cut_cases (a ∷ good) bad (e ∷ d) r c split =
      let head : a ≡ e = cc in
      let rest : good ++ (c ∷ bad) ≡ d ++ r = cc in
      elim (cut_cases good bad d r c rest) [
        | inl t ↦ inl (record {
          middle = t.middle;
          front_is = ap₂ (λ x xs. x ∷ xs) head t.front_is;
          back_is = t.back_is;
        })
        | inr t ↦ inr (record {
          middle = t.middle;
          front_is = ap₂ (λ x xs. x ∷ xs) (sym head) t.front_is;
          back_is = t.back_is;
        })
      ]

  height_of-Low : (i k : ℕ) (c : Cell A) (cs : Cells A) → Low i (c ∷ cs) → height_of k (c ∷ cs) ≤ i
  height_of-Low i k c [] low = low.0
  height_of-Low i k c (e ∷ cs) low = height_of-Low i c.height e cs low.1

  Low-front : (i : ℕ) (xs ys : Cells A) → Low i (xs ++ ys) → Low i xs
  Low-front i [] ys low = tt
  Low-front i (c ∷ xs) ys low = (low.0, Low-front i xs ys low.1)

  -- One node of the list is the last of a level.
  pub last_unique :
      (i n : ℕ) (d m d' m' : Cells A)
      → d ++ m ≡ d' ++ m'
      → Low i m
      → Low i m'
      → i < height_of n d
      → i < height_of n d'
      → d ≡ d'
  last_unique i n [] m [] m' split low low' tall tall' = refl
  last_unique i n [] m (c ∷ d') m' split low low' tall tall' =
      let here = Low-front i (c ∷ d') m' (subst (λ ys. Low i ys) split low) in
      absurd (omega (arith, height_of-Low i n c d' here, tall'))
  last_unique i n (c ∷ d) m [] m' split low low' tall tall' =
      let here = Low-front i (c ∷ d) m (subst (λ ys. Low i ys) (sym split) low') in
      absurd (omega (arith, height_of-Low i n c d here, tall))
  last_unique i n (c ∷ d) m (c' ∷ d') m' split low low' tall tall' =
      let head : c ≡ c' = cc in
      let rest : d ++ m ≡ d' ++ m' = cc in
      ap₂ (λ x xs. x ∷ xs) head
        (last_unique i c.height d m d' m' rest low low' tall
          (subst (λ k. i < height_of k d') (sym (ap (λ k. k.height) head)) tall'))

  pub append_cancel : (d m m' : Cells A) → d ++ m ≡ d ++ m' → m ≡ m'
  append_cancel [] m m' e = e
  append_cancel (c ∷ d) m m' e = let rest : d ++ m ≡ d ++ m' = cc in append_cancel d m m' rest

  pub front_unique : (d m d' m' : Cells A) → d ++ m ≡ d' ++ m' → length d ≡ length d' → d ≡ d'
  front_unique [] m [] m' split e = refl
  front_unique [] m (c ∷ d') m' split e = absurd (omega (arith, e))
  front_unique (c ∷ d) m [] m' split e = absurd (omega (arith, e))
  front_unique (c ∷ d) m (c' ∷ d') m' split e =
      let head : c ≡ c' = cc in
      let rest : d ++ m ≡ d' ++ m' = cc in
      ap₂ (λ x xs. x ∷ xs) head (front_unique d m d' m' rest (omega (arith, e)))

  -- The next node of a level, where the front has one.
  First-split :
      (i : ℕ) (m ys : Cells A) (t : First i m) → m ++ ys ≡ t.before ++ (t.cell ∷ (t.behind ++ ys))
  First-split i m ys t = ap (λ xs. xs ++ ys) t.split ∙ append_assoc t.before (t.cell ∷ t.behind) ys

  pub next_at-First :
      (i : ℕ) (m ys : Cells A) (t : First i m) → next_at i (m ++ ys) ≡ some t.cell.at
  next_at-First i m ys t =
      ap (next_at i) (First-split i m ys t)
      ∙ next_at-append-Low i t.before (t.cell ∷ (t.behind ++ ys)) t.low
      ∙ ground (arith, t.tall)

  pub gap_at-First :
      (i : ℕ) (m ys : Cells A) (t : First i m) → gap_at i (m ++ ys) ≡ suc (length t.before)
  gap_at-First i m ys t =
      ap (gap_at i) (First-split i m ys t)
      ∙ gap_at-append-Low i t.before (t.cell ∷ (t.behind ++ ys)) t.low
      ∙ ground (arith, t.tall)

  pub First-Low : (i : ℕ) (m : Cells A) → First i m → Low i m → ⊥
  First-Low i m t low =
      let clash : none ≡ some t.cell.at =
        sym (next_at-Low i m low) ∙ ap (next_at i) (sym (append-nil m)) ∙ next_at-First i m [] t in
      cc

  pub gap_at-le : (i : ℕ) (xs : Cells A) → gap_at i xs ≤ length xs
  gap_at-le i [] = omega arith
  gap_at-le i (c ∷ xs) = ground (arith, gap_at-le i xs)

  pub end_of-cell : (a : Address) (d : Cells A) (c : Cell A) → end_of a (d ++ (c ∷ [])) ≡ c.at
  end_of-cell a d c = end_of-append a d (c ∷ [])

  pub prev_of-behind :
      (good m : Cells A) (c e : Cell A)
      → prev_of (good ++ (c ∷ (e ∷ m))) ≡ prev_of (good ++ (e ∷ m))
  prev_of-behind [] m c e = refl
  prev_of-behind (a ∷ good) m c e =
      ap some (end_of-append a.at good (c ∷ (e ∷ m)) ∙ sym (end_of-append a.at good (e ∷ m)))

  pub prev_of-cell : (good : Cells A) (c : Cell A) → prev_of (good ++ (c ∷ [])) ≡ some c.at
  prev_of-cell [] c = refl
  prev_of-cell (a ∷ good) c = ap some (end_of-cell a.at good c)

-- A cut of two parts one behind the other.
module _ {A : Type 0} where
  pub record InFirst (good bad d r : Cells A) : Type 0 where
    pub middle : Cells A
    pub front_is : good ≡ d ++ middle
    pub back_is : r ≡ middle ++ bad

  pub record InSecond (good bad d r : Cells A) : Type 0 where
    pub cell : Cell A
    pub middle : Cells A
    pub front_is : d ≡ good ++ (cell ∷ middle)
    pub back_is : bad ≡ cell ∷ (middle ++ r)

  pub append_cases :
      (good bad d r : Cells A) → good ++ bad ≡ d ++ r → InFirst good bad d r ⊎ InSecond good bad d r
  append_cases good bad [] r split =
      inl (record { middle = good; front_is = refl; back_is = sym split })
  append_cases [] bad (e ∷ d) r split =
      inr (record { cell = e; middle = d; front_is = refl; back_is = split })
  append_cases (a ∷ good) bad (e ∷ d) r split =
      let head : a ≡ e = cc in
      let rest : good ++ bad ≡ d ++ r = cc in
      elim (append_cases good bad d r rest) [
        | inl t ↦ inl (record {
          middle = t.middle;
          front_is = ap₂ (λ x xs. x ∷ xs) head t.front_is;
          back_is = t.back_is;
        })
        | inr t ↦ inr (record {
          cell = t.cell;
          middle = t.middle;
          front_is = ap₂ (λ x xs. x ∷ xs) (sym head) t.front_is;
          back_is = t.back_is;
        })
      ]
