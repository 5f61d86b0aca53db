-- ===== src/Skiplist/Walk.antt =====
-- Where the walk of skiplist.c ends: behind the nodes whose test holds, if these are the first of
-- the list.
use quick.Prelude.{
  Bool-cases, ℕ, zero, suc, ◌+◌, ◌≤◌, ◌<◌, ◌≡◌, refl, sym, subst, ap, ap₂, ◌∙◌, true, false, Option,
  some, [], ◌∷◌, ◌++◌, ltb, ◌==◌, length, length-append, append_assoc, arith, ◌>>=◌, inl, inr,
}
use quick.Skiplist.Nodes.{Address, Heap, max_level}
use quick.Skiplist.Search.{Trail, set_trail, Test, advance, descend}
use quick.Skiplist.Cells.{
  front-Low, Low-append, Cell, Cells, next_at, gap_at, end_of, height_of, Low, Linked, find-First,
  next_at-append-Low, gap_at-append-Low, next_at-Low, end_of-append, height_of-append,
}

-- A node behind the node reached.
module _ {A : Type 0} where
  pub snoc_split :
      (d m : Cells A) (c : Cell A) (r : Cells A) → d ++ (m ++ (c ∷ r)) ≡ (d ++ (m ++ (c ∷ []))) ++ r
  snoc_split d m c r =
      ap (λ ys. d ++ ys) (sym (append_assoc m (c ∷ []) r)) ∙ sym (append_assoc d (m ++ (c ∷ [])) r)

  pub end_of-snoc :
      (header : Address) (d m : Cells A) (c : Cell A) → end_of header (d ++ (m ++ (c ∷ []))) ≡ c.at
  end_of-snoc header d m c =
      end_of-append header d (m ++ (c ∷ [])) ∙ end_of-append (end_of header d) m (c ∷ [])

  pub height_of-snoc :
      (n : ℕ) (d m : Cells A) (c : Cell A) → height_of n (d ++ (m ++ (c ∷ []))) ≡ c.height
  height_of-snoc n d m c =
      height_of-append n d (m ++ (c ∷ [])) ∙ height_of-append (height_of n d) m (c ∷ [])

  pub length-snoc :
      (d m : Cells A) (c : Cell A) → length (d ++ (m ++ (c ∷ []))) ≡ suc (length (d ++ m))
  length-snoc d m c =
      omega (arith, length-append d m, length-append d (m ++ (c ∷ [])), length-append m (c ∷ []))

-- `update[i]` and `rank[i]`: the last node of `good` that stands on the level, and its rank.
pub record Reached {A : Type 0} (header : Address) (good : Cells A) (i : ℕ)
    (entry : Option (Address × ℕ)) : Type 0 where
  pub front : Cells A
  pub rest : Cells A
  pub split : good ≡ front ++ rest
  pub tall : i < height_of max_level front
  pub low : Low i rest
  pub entry_is : entry ≡ some (end_of header front, length front)

module _ {A : Type 0} (h : Heap A) (header n : ℕ) (good bad : Cells A) (add : ℕ → ℕ → ℕ)
    (test : Test) (v : Linked h header n (good ++ bad))
    (exact : (a b : ℕ) → a + b ≤ length (good ++ bad) → add a b ≡ a + b)
    (tests : (d : Cells A) (c : Cell A) (r : Cells A)
      → good ++ bad ≡ d ++ (c ∷ r)
      → test (suc (length d)) c.at ≡ some (ltb (length d) (length good))) where
  -- The next node is found, and its test is made.
  step_to :
      (fuel i : ℕ) (d mid : Cells A) (c : Cell A) (r : Cells A)
      → good ++ bad ≡ d ++ (mid ++ (c ∷ r))
      → i < n
      → i < height_of max_level d
      → Low i mid
      → i < c.height
      → advance (suc fuel) h add test i (end_of header d) (length d)
        ≡ elim (ltb (length (d ++ mid)) (length good)) [
          | true ↦ advance fuel h add test i c.at (suc (length (d ++ mid)))
          | false ↦ some (end_of header d, length d)
        ]
  unfolding advance
  step_to fuel i d mid c r split lt tall low up =
      let nexts : next_at i (mid ++ (c ∷ r)) ≡ some c.at =
        next_at-append-Low i mid (c ∷ r) low ∙ ground arith in
      let gaps : gap_at i (mid ++ (c ∷ r)) ≡ suc (length mid) =
        gap_at-append-Low i mid (c ∷ r) low ∙ ground arith in
      let here = v.links d (mid ++ (c ∷ r)) i split lt tall in
      let whole : length (good ++ bad) ≡ length d + (length mid + suc (length r)) =
        omega
          (arith, ap length split, length-append d (mid ++ (c ∷ r)), length-append mid (c ∷ r)) in
      let sum : add (length d) (gap_at i (mid ++ (c ∷ r))) ≡ suc (length (d ++ mid)) =
        exact (length d) (gap_at i (mid ++ (c ∷ r))) (omega (arith, gaps, whole))
        ∙ omega (arith, gaps, length-append d mid) in
      let tested = tests (d ++ mid) c r (split ∙ sym (append_assoc d mid (c ∷ r))) in
      let after : ℕ → Option (Address × ℕ) = λ k. test k c.at >>= λ go. elim go [
        | true ↦ advance fuel h add test i c.at k
        | false ↦ some (end_of header d, length d)
      ] in
      rw (here, nexts) (ap after sum ∙ rw tested refl)

  -- No next node on the level.
  step_end :
      (fuel i : ℕ) (d r : Cells A)
      → good ++ bad ≡ d ++ r
      → i < n
      → i < height_of max_level d
      → Low i r
      → advance (suc fuel) h add test i (end_of header d) (length d)
        ≡ some (end_of header d, length d)
  unfolding advance
  step_end fuel i d r split lt tall low = rw (v.links d r i split lt tall, next_at-Low i r low) refl

  -- The end of one level, from a node of `good` on.
  pub record Ended (i : ℕ) (fuel : ℕ) (d : Cells A) : Type 0 where
    pub front : Cells A
    pub rest : Cells A
    pub split : good ≡ front ++ rest
    pub tall : i < height_of max_level front
    pub low : Low i rest
    pub ends :
        advance fuel h add test i (end_of header d) (length d)
        ≡ some (end_of header front, length front)

  stop : (k : ℕ) → length good ≤ k → ltb k (length good) ≡ false
  stop k le = ground arith

  go : (k : ℕ) → k < length good → ltb k (length good) ≡ true
  go k lt = ground arith

  pub advance_lem :
      (fuel i : ℕ) (d m : Cells A)
      → good ≡ d ++ m
      → i < n
      → i < height_of max_level d
      → length m < fuel
      → Ended i fuel d
  advance_lem zero i d m split lt tall enough = absurd (omega arith)
  advance_lem (suc fuel) i d m split lt tall enough = elim (find-First i m) [
    | inl low ↦ record {
      front = d;
      rest = m;
      split = split;
      tall = tall;
      low = low;
      ends = elim (find-First i bad) [
        | inl lows ↦
            step_end fuel i d (m ++ bad) (ap (λ ys. ys ++ bad) split ∙ append_assoc d m bad) lt tall
              (Low-append i m bad low lows)
        | inr t ↦
            step_to fuel i d (m ++ t.before) t.cell t.behind
              (ap₂ (λ xs ys. xs ++ ys) split t.split
                ∙ append_assoc d m (t.before ++ (t.cell ∷ t.behind))
                ∙ ap (λ ys. d ++ ys) (sym (append_assoc m t.before (t.cell ∷ t.behind))))
              lt tall (Low-append i m t.before low t.low) t.tall
            ∙ rw
                (stop (length (d ++ (m ++ t.before))) (
                  omega (
                    arith,
                    length-append d (m ++ t.before),
                    length-append m t.before,
                    ap length split,
                    length-append d m,
                  )))
                refl
      ];
    }
    | inr t ↦
        let d' = d ++ (t.before ++ (t.cell ∷ [])) in
        let split' : good ≡ d' ++ t.behind =
          split ∙ ap (λ ys. d ++ ys) t.split ∙ snoc_split d t.before t.cell t.behind in
        let e =
          advance_lem fuel i d' t.behind split' lt
            (subst (λ k. i < k) (sym (height_of-snoc max_level d t.before t.cell)) t.tall)
            (omega
              (arith, enough, ap length t.split, length-append t.before (t.cell ∷ t.behind))) in
        record {
          front = e.front;
          rest = e.rest;
          split = e.split;
          tall = e.tall;
          low = e.low;
          ends =
              step_to fuel i d t.before t.cell (t.behind ++ bad)
                (ap (λ ys. ys ++ bad) (split ∙ ap (λ ys. d ++ ys) t.split)
                  ∙ append_assoc d (t.before ++ (t.cell ∷ t.behind)) bad
                  ∙ ap (λ ys. d ++ ys) (append_assoc t.before (t.cell ∷ t.behind) bad))
                lt tall t.low t.tall
              ∙ rw
                  (go (length (d ++ t.before)) (
                    omega (
                      arith,
                      length-append d t.before,
                      ap length split,
                      ap length t.split,
                      length-append d m,
                      length-append t.before (t.cell ∷ t.behind),
                    )))
                  (ap₂ (λ x k. advance fuel h add test i x k)
                    (sym (end_of-snoc header d t.before t.cell))
                    (sym (length-snoc d t.before t.cell)))
              ∙ e.ends;
        }
  ]

  -- The levels below `k`, from a node of `good` on.
  pub record Down (k fuel : ℕ) (d : Cells A) (trail : Trail) : Type 0 where
    pub left : Trail
    pub ends :
        descend fuel h add test k (end_of header d) (length d) trail
        ≡ some (end_of header good, length good, left)
    pub reached : (j : ℕ) → j < k → Reached header good j (left j)
    pub kept : (j : ℕ) → k ≤ j → left j ≡ trail j

  pub descend_lem :
      (fuel k : ℕ) (d m : Cells A) (trail : Trail)
      → good ≡ d ++ m
      → k ≤ n
      → k ≤ height_of max_level d
      → Low k m
      → length good < fuel
      → Down k fuel d trail
  unfolding descend set_trail
  descend_lem fuel zero d m trail split le tall low enough =
      let whole = front-Low n good bad d m v.heights split low in
      record {
        left = trail;
        ends = ap (λ ys. some (end_of header ys, length ys, trail)) (sym whole);
        reached = λ j lt. absurd (omega arith);
        kept = λ j le. refl;
      }
  descend_lem fuel (suc i) d m trail split le tall low enough =
      let e =
        advance_lem fuel i d m split le tall (omega (arith, ap length split, length-append d m)) in
      let trail' = set_trail trail i (end_of header e.front, length e.front) in
      let rest =
        descend_lem fuel i e.front e.rest trail' e.split (omega arith) (omega (arith, e.tall)) e.low
          enough in
      record {
        left = rest.left;
        ends = rw (e.ends) rest.ends;
        reached = λ j lt. elim (Bool-cases (j == i)) [
          | inl t ↦
              let here : j ≡ i = ground arith in
              subst (λ k. Reached header good k (rest.left k)) (sym here)
                (record {
                  front = e.front;
                  rest = e.rest;
                  split = e.split;
                  tall = e.tall;
                  low = e.low;
                  entry_is = rest.kept i (omega arith) ∙ ground arith;
                })
          | inr f ↦ rest.reached j (ground arith)
        ];
        kept = λ j le. rest.kept j (omega arith) ∙ ground arith;
      }
