-- ===== src/Skiplist/Ranks.antt =====
-- `slGetNodeByRank`.
use quick.Prelude.{
  subst, inr, inl, Bool-cases, leb, ℕ, zero, suc, ◌+◌, ◌≤◌, ◌<◌, ◌^◌, ◌≡◌, refl, sym, ap, ◌∙◌,
  Option, none, some, [], ◌∷◌, ◌++◌, ltb, length, length-append, arith, ◌>>=◌, get_elem?, ◌==◌,
  true, false,
}
use quick.Skiplist.Nodes.{add64, Address, Heap, SkipList, max_level}
use quick.Skiplist.Search.{advance}
use quick.Skiplist.Lookup.{node_from, get_node_by_rank}
use quick.Skiplist.Cells.{
  Heights-Low, Heights-split, front-length, front-Low, Cell, Cells, end_of, height_of, Low, Linked,
}
use quick.Skiplist.State.{Represents}
use quick.Skiplist.Walk.{advance_lem}

module _ {A : Type 0} where
  -- Ranks are counted from 1.
  abbrev pub node_at : ℕ → Cells A → Option Address
  node_at zero xs = none
  node_at (suc k) xs = do c ← get_elem? xs k; some c.at

  node_at-front :
      (c : Cell A) (cs ys : Cells A)
      → node_at (suc (length cs)) (c ∷ (cs ++ ys)) ≡ some (end_of c.at cs)
  node_at-front c [] ys = refl
  node_at-front c (e ∷ cs) ys = node_at-front e cs ys

  node_at-Beyond : (k : ℕ) (xs : Cells A) → length xs < k → node_at k xs ≡ none
  node_at-Beyond zero xs lt = refl
  node_at-Beyond (suc k) [] lt = refl
  node_at-Beyond (suc (suc k)) (c ∷ xs) lt = node_at-Beyond (suc k) xs (omega arith)
  node_at-Beyond (suc zero) (c ∷ xs) lt = absurd (omega arith)

  -- The first `k` entries.
  pub record CutAt (k : ℕ) (xs : Cells A) : Type 0 where
    pub good : Cells A
    pub bad : Cells A
    pub split : xs ≡ good ++ bad
    pub count : length good ≡ k

  pub cut_at : (k : ℕ) (xs : Cells A) → k ≤ length xs → CutAt k xs
  cut_at zero xs le = record { good = []; bad = xs; split = refl; count = refl }
  cut_at (suc k) [] le = absurd (omega arith)
  cut_at (suc k) (c ∷ xs) le =
      let t = cut_at k xs (omega arith) in
      record {
        good = c ∷ t.good;
        bad = t.bad;
        split = ap (λ ys. c ∷ ys) t.split;
        count = ap suc t.count;
      }

-- One level of `node_from`.
module _ {A : Type 0} (h : Heap A) (rank fuel i x t y r : ℕ)
    (e : advance fuel h add64 (λ k f. some (leb k rank)) i x t ≡ some (y, r)) where
  abbrev next_level : Address × ℕ → Option (Option Address)
  next_level (p, k) = elim (k == rank) [
    | true ↦ some (some p)
    | false ↦ node_from fuel h rank i p k
  ]

  node_from-hit : (r == rank) ≡ true → node_from fuel h rank (suc i) x t ≡ some (some y)
  unfolding node_from
  node_from-hit hit =
      let found : next_level (y, r) ≡ some (some y) = rw (hit, next_level) refl in rw e found

  node_from-miss :
      (r == rank) ≡ false → node_from fuel h rank (suc i) x t ≡ node_from fuel h rank i y r
  unfolding node_from
  node_from-miss miss =
      let missed : next_level (y, r) ≡ node_from fuel h rank i y r = rw (miss, next_level) refl in
      rw e missed

module _ {A : Type 0} (h : Heap A) (header n : ℕ) (good bad : Cells A)
    (v : Linked h header n (good ++ bad)) (small : length (good ++ bad) < 2 ^ 32) where
  exact64 : (a b : ℕ) → a + b ≤ length (good ++ bad) → add64 a b ≡ a + b
  exact64 a b le = omega arith

  test_rank :
      (d : Cells A) (c : Cell A) (r : Cells A)
      → good ++ bad ≡ d ++ (c ∷ r)
      → some (leb (suc (length d)) (length good)) ≡ some (ltb (length d) (length good))
  test_rank d c r split = ground arith

  node_from_lem :
      (fuel k : ℕ) (d m : Cells A)
      → good ≡ d ++ m
      → 1 ≤ length m
      → k ≤ n
      → k ≤ height_of max_level d
      → Low k m
      → length good < fuel
      → node_from fuel h (length good) k (end_of header d) (length d)
        ≡ some (some (end_of header good))
  unfolding node_from
  node_from_lem fuel zero d m split some_left le tall low enough = absurd (
      omega (
        arith,
        some_left,
        ap length (front-Low n good bad d m v.heights split low),
        ap length split,
        length-append d m,
      ))
  node_from_lem fuel (suc i) d m split some_left le tall low enough =
      let e =
        advance_lem h header n good bad add64 (λ t f. some (leb t (length good))) v exact64
          test_rank fuel i d m split le tall (omega (arith, ap length split, length-append d m)) in
      elim (Bool-cases (length e.front == length good)) [
        | inl all ↦
            node_from-hit h (length good) fuel i (end_of header d) (length d)
              (end_of header e.front) (length e.front) e.ends all
            ∙ ap (λ ys. some (some (end_of header ys)))
                (sym (front-length good e.front e.rest e.split (ground arith)))
        | inr more ↦
            node_from-miss h (length good) fuel i (end_of header d) (length d)
              (end_of header e.front) (length e.front) e.ends more
            ∙ node_from_lem fuel i e.front e.rest e.split
                (ground (arith, ap length e.split, length-append e.front e.rest)) (omega arith)
                (omega (arith, e.tall)) e.low enough
      ]

module _ {A : Type 0} (s : SkipList A) (xs : Cells A) (v : Represents s xs) where
  node_from-whole :
      (c : Cell A) (cs bad : Cells A)
      → xs ≡ c ∷ (cs ++ bad)
      → node_from (suc s.length) s.heap (suc (length cs)) s.level s.header 0
        ≡ some (node_at (suc (length cs)) xs)
  node_from-whole c cs bad split =
      let whole = subst (λ ys. Represents s ys) split v in
      let heights = Heights-split s.level (c ∷ cs) bad whole.linked.heights in
      node_from_lem s.heap s.header s.level (c ∷ cs) bad whole.linked whole.small (suc s.length)
        s.level [] (c ∷ cs) refl (omega arith) (omega arith) whole.linked.at_most
        (Heights-Low s.level (c ∷ cs) heights.0) (omega (arith, whole.count, length-append cs bad))
      ∙ ap some (sym (ap (node_at (suc (length cs))) split ∙ node_at-front c cs bad))

  node_from-cut :
      (k : ℕ) (good bad : Cells A)
      → xs ≡ good ++ bad
      → length good ≡ suc k
      → node_from (suc s.length) s.heap (suc k) s.level s.header 0 ≡ some (node_at (suc k) xs)
  node_from-cut k [] bad split count = absurd (omega (arith, count))
  node_from-cut k (c ∷ cs) bad split count =
      subst (λ j. node_from (suc s.length) s.heap j s.level s.header 0 ≡ some (node_at j xs)) count
        (node_from-whole c cs bad split)

  -- In a list that holds the entries `xs`, `slGetNodeByRank` ends without a fault and gives, for each
  -- rank, the node of the entry at that place, counted from 1, and no node for 0 and for a rank
  -- beyond the length.
  pub get_node_by_rank_lem : (rank : ℕ) → get_node_by_rank s rank ≡ some (node_at rank xs)
  unfolding get_node_by_rank
  get_node_by_rank_lem zero = refl
  get_node_by_rank_lem (suc k) =
      let nonzero : (suc k == 0) ≡ false = ground arith in
      elim (Bool-cases (ltb s.length (suc k))) [
        | inl far ↦ rw (nonzero, far, node_at-Beyond (suc k) xs (ground (arith, v.count))) refl
        | inr near ↦
            let t = cut_at (suc k) xs (ground (arith, v.count)) in
            let found : node_from (suc s.length) s.heap (suc k) s.level s.header 0
                ≡ some (node_at (suc k) xs) =
              node_from-cut k t.good t.bad t.split t.count in
            rw (nonzero, near) found
      ]
