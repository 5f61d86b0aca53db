-- ===== src/Skiplist/Insertion.antt =====
-- `slInsert`: the walk, the new level, and the node that is put in.
use quick.Prelude.{
  ℕ, suc, ◌+◌, ◌≤◌, ◌<◌, ◌^◌, ◌≡◌, refl, sym, subst, ap, ◌∙◌, Option, some, List, [], ◌∷◌, ◌++◌,
  length, length-append, arith, Bool, ltb, ◌>>=◌,
}
use quick.Skiplist.Objects.{Scores, Obj}
use quick.Skiplist.Nodes.{Heap, SkipList, add32}
use quick.Skiplist.Search.{Test, random_level, node_test, before, key_before, no_trail}
use quick.Skiplist.Insert.{insert}
use quick.Skiplist.Cells.{Cell, Cells, Info, prev_of, Linked, Heights-split, Heights-Low}
use quick.Skiplist.ObjectOrder.{Fits}
use quick.Skiplist.Order.{ScoreLaws, AllFit, Every-test, precedes, Sorted, add_entry}
use quick.Skiplist.Sorting.{Cut, cut}
use quick.Skiplist.Levels.{random_level-bounds}
use quick.Skiplist.Walk.{Down, descend_lem}
use quick.Skiplist.State.{Represents}
use quick.Skiplist.Memory.{node_of}
use quick.Skiplist.Inserted.{insert_node_lem}

module _ {A : Type 0} (s : SkipList A) (good bad : Cells A) (v : Represents s (good ++ bad)) where
  -- The walk with a test that holds on `good` and on no other node.
  pub walk_lem :
      (add : ℕ → ℕ → ℕ) (test : Test)
      → (exact : (a b : ℕ) → a + b ≤ length (good ++ bad) → add a b ≡ a + b)
      → (tests : (d : Cells A) (c : Cell A) (r : Cells A)
          → good ++ bad ≡ d ++ (c ∷ r)
          → test (suc (length d)) c.at ≡ some (ltb (length d) (length good)))
      → Down s.heap s.header s.level good bad add test v.linked exact tests s.level
          (suc s.length)
          []
          no_trail
  walk_lem add test exact tests =
      let low = Heights-Low s.level good (Heights-split s.level good bad v.linked.heights).0 in
      descend_lem s.heap s.header s.level good bad add test v.linked exact tests (suc s.length)
        s.level [] good no_trail refl (omega arith) v.linked.at_most low
        (omega (arith, v.count, length-append good bad))

  pub exact32 : (a b : ℕ) → a + b ≤ length (good ++ bad) → add32 a b ≡ a + b
  exact32 a b le = omega (arith, v.small)

module _ {A : Type 0} ⦃o : Scores A⦄ (h : Heap A) (header n : ℕ) (xs : Cells A)
    (v : Linked h header n xs) where
  pub before-cell :
      (d r : Cells A) (c : Cell A) (k : ℕ) (score : A) (obj : Obj)
      → xs ≡ d ++ (c ∷ r)
      → node_test h (before score obj) k c.at ≡ some (key_before c.score c.obj score obj)
  unfolding before
  before-cell d r c k score obj split =
      let m = node_of h c.at (some c.obj, c.score, prev_of d, c.height) (v.infos d c r split) in
      let tested : Info A → Option Bool =
        λ (a, t, q, j). a >>= λ b. some (key_before t b score obj) in
      rw (m.found) (ap tested m.parts)

module _ {A : Type 0} ⦃o : Scores A⦄ (laws : ScoreLaws o) (s : SkipList A) (xs : Cells A)
    (score : A) (obj : Obj) (draws : List ℕ) (n : ℕ) (v : Represents s xs) (fit : AllFit xs)
    (sorted : Sorted xs) (small : suc (length xs) < 2 ^ 32) (fits : Fits obj)
    (drawn : random_level draws ≡ some n) where
  -- The new entry, and the list with it.
  abbrev pub entry : Cell A
  entry = record { at = s.fresh; score = score; obj = obj; height = n }

  pub record Extended : Type 0 where
    pub after : SkipList A
    pub runs : insert score obj draws s ≡ some after
    pub represents : Represents after (add_entry entry xs)

  insert-Cut : Cut laws entry xs → Extended
  unfolding insert
  insert-Cut t =
      let whole = subst (λ ys. Represents s ys) t.split v in
      let tests : (d : Cells A) (c : Cell A) (r : Cells A)
          → t.good ++ t.bad ≡ d ++ (c ∷ r)
          → node_test s.heap (before score obj) (suc (length d)) c.at
            ≡ some (ltb (length d) (length t.good)) =
        λ d c r split.
          before-cell s.heap s.header s.level (t.good ++ t.bad) whole.linked d r c (suc (length d))
            score obj split
          ∙ ap some
              (Every-test (λ x. precedes x entry) t.good t.bad d r c t.passed t.others split) in
      let w =
        walk_lem s t.good t.bad whole add32 (node_test s.heap (before score obj))
          (exact32 s t.good t.bad whole) tests in
      let bounds = random_level-bounds draws n drawn in
      let e =
        insert_node_lem s t.good t.bad n score obj w.left whole w.reached bounds.0 bounds.1
          (subst (λ ys. suc (length ys) < 2 ^ 32) t.split small) in
      record {
        after = e.after;
        runs = rw (w.ends, drawn) e.runs;
        represents = subst (λ ys. Represents e.after ys) (sym t.added_is) e.represents;
      }

  pub insert-Represents : Extended
  insert-Represents = insert-Cut (cut laws entry xs fits fit sorted)
