-- ===== src/Skiplist/Search.antt =====
-- The walk down the levels, which all functions of skiplist.c begin with, and `slRandomLevel`. The
-- loop runs on one round for each node and one more.
use quick.Prelude.{
  ℕ, zero, suc, ◌+◌, ◌%◌, ◌^◌, Bool, true, false, ◌&&◌, ◌||◌, Option, none, some, List, [], ◌∷◌,
  ◌==◌, ltb, leb, if◌then◌else◌, ◌>>=◌,
}
use quick.Skiplist.Objects.{Scores, Obj, is_before, is_upto}
use quick.Skiplist.Nodes.{Address, Node, Heap, SkipList, max_level, get_level}

-- `random()` gives one number after the other; `random() & 0xffff` is below 0.25 * 0xffff if it is
-- at most 16383. Nothing comes out while the numbers given go on so.
unfoldable pub raise_level : ℕ → List ℕ → Option ℕ
raise_level n [] = none
raise_level n (r ∷ draws) =
    let more = raise_level (n + 1) draws in if leb (r % 2 ^ 16) 16383 then more else some n

unfoldable pub random_level : List ℕ → Option ℕ
random_level draws = do n ← raise_level 1 draws; some (if ltb n max_level then n else max_level)

-- `update[i]` with `rank[i]`, where they are set.
abbrev pub Trail : Type 0
Trail = ℕ → Option (Address × ℕ)

unfoldable pub set_trail : Trail → ℕ → Address × ℕ → Trail
set_trail trail i entry j = if j == i then some entry else trail j

-- What a walk compares: the ranks crossed with the next node's, and the next node.
abbrev pub Test : Type 0
Test = ℕ → Address → Option Bool

abbrev pub no_trail : Trail
no_trail i = none

module _ {A : Type 0} where
  -- Forward on level `i` while the test of the next node holds; spans are summed by `add`.
  unfoldable pub advance : ℕ → Heap A → (ℕ → ℕ → ℕ) → Test → ℕ → Address → ℕ → Option (Address × ℕ)
  advance zero h add test i x rank = none
  advance (suc fuel) h add test i x rank = do
    l ← get_level h x i
    elim (l.forward) [
      | none ↦ some (x, rank)
      | some f ↦ do
        go ← test (add rank l.span) f
        elim go [ true ↦ advance fuel h add test i f (add rank l.span) | false ↦ some (x, rank) ]
    ]

  -- The levels below `n`, the highest first.
  unfoldable pub descend :
      ℕ → Heap A → (ℕ → ℕ → ℕ) → Test → ℕ → Address → ℕ → Trail → Option (Address × ℕ × Trail)
  descend fuel h add test zero x rank trail = some (x, rank, trail)
  descend fuel h add test (suc i) x rank trail = do
    (y, r) ← advance fuel h add test i x rank
    descend fuel h add test i y r (set_trail trail i (y, r))

  abbrev pub walk : SkipList A → (ℕ → ℕ → ℕ) → Test → Option (Address × ℕ × Trail)
  walk s add test = descend (suc s.length) s.heap add test s.level s.header 0 no_trail

  -- A test of the next node itself. The header is never next.
  abbrev pub node_test : Heap A → (Node A → Option Bool) → Test
  node_test h test rank f = do b ← h f; test b

module _ {A : Type 0} ⦃o : Scores A⦄ where
  -- `n->score < score || (n->score == score && compareslObj(n->obj, obj) < 0)`, and with `<= 0`
  abbrev pub key_before : A → Obj → A → Obj → Bool
  key_before s a score obj = o.less s score || (o.same s score && is_before a obj)

  abbrev pub key_upto : A → Obj → A → Obj → Bool
  key_upto s a score obj = o.less s score || (o.same s score && is_upto a obj)

  unfoldable pub before : A → Obj → Node A → Option Bool
  before score obj b = do a ← b.obj; some (key_before b.score a score obj)

  unfoldable pub upto : A → Obj → Node A → Option Bool
  upto score obj b = do a ← b.obj; some (key_upto b.score a score obj)
