-- ===== src/Skiplist/Lookup.antt =====
-- `slGetRank`, `slGetNodeByRank` and the ranges of scores of skiplist.c.
use quick.Prelude.{
  ℕ, zero, suc, Bool, true, false, ◌||◌, Option, none, some, ◌==◌, ltb, leb, if◌then◌else◌, ◌>>=◌,
}
use quick.Skiplist.Objects.{Scores, Obj, equal_obj}
use quick.Skiplist.Nodes.{Address, Node, Heap, SkipList, get_level, add64}
use quick.Skiplist.Search.{Test, advance, walk, node_test, upto}

-- `x->obj && equalslObj(x->obj, o)`
abbrev pub is_obj : Option Obj → Obj → Bool
is_obj none obj = false
is_obj (some a) obj = equal_obj a obj

module _ {A : Type 0} where
  -- `x->obj` is looked at behind each level.
  unfoldable pub rank_from : ℕ → Heap A → Test → Obj → ℕ → Address → ℕ → Option ℕ
  rank_from fuel h test obj zero x rank = some 0
  rank_from fuel h test obj (suc i) x rank = do
    (y, r) ← advance fuel h add64 test i x rank
    b ← h y
    elim (is_obj b.obj obj) [ true ↦ some r | false ↦ rank_from fuel h test obj i y r ]

  unfoldable pub node_from : ℕ → Heap A → ℕ → ℕ → Address → ℕ → Option (Option Address)
  node_from fuel h rank zero x traversed = some none
  node_from fuel h rank (suc i) x traversed = do
    (y, r) ← advance fuel h add64 (λ t f. some (leb t rank)) i x traversed
    elim (r == rank) [ true ↦ some (some y) | false ↦ node_from fuel h rank i y r ]

  unfoldable pub get_node_by_rank : SkipList A → ℕ → Option (Option Address)
  get_node_by_rank s rank =
      if rank == 0 || ltb s.length rank
      then some none
      else node_from (suc s.length) s.heap rank s.level s.header 0

module _ {A : Type 0} ⦃o : Scores A⦄ where
  unfoldable pub get_rank : SkipList A → A → Obj → Option ℕ
  get_rank s score obj =
      rank_from (suc s.length) s.heap (node_test s.heap (upto score obj)) obj s.level s.header 0

  -- `x == NULL || x->score < min`, and `x == NULL || x->score > max`
  unfoldable pub is_in_range : SkipList A → A → A → Option Bool
  is_in_range s min max = elim (o.less max min) [
    | true ↦ some false
    | false ↦ do
      reached ← elim (s.tail) [
        | none ↦ some false
        | some x ↦ do b ← s.heap x; some (if o.less b.score min then false else true)
      ]
      elim reached [
        | false ↦ some false
        | true ↦ do
          l ← get_level s.heap s.header 0
          elim (l.forward) [
            | none ↦ some false
            | some x ↦ do b ← s.heap x; some (if o.less max b.score then false else true)
          ]
      ]
  ]

  -- `n->score < min`, and `n->score <= max`
  abbrev pub score_below : A → Node A → Option Bool
  score_below min b = some (o.less b.score min)

  abbrev pub score_upto : A → Node A → Option Bool
  score_upto max b = some (o.less b.score max || o.same b.score max)

  unfoldable pub first_in_range : SkipList A → A → A → Option (Option Address)
  first_in_range s min max = do
    inside ← is_in_range s min max
    elim inside [
      | false ↦ some none
      | true ↦ do
        (x, r, trail) ← walk s add64 (node_test s.heap (score_below min))
        l ← get_level s.heap x 0
        some l.forward
    ]

  unfoldable pub last_in_range : SkipList A → A → A → Option (Option Address)
  last_in_range s min max = do
    inside ← is_in_range s min max
    elim inside [
      | false ↦ some none
      | true ↦ do (x, r, trail) ← walk s add64 (node_test s.heap (score_upto max)); some (some x)
    ]
