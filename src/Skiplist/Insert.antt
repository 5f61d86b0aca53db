-- ===== src/Skiplist/Insert.antt =====
-- `slInsert` of skiplist.c. Whatever `random` gives is an argument.
use quick.Prelude.{
  ℕ, zero, suc, ◌-◌, ◌%◌, ◌^◌, Option, none, some, List, ◌==◌, ltb, if◌then◌else◌, ◌>>=◌,
}
use quick.Skiplist.Objects.{Scores, Obj}
use quick.Skiplist.Nodes.{
  Address, level, Heap, SkipList, write, get_level, set_level, set_backward, create_node, add32,
  sub32, add64,
}
use quick.Skiplist.Search.{Trail, set_trail, random_level, walk, node_test, before}

module _ {A : Type 0} where
  -- `for (i = sl->level; i < level; i++)`, with the rounds left.
  unfoldable pub raise : ℕ → ℕ → Address → ℕ → Trail → Heap A → Option (Trail × Heap A)
  raise zero i header length trail h = some (trail, h)
  raise (suc n) i header length trail h = do
    l ← get_level h header i
    h' ← set_level header i (record l { span = length % 2 ^ 32 }) h
    raise n (suc i) header length (set_trail trail i (header, 0)) h'

  -- `for (i = 0; i < level; i++)`: the new node `x` goes behind `update[i]`.
  unfoldable pub link : ℕ → ℕ → Address → ℕ → Trail → Heap A → Option (Heap A)
  link zero i x rank trail h = some h
  link (suc n) i x rank trail h = do
    (u, r) ← trail i
    l ← get_level h u i
    h1 ← set_level x i (level l.forward (sub32 l.span (sub32 rank r))) h
    h2 ← set_level u i (level (some x) (add32 (sub32 rank r) 1)) h1
    link n (suc i) x rank trail h2

  -- `for (i = level; i < sl->level; i++)`
  unfoldable pub widen : ℕ → ℕ → Trail → Heap A → Option (Heap A)
  widen zero i trail h = some h
  widen (suc n) i trail h = do
    (u, r) ← trail i
    l ← get_level h u i
    h' ← set_level u i (record l { span = add32 l.span 1 }) h
    widen n (suc i) trail h'

  -- The link back from the next node, or the tail.
  abbrev pub link_back : Address → Option Address → SkipList A → Option (SkipList A)
  link_back x none s = some (record s { tail = some x })
  link_back x (some f) s = do h ← set_backward f (some x) s.heap; some (record s { heap = h })

  -- From the new level on: `x` is the node, and `rank[0]` its rank less one.
  unfoldable pub insert_node : ℕ → A → Obj → Address → ℕ → Trail → SkipList A → Option (SkipList A)
  insert_node n score obj u0 rank trail s = do
    (trail', h1) ← raise (n - s.level) s.level s.header s.length trail s.heap
    let x = s.fresh
    h2 ← link n 0 x rank trail' (write h1 x (some (create_node (s.memory x) n score (some obj))))
    h3 ← widen (s.level - n) n trail' h2
    h4 ← set_backward x (if u0 == s.header then none else some u0) h3
    l ← get_level h4 x 0
    s' ←
        link_back x l.forward
          (record s { heap = h4; fresh = suc x; level = if ltb s.level n then n else s.level })
    some (record s' { length = add64 s.length 1 })

module _ {A : Type 0} ⦃o : Scores A⦄ where
  unfoldable pub insert : A → Obj → List ℕ → SkipList A → Option (SkipList A)
  insert score obj draws s = do
    (u0, rank, trail) ← walk s add32 (node_test s.heap (before score obj))
    n ← random_level draws
    insert_node n score obj u0 rank trail s
