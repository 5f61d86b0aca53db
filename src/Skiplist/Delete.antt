-- ===== src/Skiplist/Delete.antt =====
-- `slDeleteNode`, `slDelete` and `slDeleteByRank` of skiplist.c. The callback of `slDeleteByRank`
-- gets the objects one by one, which are returned as a list; it is taken to leave the list alone.
use quick.Prelude.{
  ℕ, zero, suc, Bool, true, false, ◌&&◌, Option, none, some, List, [], ◌∷◌, ◌==◌, ltb, leb,
  if◌then◌else◌, ◌>>=◌,
}
use quick.Skiplist.Objects.{Scores, Obj, equal_obj}
use quick.Skiplist.Nodes.{
  Address, level, Node, Heap, SkipList, write, get_level, set_level, set_backward, add32, sub32,
  add64, sub64,
}
use quick.Skiplist.Search.{Trail, walk, node_test, before}

abbrev pub points_to : Option Address → Address → Bool
points_to none x = false
points_to (some f) x = f == x

module _ {A : Type 0} where
  -- `for (i = 0; i < sl->level; i++)`, with the rounds left.
  unfoldable pub unlink : ℕ → ℕ → Address → Trail → Heap A → Option (Heap A)
  unlink zero i x trail h = some h
  unlink (suc n) i x trail h = do
    (u, r) ← trail i
    l ← get_level h u i
    lx ← if points_to l.forward x then get_level h x i else some l
    h' ←
        set_level u i
          (if points_to l.forward x
            then level lx.forward (add32 l.span (sub32 lx.span 1))
            else level l.forward (sub32 l.span 1))
          h
    unlink n (suc i) x trail h'

  abbrev pub unlink_back : Option Address → Option Address → SkipList A → Option (SkipList A)
  unlink_back prev none s = some (record s { tail = prev })
  unlink_back prev (some f) s = do h ← set_backward f prev s.heap; some (record s { heap = h })

  -- `while(sl->level > 1 && sl->header->level[sl->level-1].forward == NULL)`
  unfoldable pub lower : Heap A → Address → ℕ → Option ℕ
  lower h header zero = some zero
  lower h header (suc zero) = some 1
  lower h header (suc (suc n)) = do
    l ← get_level h header (suc n)
    elim (l.forward) [ none ↦ lower h header (suc n) | some f ↦ some (suc (suc n)) ]

  unfoldable pub delete_node : Address → Trail → SkipList A → Option (SkipList A)
  delete_node x trail s = do
    h ← unlink s.level 0 x trail s.heap
    b ← h x
    l ← get_level h x 0
    s' ← unlink_back b.backward l.forward (record s { heap = h })
    n ← lower s'.heap s'.header s'.level
    some (record s' { level = n; length = sub64 s'.length 1 })

  -- `slFreeNode`
  abbrev pub free_node : Address → SkipList A → SkipList A
  free_node x s = record s { heap = write s.heap x none }

  -- The nodes from `x` on while their ranks are at most `end`.
  unfoldable pub remove_upto :
      ℕ → ℕ → ℕ → Option Address → Trail → SkipList A → Option (List Obj × SkipList A)
  remove_upto fuel traversed end none trail s = some ([], s)
  remove_upto zero traversed end (some x) trail s = if leb traversed end then none else some ([], s)
  remove_upto (suc fuel) traversed end (some x) trail s = elim (leb traversed end) [
    | false ↦ some ([], s)
    | true ↦ do
      l ← get_level s.heap x 0
      s1 ← delete_node x trail s
      b ← s1.heap x
      a ← b.obj
      (objs, s2) ← remove_upto fuel (add64 traversed 1) end l.forward trail (free_node x s1)
      some (a ∷ objs, s2)
  ]

  -- `start` and `end` are `unsigned int`.
  unfoldable pub delete_by_rank : ℕ → ℕ → SkipList A → Option (List Obj × SkipList A)
  delete_by_rank start end s = do
    (u0, traversed, trail) ← walk s add64 (λ r f. some (ltb r start))
    l ← get_level s.heap u0 0
    remove_upto s.length (add64 traversed 1) end l.forward trail s

module _ {A : Type 0} ⦃o : Scores A⦄ where
  -- `score == x->score && equalslObj(x->obj,obj)`
  abbrev pub is_key : A → Obj → Node A → Option Bool
  is_key score obj b = do a ← b.obj; some (o.same score b.score && equal_obj a obj)

  abbrev pub delete_at : A → Obj → Option Address → Trail → SkipList A → Option (Bool × SkipList A)
  delete_at score obj none trail s = some (false, s)
  delete_at score obj (some x) trail s = do
    b ← s.heap x
    found ← is_key score obj b
    elim found [
      | false ↦ some (false, s)
      | true ↦ do s' ← delete_node x trail s; some (true, free_node x s')
    ]

  unfoldable pub delete : A → Obj → SkipList A → Option (Bool × SkipList A)
  delete score obj s = do
    (u0, rank, trail) ← walk s add64 (node_test s.heap (before score obj))
    l ← get_level s.heap u0 0
    delete_at score obj l.forward trail s
