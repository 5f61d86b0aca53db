-- ===== src/Skiplist/Binding.antt =====
-- The functions of lua-skiplist.c behind their checks of arguments. A Lua integer is a signed
-- number of 64 bits, and a table filled from 1 on is a list.
use quick.Prelude.{
  get_elem?, ℕ, zero, suc, ◌+◌, ◌-◌, ◌%◌, ◌^◌, Bool, true, false, ◌||◌, Option, none, some, List,
  [], ◌∷◌, ◌==◌, ltb, leb, if◌then◌else◌, ◌>>=◌, length,
}
use quick.Prelude.Int.{ℤ, pos, negsuc}
use quick.Skiplist.Objects.{Scores, Obj, to_int}
use quick.Skiplist.Nodes.{Address, Node, Heap, SkipList}
use quick.Skiplist.Delete.{delete_by_rank}
use quick.Skiplist.Lookup.{get_rank, get_node_by_rank, first_in_range, last_in_range}

-- An integer as an unsigned number of `w` bits.
abbrev pub to_unsigned : ℕ → ℤ → ℕ
to_unsigned w (pos n) = n % 2 ^ w
to_unsigned w (negsuc n) = 2 ^ w - 1 - n % 2 ^ w

-- `rangelen` is an `int`.
abbrev pub rounds : ℤ → ℕ
rounds (pos n) = n
rounds (negsuc n) = 0

module _ {A : Type 0} where
  -- The ends in order; the number of nodes removed, the objects that the callback got, the list.
  unfoldable pub ldelete_by_rank : SkipList A → ℤ → ℤ → Option (ℕ × List Obj × SkipList A)
  ldelete_by_rank s start end = do
    let a = to_unsigned 32 start
    let b = to_unsigned 32 end
    (objs, s') ← if ltb b a then delete_by_rank b a s else delete_by_rank a b s
    some (length objs, objs, s')

  abbrev pub next_node : Bool → Node A → Option (Option Address)
  next_node true b = some b.backward
  next_node false b = do l ← get_elem? b.levels 0; some l.forward

  -- `while(node && n < rangelen)`
  unfoldable pub take_nodes : ℕ → Heap A → Bool → Option Address → Option (List Obj)
  take_nodes zero h reverse x = some []
  take_nodes (suc n) h reverse none = some []
  take_nodes (suc n) h reverse (some x) = do
    b ← h x
    a ← b.obj
    next ← next_node reverse b
    rest ← take_nodes n h reverse next
    some (a ∷ rest)

  unfoldable pub lget_rank_range : SkipList A → ℤ → ℤ → Option (List Obj)
  lget_rank_range s first last = do
    let r1 = to_unsigned 64 first
    let r2 = to_unsigned 64 last
    node ← get_node_by_rank s r1
    (if leb r1 r2
        then take_nodes (rounds (to_int (r2 - r1 + 1))) s.heap false node
        else take_nodes (rounds (to_int (r1 - r2 + 1))) s.heap true node)

module _ {A : Type 0} ⦃o : Scores A⦄ where
  -- 0 is no result.
  unfoldable pub lget_rank : SkipList A → A → Obj → Option (Option ℕ)
  lget_rank s score obj = do
    rank ← get_rank s score obj
    some (if rank == 0 then none else some rank)

  -- `node->score < s2` on the way back, and `node->score > s2` on the way on
  abbrev pub out_of_range : Bool → A → Node A → Bool
  out_of_range true s2 b = o.less b.score s2
  out_of_range false s2 b = o.less s2 b.score

  -- The loop runs on the number of nodes.
  unfoldable pub collect : ℕ → Heap A → Bool → A → Option Address → Option (List Obj)
  collect fuel h reverse s2 none = some []
  collect zero h reverse s2 (some x) = none
  collect (suc fuel) h reverse s2 (some x) = do
    b ← h x
    elim (out_of_range reverse s2 b) [
      | true ↦ some []
      | false ↦ do
        a ← b.obj
        next ← next_node reverse b
        rest ← collect fuel h reverse s2 next
        some (a ∷ rest)
    ]

  unfoldable pub lget_score_range : SkipList A → A → A → Option (List Obj)
  lget_score_range s s1 s2 = elim (o.less s1 s2 || o.same s1 s2) [
    | true ↦ do node ← first_in_range s s1 s2; collect s.length s.heap false s2 node
    | false ↦ do node ← last_in_range s s2 s1; collect s.length s.heap true s2 node
  ]
