-- ===== src/Skiplist/Tests.antt =====
-- The sorted sets of lua-skiplist at small inputs, with numbers for scores.
use quick.Prelude.{
  ◌+◌, ◌≢◌, Bool, subst, inr, inl, ◌∙◌, Bool-cases, sym, ◌++◌, ◌⊎◌, arith, ℕ, ◌≡◌, refl, true,
  Option, none, some, List, [], ◌∷◌, codes, ltb, ◌==◌, ◌>>=◌,
}
use quick.Prelude.Int.{pos}
use quick.Skiplist.Objects.{is_before, Scores, Obj}
use quick.Skiplist.Order.{ScoreLaws, add_entry}
use quick.Skiplist.Cells.{Cell}
use quick.Skiplist.Search.{random_level, raise_level}
use quick.Skiplist.Levels.{random_level-low}
use quick.Skiplist.Ranks.{get_node_by_rank_lem}
use quick.Skiplist.Freeing.{Gone, free_list-Gone}
use quick.Skiplist.Apart.{Absent}
use quick.Skiplist.Taking.{taken, take_key}
use quick.Skiplist.Deletion.{Released}
use quick.Skiplist.Sets.{
  IsSortedSet, new_entry, create-IsSortedSet, delete-IsSortedSet, delete-insert, insert-IsSortedSet,
}
use quick.Skiplist.ObjectOrder.{is_before-order, order, is_lt}
use quick.Skiplist.Nodes.{Garbage, level, Address, free_list, Heap, SkipList, create}
use quick.Skiplist.Insert.{insert}
use quick.Skiplist.Delete.{delete, delete_by_rank}
use quick.Skiplist.Lookup.{get_node_by_rank, get_rank}
use quick.Skiplist.Binding.{lget_rank_range, lget_score_range, ldelete_by_rank}

instance abbrev numbers : Scores ℕ
numbers = record { zero_score = 0; less = ltb; same = ◌==◌ }

-- Memory that has been used before.
abbrev dirty : Address → Garbage
dirty a = record { backward = some 77; level_at = λ i. level (some 88) (i + 99) }

-- Nodes of one, three and two levels.
abbrev three : Option (SkipList ℕ)
three = do
  s0 ← create (λ a. none) 0 dirty
  s1 ← insert 20 (codes "b") (60000 ∷ []) s0
  s2 ← insert 10 (codes "a") (0 ∷ 16383 ∷ 16384 ∷ []) s1
  insert 20 (codes "c") (5 ∷ 60000 ∷ []) s2

abbrev range_of : ℕ → ℕ → Option (List Obj)
range_of a b = do s ← three; lget_rank_range s (pos a) (pos b)

range_run : range_of 1 9 ≡ some (codes "a" ∷ codes "b" ∷ codes "c" ∷ [])
unfolding insert create quick.Skiplist.Nodes.clear_levels quick.Skiplist.Search.descend
    quick.Skiplist.Search.advance quick.Skiplist.Nodes.get_level quick.Skiplist.Nodes.write
    quick.Skiplist.Search.random_level quick.Skiplist.Search.raise_level
    quick.Skiplist.Insert.insert_node quick.Skiplist.Insert.raise quick.Skiplist.Insert.link
    quick.Skiplist.Search.set_trail quick.Skiplist.Nodes.set_level quick.Skiplist.Insert.widen
    quick.Skiplist.Nodes.set_backward quick.Skiplist.Search.before
    quick.Skiplist.Objects.compare_obj quick.Skiplist.Objects.memcmp lget_rank_range
    quick.Skiplist.Lookup.get_node_by_rank quick.Skiplist.Lookup.node_from
    quick.Skiplist.Binding.take_nodes
range_run = refl

range_back_run : range_of 3 1 ≡ some (codes "c" ∷ codes "b" ∷ codes "a" ∷ [])
unfolding insert create quick.Skiplist.Nodes.clear_levels quick.Skiplist.Search.descend
    quick.Skiplist.Search.advance quick.Skiplist.Nodes.get_level quick.Skiplist.Nodes.write
    quick.Skiplist.Search.random_level quick.Skiplist.Search.raise_level
    quick.Skiplist.Insert.insert_node quick.Skiplist.Insert.raise quick.Skiplist.Insert.link
    quick.Skiplist.Search.set_trail quick.Skiplist.Nodes.set_level quick.Skiplist.Insert.widen
    quick.Skiplist.Nodes.set_backward quick.Skiplist.Search.before
    quick.Skiplist.Objects.compare_obj quick.Skiplist.Objects.memcmp lget_rank_range
    quick.Skiplist.Lookup.get_node_by_rank quick.Skiplist.Lookup.node_from
    quick.Skiplist.Binding.take_nodes
range_back_run = refl

-- Between two scores.
scores_run : (do s ← three; lget_score_range s 15 30) ≡ some (codes "b" ∷ codes "c" ∷ [])
unfolding insert create quick.Skiplist.Nodes.clear_levels quick.Skiplist.Search.descend
    quick.Skiplist.Search.advance quick.Skiplist.Nodes.get_level quick.Skiplist.Nodes.write
    quick.Skiplist.Search.random_level quick.Skiplist.Search.raise_level
    quick.Skiplist.Insert.insert_node quick.Skiplist.Insert.raise quick.Skiplist.Insert.link
    quick.Skiplist.Search.set_trail quick.Skiplist.Nodes.set_level quick.Skiplist.Insert.widen
    quick.Skiplist.Nodes.set_backward quick.Skiplist.Search.before
    quick.Skiplist.Objects.compare_obj quick.Skiplist.Objects.memcmp lget_score_range
    quick.Skiplist.Lookup.first_in_range quick.Skiplist.Lookup.last_in_range
    quick.Skiplist.Lookup.is_in_range quick.Skiplist.Binding.collect
scores_run = refl

rank_run : (do s ← three; get_rank s 20 (codes "c")) ≡ some 3
unfolding insert create quick.Skiplist.Nodes.clear_levels quick.Skiplist.Search.descend
    quick.Skiplist.Search.advance quick.Skiplist.Nodes.get_level quick.Skiplist.Nodes.write
    quick.Skiplist.Search.random_level quick.Skiplist.Search.raise_level
    quick.Skiplist.Insert.insert_node quick.Skiplist.Insert.raise quick.Skiplist.Insert.link
    quick.Skiplist.Search.set_trail quick.Skiplist.Nodes.set_level quick.Skiplist.Insert.widen
    quick.Skiplist.Nodes.set_backward quick.Skiplist.Search.before
    quick.Skiplist.Objects.compare_obj quick.Skiplist.Objects.memcmp get_rank
    quick.Skiplist.Lookup.rank_from quick.Skiplist.Search.upto
rank_run = refl

-- The rank of an object that has another score.
other_score_run : (do s ← three; get_rank s 99 (codes "c")) ≡ some 3
unfolding insert create quick.Skiplist.Nodes.clear_levels quick.Skiplist.Search.descend
    quick.Skiplist.Search.advance quick.Skiplist.Nodes.get_level quick.Skiplist.Nodes.write
    quick.Skiplist.Search.random_level quick.Skiplist.Search.raise_level
    quick.Skiplist.Insert.insert_node quick.Skiplist.Insert.raise quick.Skiplist.Insert.link
    quick.Skiplist.Search.set_trail quick.Skiplist.Nodes.set_level quick.Skiplist.Insert.widen
    quick.Skiplist.Nodes.set_backward quick.Skiplist.Search.before
    quick.Skiplist.Objects.compare_obj quick.Skiplist.Objects.memcmp get_rank
    quick.Skiplist.Lookup.rank_from quick.Skiplist.Search.upto
other_score_run = refl

delete_run :
    (do s ← three; (found, s') ← delete 20 (codes "b") s; lget_rank_range s' (pos 2) (pos 1))
    ≡ some (codes "c" ∷ codes "a" ∷ [])
unfolding insert create quick.Skiplist.Nodes.clear_levels quick.Skiplist.Search.descend
    quick.Skiplist.Search.advance quick.Skiplist.Nodes.get_level quick.Skiplist.Nodes.write
    quick.Skiplist.Search.random_level quick.Skiplist.Search.raise_level
    quick.Skiplist.Insert.insert_node quick.Skiplist.Insert.raise quick.Skiplist.Insert.link
    quick.Skiplist.Search.set_trail quick.Skiplist.Nodes.set_level quick.Skiplist.Insert.widen
    quick.Skiplist.Nodes.set_backward quick.Skiplist.Search.before
    quick.Skiplist.Objects.compare_obj quick.Skiplist.Objects.memcmp delete lget_rank_range
    quick.Skiplist.Delete.delete_node quick.Skiplist.Delete.unlink quick.Skiplist.Delete.lower
    quick.Skiplist.Lookup.get_node_by_rank quick.Skiplist.Lookup.node_from
    quick.Skiplist.Binding.take_nodes
delete_run = refl

delete_by_rank_run :
    (do s ← three; (n, objs, s') ← ldelete_by_rank s (pos 2) (pos 1); lget_score_range s' 99 0)
    ≡ some (codes "c" ∷ [])
unfolding insert create quick.Skiplist.Nodes.clear_levels quick.Skiplist.Search.descend
    quick.Skiplist.Search.advance quick.Skiplist.Nodes.get_level quick.Skiplist.Nodes.write
    quick.Skiplist.Search.random_level quick.Skiplist.Search.raise_level
    quick.Skiplist.Insert.insert_node quick.Skiplist.Insert.raise quick.Skiplist.Insert.link
    quick.Skiplist.Search.set_trail quick.Skiplist.Nodes.set_level quick.Skiplist.Insert.widen
    quick.Skiplist.Nodes.set_backward quick.Skiplist.Search.before
    quick.Skiplist.Objects.compare_obj quick.Skiplist.Objects.memcmp ldelete_by_rank delete_by_rank
    lget_score_range quick.Skiplist.Delete.remove_upto quick.Skiplist.Delete.delete_node
    quick.Skiplist.Delete.unlink quick.Skiplist.Delete.lower quick.Skiplist.Lookup.first_in_range
    quick.Skiplist.Lookup.last_in_range quick.Skiplist.Lookup.is_in_range
    quick.Skiplist.Binding.collect
delete_by_rank_run = refl

-- The numbers are in order.
numbers_laws : ScoreLaws numbers
numbers_laws = record {
  asym = λ a b lt. ground arith;
  total = λ a b c lt. less_total a b c lt;
  same_is = λ a b. ground arith;
}
  where
    less_total : (a b c : ℕ) → ltb a b ≡ true → (ltb a c ≡ true) ⊎ (ltb c b ≡ true)
    less_total a b c lt = elim (Bool-cases (ltb a c)) [
      | inl first ↦ inl first
      | inr other ↦ inr (ground arith)
    ]

abbrev nowhere : SkipList ℕ
nowhere = record {
  heap = λ a. none;
  fresh = 0;
  header = 0;
  tail = none;
  length = 0;
  level = 0;
  memory = dirty;
}

abbrev or_empty : Option (SkipList ℕ) → SkipList ℕ
or_empty none = nowhere
or_empty (some s) = s

abbrev empty : SkipList ℕ
empty = or_empty (create (λ a. none) 0 dirty)

empty_run : create (λ a. none) 0 dirty ≡ some empty
unfolding create quick.Skiplist.Nodes.clear_levels quick.Skiplist.Nodes.set_level
    quick.Skiplist.Nodes.set_backward quick.Skiplist.Nodes.write
empty_run = refl

empty-IsSortedSet : IsSortedSet empty []
empty-IsSortedSet =
    let (after, runs, set) = create-IsSortedSet (λ a. none) 0 dirty in
    let found : some after ≡ some empty = sym runs ∙ empty_run in
    let same : after ≡ empty = cc in subst (λ s. IsSortedSet s []) same set

abbrev one : SkipList ℕ
one = or_empty (insert 20 (codes "b") (60000 ∷ []) empty)

abbrev entry_b : Cell ℕ
entry_b = new_entry empty 20 (codes "b") 1

one_run : insert 20 (codes "b") (60000 ∷ []) empty ≡ some one
unfolding insert create quick.Skiplist.Nodes.clear_levels quick.Skiplist.Search.descend
    quick.Skiplist.Search.advance quick.Skiplist.Nodes.get_level quick.Skiplist.Nodes.write
    quick.Skiplist.Search.random_level quick.Skiplist.Search.raise_level
    quick.Skiplist.Insert.insert_node quick.Skiplist.Insert.raise quick.Skiplist.Insert.link
    quick.Skiplist.Search.set_trail quick.Skiplist.Nodes.set_level quick.Skiplist.Insert.widen
    quick.Skiplist.Nodes.set_backward quick.Skiplist.Search.before
    quick.Skiplist.Objects.compare_obj quick.Skiplist.Objects.memcmp
one_run = refl

low_level : random_level (60000 ∷ []) ≡ some 1
unfolding random_level raise_level
low_level = refl

high_level : random_level (0 ∷ 16383 ∷ 16384 ∷ []) ≡ some 3
unfolding random_level raise_level
high_level = refl

one-IsSortedSet : IsSortedSet one (entry_b ∷ [])
one-IsSortedSet =
    let (after, runs, set) =
      insert-IsSortedSet numbers_laws empty [] 20 (codes "b") (60000 ∷ []) 1 empty-IsSortedSet
        (omega arith) (omega arith) low_level in
    let found : some after ≡ some one = sym runs ∙ one_run in
    let same : after ≡ one = cc in subst (λ s. IsSortedSet s (entry_b ∷ [])) same set

-- An entry before the one that is there, on three levels.
insert-IsSortedSet_example :
    (after : SkipList ℕ) × (insert 10 (codes "a") (0 ∷ 16383 ∷ 16384 ∷ []) one ≡ some after)
    × IsSortedSet after (add_entry (new_entry one 10 (codes "a") 3) (entry_b ∷ []))
insert-IsSortedSet_example =
    insert-IsSortedSet numbers_laws one (entry_b ∷ []) 10 (codes "a") (0 ∷ 16383 ∷ 16384 ∷ []) 3
      one-IsSortedSet (omega arith) (omega arith) high_level

get_node_by_rank_lem_example : get_node_by_rank one 1 ≡ some (some 1)
unfolding create quick.Skiplist.Nodes.clear_levels quick.Skiplist.Nodes.set_level
    quick.Skiplist.Nodes.write quick.Skiplist.Nodes.set_backward
get_node_by_rank_lem_example = get_node_by_rank_lem one (entry_b ∷ []) one-IsSortedSet.represents 1

random_level-low_example : random_level ((0 ∷ 16383 ∷ []) ++ (16384 ∷ 5 ∷ [])) ≡ some 3
random_level-low_example = random_level-low (0 ∷ 16383 ∷ []) 16384 (5 ∷ []) (refl, (refl, tt)) refl

is_before-order_example :
    is_before (codes "a") (codes "ab") ≡ is_lt (order (codes "a") (codes "ab"))
is_before-order_example = is_before-order (codes "a") (codes "ab") (omega arith) (omega arith)

-- The one entry goes.
delete-IsSortedSet_example :
    (found : Bool) × (left : List (Cell ℕ)) × (after : SkipList ℕ) × (delete 20 (codes "b") one
      ≡ some (found, after))
    × (take_key 20 (codes "b") (entry_b ∷ []) ≡ (found, left))
    × Released one after (taken 20 (codes "b") (entry_b ∷ []))
    × IsSortedSet after left
delete-IsSortedSet_example =
    delete-IsSortedSet numbers_laws one (entry_b ∷ []) 20 (codes "b") one-IsSortedSet (omega arith)

delete-insert_example :
    (after : SkipList ℕ) × ((insert 10 (codes "a") (0 ∷ 16383 ∷ 16384 ∷ []) one >>= λ s.
    delete 10 (codes "a") s)
      ≡ some (true, after))
    × IsSortedSet after (entry_b ∷ [])
delete-insert_example =
    delete-insert numbers_laws one (entry_b ∷ []) 10 (codes "a") (0 ∷ 16383 ∷ 16384 ∷ []) 3
      one-IsSortedSet (omega arith) (omega arith) high_level

free_list-Gone_example :
    (after : Heap ℕ) × (free_list one ≡ some after)
    × (after one.header ≡ none)
    × Gone after (entry_b ∷ [])
    × ((q : Address) → q ≢ one.header → Absent q (entry_b ∷ []) → after q ≡ one.heap q)
free_list-Gone_example = free_list-Gone one (entry_b ∷ []) one-IsSortedSet.represents
