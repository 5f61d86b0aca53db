-- ===== src/Skiplist/Sets.antt =====
-- A list of skiplist.c as a sorted set, under `slCreate`, `slInsert` and `slDelete`.
use quick.Prelude.{
  refl, subst, ap, ◌∙◌, sym, true, Bool, ◌>>=◌, ℕ, suc, ◌<◌, ◌^◌, ◌≡◌, some, List, [], length,
}
use quick.Skiplist.Objects.{Scores, Obj}
use quick.Skiplist.Nodes.{Garbage, Address, Heap, SkipList, create}
use quick.Skiplist.Search.{random_level}
use quick.Skiplist.Insert.{insert}
use quick.Skiplist.Cells.{Cell, Cells}
use quick.Skiplist.ObjectOrder.{Fits}
use quick.Skiplist.Order.{ScoreLaws, AllFit, Sorted, add_entry}
use quick.Skiplist.Delete.{delete}
use quick.Skiplist.Deletion.{Released, delete-Shrunk}
use quick.Skiplist.Taking.{taken, take_key, take_key-add_entry}
use quick.Skiplist.Sorting.{add_entry-Sorted, add_entry-AllFit}
use quick.Skiplist.State.{Represents, create_lem}
use quick.Skiplist.Insertion.{insert-Represents}

-- The list holds the entries in their order, and no object is longer than an `int` can say.
pub record IsSortedSet {A : Type 0} ⦃o : Scores A⦄ (s : SkipList A) (xs : Cells A) : Type 0 where
  pub represents : Represents s xs
  pub sorted : Sorted xs
  pub fits : AllFit xs

-- The entry of a node that memory gives next.
abbrev pub new_entry : {A : Type 0} → SkipList A → A → Obj → ℕ → Cell A
new_entry s score obj n = record { at = s.fresh; score = score; obj = obj; height = n }

pub create-IsSortedSet :
    {A : Type 0} ⦃o : Scores A⦄ (h : Heap A) (fresh : Address) (memory : Address → Garbage)
    → (after : SkipList A) × (create h fresh memory ≡ some after) × IsSortedSet after []
create-IsSortedSet h fresh memory =
    let t = create_lem h fresh memory in
    (t.after, t.runs, record { represents = t.represents; sorted = tt; fits = tt })

-- For scores in a weak order, an object of less than 2^31 bytes, fewer than 2^32 entries and random
-- numbers that give a level: `slInsert` ends without a fault, and leaves the set with the new entry
-- behind all that are before it by score, then object, and in front of the others. Every level of
-- every node points to the next node of that level, every span is its distance, and the links back,
-- the tail and the length are those of the new list.
pub insert-IsSortedSet :
    {A : Type 0} ⦃o : Scores A⦄ (laws : ScoreLaws o) (s : SkipList A) (xs : Cells A) (score : A)
    (obj : Obj) (draws : List ℕ) (n : ℕ)
    → IsSortedSet s xs
    → suc (length xs) < 2 ^ 32
    → Fits obj
    → random_level draws ≡ some n
    → (after : SkipList A) × (insert score obj draws s ≡ some after)
      × IsSortedSet after (add_entry (new_entry s score obj n) xs)
insert-IsSortedSet laws s xs score obj draws n v small fits drawn =
    let c = new_entry s score obj n in
    let t =
      insert-Represents laws s xs score obj draws n v.represents v.fits v.sorted small fits drawn in
    (
      t.after,
      t.runs,
      record {
        represents = t.represents;
        sorted = add_entry-Sorted laws c xs fits v.fits v.sorted;
        fits = add_entry-AllFit laws c xs fits v.fits;
      },
    )

-- For scores in a weak order and an object of less than 2^31 bytes: `slDelete` ends without a
-- fault. If the first entry that is not before the score and the object has both, it takes it out,
-- its node's memory is free then, and it returns 1; otherwise it returns 0 and the list and the
-- memory are as they were. What it leaves is a sorted set of the other
-- entries, with links, spans, links back, tail and length as they should be.
pub delete-IsSortedSet :
    {A : Type 0} ⦃o : Scores A⦄ (laws : ScoreLaws o) (s : SkipList A) (xs : Cells A) (score : A)
    (obj : Obj)
    → IsSortedSet s xs
    → Fits obj
    → (found : Bool) × (left : Cells A) × (after : SkipList A) × (delete score obj s
        ≡ some (found, after))
      × (take_key score obj xs ≡ (found, left))
      × Released s after (taken score obj xs)
      × IsSortedSet after left
delete-IsSortedSet laws s xs score obj v fits =
    let t = delete-Shrunk laws s xs score obj v.represents v.fits v.sorted fits in
    (
      t.found,
      t.left,
      t.after,
      t.runs,
      t.left_is,
      t.released,
      record { represents = t.represents; sorted = t.sorted; fits = t.fits },
    )

-- Under the conditions of both, `slDelete` behind `slInsert` of the same score and object returns 1
-- and leaves the set with the entries that it had.
pub delete-insert :
    {A : Type 0} ⦃o : Scores A⦄ (laws : ScoreLaws o) (s : SkipList A) (xs : Cells A) (score : A)
    (obj : Obj) (draws : List ℕ) (n : ℕ)
    → IsSortedSet s xs
    → suc (length xs) < 2 ^ 32
    → Fits obj
    → random_level draws ≡ some n
    → (after : SkipList A) × ((insert score obj draws s >>= λ s'. delete score obj s')
        ≡ some (true, after))
      × IsSortedSet after xs
delete-insert {A = A} laws s xs score obj draws n v small fits drawn =
    let c = new_entry s score obj n in
    let (s', inserts, v') = insert-IsSortedSet laws s xs score obj draws n v small fits drawn in
    let (found, left, after, deletes, left_is, released, v'') =
      delete-IsSortedSet laws s' (add_entry c xs) score obj v' fits in
    let taken : ◌≡◌ {A = Bool × Cells A} (found, left) (true, xs) =
      sym left_is ∙ take_key-add_entry laws score obj fits c xs refl refl in
    let founds : found ≡ true = ap (λ t. t.0) taken in
    let lefts : left ≡ xs = ap (λ t. t.1) taken in
    (
      after,
      rw inserts (deletes ∙ ap (λ f. some (f, after)) founds),
      subst (λ ys. IsSortedSet after ys) lefts v'',
    )
