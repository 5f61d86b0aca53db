-- ===== src/Array/Tests.antt =====
-- Runs of the sparse array: a table with values at the keys 3 and 7 and none at the keys up to 2,
-- whose slots hold 7, 3, 7.
use quick.Prelude.{
  ℕ, suc, ◌+◌, ◌*◌, ◌≡◌, refl, Bool, Option, none, some, [], ◌==◌, ◌||◌, if◌then◌else◌, arith, leb,
}
use quick.Prelude.Int.{pos, negsuc}
use quick.Array.{
  Slots, SparseArray, insert, sort_sparse, next_slot, lnewindex, llen, lnext, lnewarray, entry,
  done, entry_at,
}
use quick.Array.Insert.{insert-Inserted, Inserted}
use quick.Array.Sort.{sort_sparse_lem, Sparse}
use quick.Array.Next.{next_slot_lem, Sought}

abbrev no_border : (ℕ → Option ℕ) → ℕ
no_border items = 0

abbrev noted : ℕ → ℕ
noted j = if j == 1 then 3 else 7

abbrev stored : SparseArray ℕ
stored = record {
  items = λ key. if key == 3 || key == 7 then some (key * 10) else none;
  sparselen = pos 3;
  sparse = λ j. some (noted j);
}

abbrev odd : ℕ → ℕ
odd j = j * 2 + 1

abbrev odd_slots : Slots
odd_slots j = some (odd j)

abbrev sorted : SparseArray ℕ
sorted = record { items = λ key. some (key * 10); sparselen = negsuc 3; sparse = odd_slots }

-- Stores at 3 and 7 of an empty table, a length, and the walk through it.
two_stores : Option ℕ
unfolding lnewindex llen lnewarray
two_stores = elim (lnewindex no_border (pos 7) (some 70) (lnewarray [])) [
  | none ↦ none
  | some a ↦ elim (lnewindex no_border (pos 3) (some 30) a) [
    | none ↦ none
    | some b ↦ elim (llen no_border b) [ none ↦ none | some r ↦ r.0 ]
  ]
]

length_of_two : two_stores ≡ some 7
unfolding two_stores quick.Array.sorted_slots quick.Array.note_key sort_sparse quick.Array.sort_from
    quick.Array.put insert quick.Array.search_slot quick.Array.shift_up quick.Array.clear_from
length_of_two = refl

insert-Inserted_example :
    (slots' : Slots) × (added : Bool) × (insert 4 3 odd_slots ≡ some (slots', added))
    × Inserted 4 3 odd odd_slots slots' (if added then suc 3 else 3)
insert-Inserted_example = insert-Inserted odd_slots 4 3 odd (λ j h. refl) (λ j k jk kn. omega arith)

sort_sparse_lem_example :
    (n : ℕ) × (b : SparseArray ℕ) × (sort_sparse no_border stored 3 ≡ some (n, b))
    × Sparse no_border stored noted 3 b n
sort_sparse_lem_example = sort_sparse_lem no_border stored noted 3 (λ j h. refl)

next_slot_lem_example :
    (p : ℕ) × (next_slot no_border 4 sorted
      ≡ some (if leb 4 p then done else entry_at sorted (some (odd p)), sorted))
    × Sought 4 odd 4 p
next_slot_lem_example =
    next_slot_lem no_border sorted 4 4 odd refl (λ j h. refl) (λ j k jk kn. omega arith)
