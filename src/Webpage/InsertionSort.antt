-- ===== src/Webpage/InsertionSort.antt =====
-- Insertion sort by name: one of the functions that `qsort` of the C library may be.
use mathlib.Core.List.{Permᴰ}
use mathlib.Core.List.Permᴰ
use quick.Prelude.{ℕ, ◌≢◌, refl, inl, inr, List, [], ◌∷◌}
use Prim.Native.Nat.{Ordering}
use quick.Webpage.Names.{NamePtr, Table, strcmp}
use quick.Webpage.NameOrder.{Above, Above-trans, IsSorted, Ordering-cases, strcmp_flip}
use quick.Webpage.Sorter.{Sorter}

unfoldable pub put_sorted : NamePtr → Table → Table
put_sorted e [] = e ∷ []
put_sorted e (x ∷ xs) = elim (strcmp e.name x.name) [
  | Ordering.lt ↦ e ∷ x ∷ xs
  | Ordering.eq ↦ e ∷ x ∷ xs
  | Ordering.gt ↦ x ∷ put_sorted e xs
]

unfoldable pub insertion_sort : Table → Table
insertion_sort [] = []
insertion_sort (e ∷ es) = put_sorted e (insertion_sort es)

put_sorted-Above :
    (n : List ℕ) (e : NamePtr) (es : Table)
    → strcmp n e.name ≢ Ordering.gt
    → Above n es
    → Above n (put_sorted e es)
unfolding put_sorted
put_sorted-Above n e [] h above = (h, tt)
put_sorted-Above n e (x ∷ xs) h above = elim (Ordering-cases (strcmp e.name x.name)) [
  | inl k ↦ rw (k, put_sorted) (h, above)
  | inr (inl k) ↦ rw (k, put_sorted) (h, above)
  | inr (inr k) ↦ rw (k, put_sorted) (above.0, put_sorted-Above n e xs h above.1)
]

put_sorted-IsSorted : (e : NamePtr) (es : Table) → IsSorted es → IsSorted (put_sorted e es)
unfolding put_sorted
put_sorted-IsSorted e [] sorted = (tt, tt)
put_sorted-IsSorted e (x ∷ xs) sorted = elim (Ordering-cases (strcmp e.name x.name)) [
  | inl k ↦
      let le : strcmp e.name x.name ≢ Ordering.gt = cc in
      rw (k, put_sorted) ((le, Above-trans e.name x.name xs le sorted.0), sorted)
  | inr (inl k) ↦
      let le : strcmp e.name x.name ≢ Ordering.gt = cc in
      rw (k, put_sorted) ((le, Above-trans e.name x.name xs le sorted.0), sorted)
  | inr (inr k) ↦
      rw (k, put_sorted)
        (
          put_sorted-Above x.name e xs (strcmp_flip e.name x.name k) sorted.0,
          put_sorted-IsSorted e xs sorted.1,
        )
]

pub insertion_sort-IsSorted : (es : Table) → IsSorted (insertion_sort es)
unfolding insertion_sort
insertion_sort-IsSorted [] = tt
insertion_sort-IsSorted (e ∷ es) =
    put_sorted-IsSorted e (insertion_sort es) (insertion_sort-IsSorted es)

put_sorted-Permᴰ : (e : NamePtr) (es : Table) → Permᴰ (put_sorted e es) (e ∷ es)
unfolding put_sorted
put_sorted-Permᴰ e [] = Permᴰ.refl (e ∷ [])
put_sorted-Permᴰ e (x ∷ xs) = elim (Ordering-cases (strcmp e.name x.name)) [
  | inl k ↦ rw (k, put_sorted) (Permᴰ.refl (e ∷ x ∷ xs))
  | inr (inl k) ↦ rw (k, put_sorted) (Permᴰ.refl (e ∷ x ∷ xs))
  | inr (inr k) ↦
      rw (k, put_sorted)
        (Permᴰ.trans (Permᴰ.cons refl (put_sorted-Permᴰ e xs)) (Permᴰ.swap refl refl))
]

pub insertion_sort-Permᴰ : (es : Table) → Permᴰ (insertion_sort es) es
unfolding insertion_sort
insertion_sort-Permᴰ [] = Permᴰ.nil
insertion_sort-Permᴰ (e ∷ es) =
    Permᴰ.trans (put_sorted-Permᴰ e (insertion_sort es)) (Permᴰ.cons refl (insertion_sort-Permᴰ es))

abbrev pub insertion_sorter : Sorter
insertion_sorter = record {
  sort = insertion_sort;
  sorted = insertion_sort-IsSorted;
  permuted = insertion_sort-Permᴰ;
}
