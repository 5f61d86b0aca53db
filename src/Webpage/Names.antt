-- ===== src/Webpage/Names.antt =====
-- The tables of names of lua-webpage.c: `strcmp` and `bsearch` as the C library has them, and `find`.
use quick.Prelude.{
  ℕ, zero, suc, ◌+◌, ◌/◌, Bool, true, false, Option, none, some, List, [], ◌∷◌, ltb, length,
  get_elem?, drop, take,
}
use Prim.Native.Nat.{compare, Ordering}
use quick.Webpage.Blocks.{Address}

-- `tpl_ptr_t`
pub record NamePtr : Type 0 where
  pub name : List ℕ
  pub block_at : Address

abbrev pub Table : Type 0
Table = List NamePtr

unfoldable pub strcmp : List ℕ → List ℕ → Ordering
strcmp [] [] = Ordering.eq
strcmp [] (y ∷ ys) = Ordering.lt
strcmp (x ∷ xs) [] = Ordering.gt
strcmp (x ∷ xs) (y ∷ ys) = elim (compare x y) [
  | Ordering.lt ↦ Ordering.lt
  | Ordering.eq ↦ strcmp xs ys
  | Ordering.gt ↦ Ordering.gt
]

abbrev pub is_eq : Ordering → Bool
is_eq Ordering.lt = false
is_eq Ordering.eq = true
is_eq Ordering.gt = false

-- `strcmp(a, b) == 0`
abbrev pub same_name : List ℕ → List ℕ → Bool
same_name a b = is_eq (strcmp a b)

-- `cmp_block_n`
abbrev pub cmp_block_n : List ℕ → NamePtr → Ordering
cmp_block_n elem e = strcmp elem e.name

-- `bsearch` between `lo` and `hi`: the index of some entry of the name.
unfoldable pub bsearch_from : ℕ → List ℕ → Table → ℕ → ℕ → Option ℕ
bsearch_from zero elem base lo hi = none
bsearch_from (suc fuel) elem base lo hi = elim (ltb lo hi) [
  | false ↦ none
  | true ↦ elim (get_elem? base ((lo + hi) / 2)) [
    | none ↦ none
    | some e ↦ elim (cmp_block_n elem e) [
      | Ordering.lt ↦ bsearch_from fuel elem base lo ((lo + hi) / 2)
      | Ordering.eq ↦ some ((lo + hi) / 2)
      | Ordering.gt ↦ bsearch_from fuel elem base ((lo + hi) / 2 + 1) hi
    ]
  ]
]

unfoldable pub bsearch : List ℕ → Table → Option ℕ
bsearch elem base = bsearch_from (suc (length base)) elem base 0 (length base)

abbrev pub is_named : List ℕ → Option NamePtr → Bool
is_named elem none = false
is_named elem (some e) = is_eq (cmp_block_n elem e)

-- `while(pos > 0 && … == 0) pos--;`
unfoldable pub walk_down : List ℕ → Table → ℕ → ℕ
walk_down elem base zero = zero
walk_down elem base (suc pos) = elim (is_named elem (get_elem? base pos)) [
  | true ↦ walk_down elem base pos
  | false ↦ suc pos
]

-- `while(pos + *nb < base->nlength && … == 0) (*nb)++;`
unfoldable pub count_named : List ℕ → Table → ℕ
count_named elem [] = 0
count_named elem (e ∷ es) = elim (is_eq (cmp_block_n elem e)) [
  | true ↦ suc (count_named elem es)
  | false ↦ 0
]

-- The position of the first entry and the number of entries, or nothing.
abbrev pub widen : List ℕ → Table → Option ℕ → Option (ℕ × ℕ)
widen elem base none = none
widen elem base (some p) =
    some (walk_down elem base p, count_named elem (drop (walk_down elem base p) base))

unfoldable pub find : List ℕ → Table → Option (ℕ × ℕ)
find elem base = widen elem base (bsearch elem base)

-- The entries that a caller of `find` goes through: `result[i]` for `i < nb`.
abbrev pub entries_of : Table → Option (ℕ × ℕ) → Table
entries_of base none = []
entries_of base (some (pos, nb)) = take nb (drop pos base)
