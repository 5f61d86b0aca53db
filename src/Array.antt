-- ===== src/Array.antt =====
-- The sparse array of lualib-src/lua-array.c. A Lua table with integer keys is three parts here:
-- the items at the positive keys, the number at key 0, and the sparse slots at the negative keys,
-- where slot `j` is key `-j-1`. An absent key is nil, and `none` as a result is a Lua error.
pub mod Shift
pub mod Place
pub mod Insert
pub mod Sort
pub mod Next
mod Tests
use quick.Prelude.{
  ◌>>=◌, ℕ, zero, suc, ◌+◌, ◌-◌, ◌/◌, Bool, true, false, ◌&&◌, not, Option, none, some, ltb, leb,
  ◌==◌, if◌then◌else◌, List, [], ◌∷◌,
}
use quick.Prelude.Int.{ℤ, pos, negsuc, pos_part, neg_part, leb_ℤ}

abbrev pub Slots : Type 0
Slots = ℕ → Option ℕ

pub record SparseArray {ℓ} (A : Type ℓ) : Type ℓ where
  pub items : ℕ → Option A
  pub sparselen : ℤ
  pub sparse : Slots

-- `lua_rawseti`
unfoldable pub put {ℓ} : {A : Type ℓ} → ℕ → Option A → (ℕ → Option A) → ℕ → Option A
put s v slots j = if j == s then v else slots j

-- How the binary search of `insert` ends; `failed` is an error at a slot that is nil, or no fuel.
pub data Search : Type 0 where
  failed replicate : Search
  before : ℕ → Search

unfoldable pub search_slot : ℕ → Slots → ℕ → ℕ → ℕ → Search
search_slot zero slots key begin end = failed
search_slot (suc fuel) slots key begin end = elim (ltb begin end) [
  | false ↦ before end
  | true ↦ elim (slots ((begin + end) / 2)) [
    | none ↦ failed
    | some v ↦ elim (v == key) [
      | true ↦ replicate
      | false ↦ elim (ltb v key) [
        | true ↦ search_slot fuel slots key ((begin + end) / 2 + 1) end
        | false ↦ search_slot fuel slots key begin ((begin + end) / 2)
      ]
    ]
  ]
]

-- `for (i=n;i>end;i--)`, with `n - end` rounds left.
unfoldable pub shift_up : ℕ → ℕ → Slots → Slots
shift_up zero end slots = slots
shift_up (suc k) end slots = shift_up k end (put (end + suc k) (slots (end + k)) slots)

-- The new slots, and whether the key is new.
abbrev pub place : ℕ → ℕ → Slots → Search → Option (Slots × Bool)
place key n slots failed = none
place key n slots replicate = some (slots, false)
place key n slots (before end) = some (put end (some key) (shift_up (n - end) end slots), true)

unfoldable pub insert : ℕ → ℕ → Slots → Option (Slots × Bool)
insert key n slots = place key n slots (search_slot (suc n) slots key 0 n)

abbrev pub is_nil {ℓ} : {A : Type ℓ} → Option A → Bool
is_nil none = true
is_nil (some a) = false

-- `for (i=n;i<sparselen;i++)`, with `sparselen - n` rounds left.
unfoldable pub clear_from : ℕ → ℕ → Slots → Slots
clear_from zero i slots = slots
clear_from (suc k) i slots = clear_from k (i + 1) (put i none slots)

-- `-n`
abbrev pub negative : ℕ → ℤ
negative zero = pos 0
negative (suc n) = negsuc n

abbrev pub magnitude : ℤ → ℕ
magnitude z = pos_part z + neg_part z

-- What `next` returns: an error, nothing, or a key with its value.
pub data Entry {ℓ} (A : Type ℓ) : Type ℓ where
  invalid done : Entry A
  entry : ℕ → Option A → Entry A

-- The first key from `i` on with a value, with `rawlen - i + 1` rounds left.
unfoldable pub next_item {ℓ} : {A : Type ℓ} → ℕ → ℕ → (ℕ → Option A) → Entry A
next_item zero i items = invalid
next_item (suc rest) i items = elim (items i) [
  | some v ↦ entry i (some v)
  | none ↦ next_item rest (i + 1) items
]

-- The binary search of `next`; `none` is an error at a slot that is nil, or no fuel.
unfoldable pub seek : ℕ → Slots → ℕ → ℕ → ℕ → Option ℕ
seek zero slots idx begin end = none
seek (suc fuel) slots idx begin end = elim (ltb begin end) [
  | false ↦ some begin
  | true ↦ elim (slots ((begin + end) / 2)) [
    | none ↦ none
    | some v ↦ elim (ltb idx v) [
      | true ↦ seek fuel slots idx begin ((begin + end) / 2)
      | false ↦ elim (ltb v idx) [
        | true ↦ seek fuel slots idx ((begin + end) / 2 + 1) end
        | false ↦ some ((begin + end) / 2)
      ]
    ]
  ]
]

abbrev pub entry_at {ℓ} : {A : Type ℓ} → SparseArray A → Option ℕ → Entry A
entry_at a none = invalid
entry_at a (some idx) = entry idx (a.items idx)

abbrev pub at_slot {ℓ} : {A : Type ℓ} → SparseArray A → ℕ → ℕ → Entry A
at_slot a n begin = if leb n begin then done else entry_at a (a.sparse begin)

-- `rawlen` is `lua_rawlen`: a border of the items.
module _ {ℓ} {A : Type ℓ} (rawlen : (ℕ → Option A) → ℕ) where
  -- A key above the border whose value is not nil stays.
  abbrev pub is_live : (ℕ → Option A) → ℕ → Bool
  is_live items idx = not (leb idx (rawlen items)) && not (is_nil (items idx))

  -- The insertion sort, with `sparselen - i` rounds left.
  unfoldable pub sort_from : (ℕ → Option A) → ℕ → ℕ → ℕ → Slots → Option (ℕ × Slots)
  sort_from items zero i n slots = some (n, slots)
  sort_from items (suc rest) i n slots = elim (slots i) [
    | none ↦ none
    | some idx ↦ elim (is_live items idx) [
      | false ↦ sort_from items rest (i + 1) n slots
      | true ↦ elim (insert idx n slots) [
        | none ↦ none
        | some r ↦ sort_from items rest (i + 1) (if r.1 then suc n else n) r.0
      ]
    ]
  ]

  unfoldable pub sort_sparse : SparseArray A → ℕ → Option (ℕ × SparseArray A)
  sort_sparse a sparselen = do
    (n, slots) ← sort_from a.items sparselen 0 0 a.sparse
    some (n, record a { sparselen = negative n; sparse = clear_from (sparselen - n) n slots })

  -- A store at a key above the border is noted in the next free slot.
  unfoldable pub note_key : ℕ → SparseArray A → SparseArray A
  note_key idx a = if leb idx (rawlen a.items) then a else record a {
    sparselen = pos (magnitude a.sparselen + 1);
    sparse = put (magnitude a.sparselen) (some idx) a.sparse;
  }

  unfoldable pub lnewindex : ℤ → Option A → SparseArray A → Option (SparseArray A)
  lnewindex idx value a =
      if leb_ℤ idx (pos 0)
      then none
      else some (note_key (pos_part idx) (record a { items = put (pos_part idx) value a.items }))

  -- Sorted slots, and their number: a negative number at key 0 says that they are sorted.
  unfoldable pub sorted_slots : SparseArray A → Option (ℕ × SparseArray A)
  sorted_slots a =
      if leb_ℤ a.sparselen (pos 0)
      then some (neg_part a.sparselen, a)
      else sort_sparse a (pos_part a.sparselen)

  -- The state in which `pairs` starts its walk with `next`.
  unfoldable pub lpairs : SparseArray A → Option (SparseArray A)
  lpairs a = do (n, b) ← sorted_slots a; some b

  -- The last slot holds the length, if there is one.
  abbrev pub last_key : SparseArray A → ℕ → Option ℕ
  last_key a zero = some (rawlen a.items)
  last_key a (suc n) = a.sparse n

  unfoldable pub llen : SparseArray A → Option (Option ℕ × SparseArray A)
  llen a = do (n, b) ← sorted_slots a; some (last_key b n, b)

  -- The first sorted key that is not below `idx`.
  unfoldable pub next_slot : ℕ → SparseArray A → Option (Entry A × SparseArray A)
  next_slot idx a = do
    (n, b) ← sorted_slots a
    begin ← seek (suc n) b.sparse idx 0 n
    some (at_slot b n begin, b)

  abbrev pub next_from : ℕ → SparseArray A → Option A → Option (Entry A × SparseArray A)
  next_from idx a (some v) = some (entry idx (some v), a)
  next_from idx a none =
      if leb idx (rawlen a.items)
      then some (next_item (rawlen a.items - idx) (idx + 1) a.items, a)
      else next_slot idx a

  -- `next` behind the key that it returned last; nil starts at key 1.
  unfoldable pub lnext : Option ℕ → SparseArray A → Option (Entry A × SparseArray A)
  lnext none a = next_from 1 a (a.items 1)
  lnext (some last) a = next_from (last + 1) a (a.items (last + 1))

-- The table that `newarray` makes of its arguments.
abbrev items_of {ℓ} : {A : Type ℓ} → List (Option A) → ℕ → Option A
items_of [] key = none
items_of (v ∷ vs) zero = none
items_of (v ∷ vs) (suc zero) = v
items_of (v ∷ vs) (suc (suc key)) = items_of vs (suc key)

unfoldable pub lnewarray {ℓ} : {A : Type ℓ} → List (Option A) → SparseArray A
lnewarray values = record { items = items_of values; sparselen = pos 0; sparse = λ j. none }
