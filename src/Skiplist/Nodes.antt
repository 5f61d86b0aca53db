-- ===== src/Skiplist/Nodes.antt =====
-- `skiplistNode` and `skiplist` of skiplist.h, and the memory of one list. Memory hands out one
-- address after the other; `malloc` is taken to succeed. A use of an address with no node, or of a
-- level that a node does not have, is a fault. The object lies in its node; the header has none.
use quick.Prelude.{
  [], ◌∷◌, ℕ, zero, suc, ◌+◌, ◌-◌, ◌%◌, ◌^◌, Option, none, some, List, ◌==◌, if◌then◌else◌, ◌>>=◌,
  get_elem?, set,
}
use quick.Skiplist.Objects.{Scores, Obj}

abbrev pub Address : Type 0
Address = ℕ

-- `struct skiplistLevel`
pub record Level : Type 0 where
  pub forward : Option Address
  pub span : ℕ

abbrev pub level : Option Address → ℕ → Level
level forward span = record { forward = forward; span = span }

pub record Node (A : Type 0) : Type 0 where
  pub obj : Option Obj
  pub score : A
  pub backward : Option Address
  pub levels : List Level

-- The first `n` of a sequence.
abbrev pub first_levels : ℕ → (ℕ → Level) → List Level
first_levels zero f = []
first_levels (suc n) f = f 0 ∷ first_levels n (λ i. f (suc i))

abbrev pub Heap : Type 0 → Type 0
Heap A = Address → Option (Node A)

-- What memory holds, where the next `malloc` of a node puts `backward` and `level[i]`.
pub record Garbage : Type 0 where
  pub backward : Option Address
  pub level_at : ℕ → Level

-- A list, and the memory that is left: its next address and what it holds.
pub record SkipList (A : Type 0) : Type 0 where
  pub memory : Address → Garbage
  pub heap : Heap A
  pub fresh : Address
  pub header : Address
  pub tail : Option Address
  pub length : ℕ
  pub level : ℕ

-- SKIPLIST_MAXLEVEL
abbrev pub max_level : ℕ
max_level = 32

module _ {A : Type 0} where
  -- `write h p none` is `free(p)`.
  unfoldable pub write : Heap A → Address → Option (Node A) → Heap A
  write h p cell q = if q == p then cell else h q

  -- `p->level[i]`
  unfoldable pub get_level : Heap A → Address → ℕ → Option Level
  get_level h p i = do b ← h p; get_elem? b.levels i

  unfoldable pub set_level : Address → ℕ → Level → Heap A → Option (Heap A)
  set_level p i l h = do
    b ← h p
    old ← get_elem? b.levels i
    some (write h p (some (record b { levels = set b.levels i l })))

  unfoldable pub set_backward : Address → Option Address → Heap A → Option (Heap A)
  set_backward p q h = do b ← h p; some (write h p (some (record b { backward = q })))

  -- `slCreateNode` sets neither `backward` nor the levels.
  abbrev pub create_node : Garbage → ℕ → A → Option Obj → Node A
  create_node raw n score obj = record {
    obj = obj;
    score = score;
    backward = raw.backward;
    levels = first_levels n raw.level_at;
  }

  -- The loop of `slCreate` over the levels of the header, with the rounds left.
  unfoldable pub clear_levels : ℕ → ℕ → Address → Heap A → Option (Heap A)
  clear_levels zero j header h = some h
  clear_levels (suc n) j header h = do
    h' ← set_level header j (level none 0) h
    clear_levels n (suc j) header h'

-- In 32 and in 64 bits.
abbrev pub add32 : ℕ → ℕ → ℕ
add32 a b = (a + b) % 2 ^ 32

abbrev pub sub32 : ℕ → ℕ → ℕ
sub32 a b = (a + 2 ^ 32 - b) % 2 ^ 32

abbrev pub add64 : ℕ → ℕ → ℕ
add64 a b = (a + b) % 2 ^ 64

abbrev pub sub64 : ℕ → ℕ → ℕ
sub64 a b = (a + 2 ^ 64 - b) % 2 ^ 64

module _ {A : Type 0} ⦃o : Scores A⦄ where
  -- `slCreate`, in the memory that there is.
  unfoldable pub create : Heap A → Address → (Address → Garbage) → Option (SkipList A)
  create h fresh memory = do
    let node : Node A = create_node (memory fresh) max_level o.zero_score none
    h1 ← clear_levels max_level 0 fresh (write h fresh (some node))
    h2 ← set_backward fresh none h1
    some (record {
      heap = h2;
      fresh = suc fresh;
      header = fresh;
      tail = none;
      length = 0;
      level = 1;
      memory = memory;
    })

-- `slFree`: the header, then the nodes from the first on.
module _ {A : Type 0} where
  unfoldable pub free_from : ℕ → Option Address → Heap A → Option (Heap A)
  free_from fuel none h = some h
  free_from zero (some p) h = none
  free_from (suc fuel) (some p) h = do
    l ← get_level h p 0
    free_from fuel l.forward (write h p none)

  unfoldable pub free_list : SkipList A → Option (Heap A)
  free_list s = do
    l ← get_level s.heap s.header 0
    free_from s.length l.forward (write s.heap s.header none)
