-- ===== src/Webpage/Edit.antt =====
-- `set`, `set_block` and `release` of lua-webpage.c: changes of the blocks in memory.
use quick.Prelude.{
  ℕ, zero, suc, Bool, true, false, Option, none, some, List, [], ◌∷◌, c_string, ◌>>=◌,
}
use quick.Webpage.Blocks.{
  Address, html, var, begin_block, end_block, Content, Block, block, blank, Heap, write, Memory,
  set_suiv, set_prec, set_content,
}
use quick.Webpage.Names.{Table, find, entries_of}
use quick.Webpage.Render.{ends_block, skip_to}

-- A new value for the block of each entry.
unfoldable pub set_entries : Table → List ℕ → Heap → Option Heap
set_entries [] val h = some h
set_entries (e ∷ es) val h = do
  b ← h e.block_at
  h' ← set_content e.block_at (record b.content { data_bytes = some val }) h
  set_entries es val h'

unfoldable pub set : Table → List ℕ → List ℕ → Heap → Option Heap
set vartable token val h =
    set_entries (entries_of vartable (find (c_string token) vartable)) (c_string val) h

abbrev pub copy_content : List ℕ → Content
copy_content d = record blank { data_bytes = some d; alloc = true }

-- `if(suiv->prec) suiv->prec->suiv = pst;`
abbrev pub link_prec : Option Address → Address → Heap → Option Heap
link_prec none pst h = some h
link_prec (some p) pst h = set_suiv p (some pst) h

-- The copy at `pst` goes in front of `suiv`.
unfoldable pub link_before : Address → List ℕ → Address → Heap → Option Heap
link_before pst d suiv h = do
  s ← h suiv
  h1 ← link_prec s.prec pst (write h pst (some (block s.prec none (copy_content d))))
  h2 ← set_suiv pst (some suiv) h1
  set_prec suiv (some pst) h2

-- A block with no bytes is not copied, and the new block is left alone.
unfoldable pub copy_bytes : Option (List ℕ) → Address → Address → Heap → Option Heap
copy_bytes none pst suiv h = some h
copy_bytes (some []) pst suiv h = some h
copy_bytes (some (c ∷ d)) pst suiv h = link_before pst (c ∷ d) suiv h

unfoldable pub gen_block : Address → Address → Memory → Option Memory
gen_block curr suiv m = do
  c ← m.heap curr
  h ←
      copy_bytes c.content.data_bytes m.fresh suiv
        (write m.heap m.fresh (some (block none none blank)))
  some (record { heap = h; fresh = suc m.fresh })

unfoldable pub del_block : Address → Memory → Option Memory
del_block pst m = do
  b ← m.heap pst
  prec ← b.prec
  h1 ← set_suiv prec b.suiv m.heap
  suiv ← b.suiv
  h2 ← set_prec suiv b.prec h1
  some (record m { heap = write h2 pst none })

abbrev pub del_copy : Bool → Address → Memory → Option Memory
del_copy true pst m = del_block pst m
del_copy false pst m = some m

-- One block of the part: a part inside it is passed over, any other block is copied in front of
-- `begin`. The result is where the loop goes on: `pst->suiv`, read from the block as it is then.
abbrev pub next_of : Memory → Option Address → Option (Memory × Option Address)
next_of m none = some (m, none)
next_of m (some p) = do b ← m.heap p; some (m, b.suiv)

unfoldable pub copy_step : ℕ → Address → Address → Block → Memory → Option (Memory × Option Address)
copy_step fuel begin pst b m = elim (b.content.kind) [
  | begin_block ↦ do name ← b.content.name; at ← skip_to fuel m.heap name b.suiv; next_of m at
  | html ↦ do
    m1 ← gen_block pst begin m
    m2 ← del_copy b.content.alloc pst m1
    next_of m2 (some pst)
  | var ↦ do m1 ← gen_block pst begin m; m2 ← del_copy b.content.alloc pst m1; next_of m2 (some pst)
  | end_block ↦ do
    m1 ← gen_block pst begin m
    m2 ← del_copy b.content.alloc pst m1
    next_of m2 (some pst)
]

unfoldable pub copy_from : ℕ → List ℕ → Address → Option Address → Memory → Option Memory
copy_from fuel name begin none m = some m
copy_from zero name begin (some p) m = none
copy_from (suc fuel) name begin (some p) m = do
  b ← m.heap p
  elim (ends_block b.content name) [
    | true ↦ some m
    | false ↦ do (m', at) ← copy_step fuel begin p b m; copy_from fuel name begin at m'
  ]

unfoldable pub copy_entries : Table → List ℕ → Memory → Option Memory
copy_entries [] name m = some m
copy_entries (e ∷ es) name m = do
  b ← m.heap e.block_at
  m' ← copy_from m.fresh name e.block_at b.suiv m
  copy_entries es name m'

unfoldable pub set_block : Table → List ℕ → Memory → Option Memory
set_block blocktable name m =
    copy_entries (entries_of blocktable (find (c_string name) blocktable)) (c_string name) m

-- `release` frees the blocks from the head on.
unfoldable pub release_from : ℕ → Option Address → Heap → Option Heap
release_from fuel none h = some h
release_from zero (some p) h = none
release_from (suc fuel) (some p) h = do b ← h p; release_from fuel b.suiv (write h p none)
