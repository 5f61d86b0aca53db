-- ===== src/Webpage/Render.antt =====
-- `render` of lua-webpage.c: the blocks are printed in order, and what stands between a BeginBlock
-- and its EndBlock is left out. The loops run on the number of addresses handed out.
use quick.Prelude.{ℕ, zero, suc, Bool, true, false, Option, none, some, List, [], ◌∷◌, ◌++◌, ◌>>=◌}
use quick.Webpage.Blocks.{Address, html, var, begin_block, end_block, Content, Block, Heap, Memory}
use quick.Webpage.Names.{same_name}

-- `result`: null, a string of `length` bytes, or freed memory.
pub data Output : Type 0 where
  null : Output
  bytes : List ℕ → Output
  dangling : Output

-- `realloc` and `memcpy` behind the bytes there are.
unfoldable pub append_data : List ℕ → Output → Option Output
append_data d null = some (bytes d)
append_data d (bytes out) = some (bytes (out ++ d))
append_data d dangling = none

-- `NULL != pst->data && pst->ndata != 0`
unfoldable pub put_data : Option (List ℕ) → Output → Option Output
put_data none out = some out
put_data (some []) out = some out
put_data (some (c ∷ d)) out = append_data (c ∷ d) out

abbrev pub has_name : Option (List ℕ) → List ℕ → Bool
has_name none name = false
has_name (some n) name = same_name n name

-- `pst->type == TEMP_ENDBLOCK && strcmp(pst->name, name) == 0`
abbrev pub ends_block : Content → List ℕ → Bool
ends_block c name = elim (c.kind) [
  | html ↦ false
  | var ↦ false
  | begin_block ↦ false
  | end_block ↦ has_name c.name name
]

-- The block that ends the part, or null.
unfoldable pub skip_to : ℕ → Heap → List ℕ → Option Address → Option (Option Address)
skip_to fuel h name none = some none
skip_to zero h name (some p) = none
skip_to (suc fuel) h name (some p) = do
  b ← h p
  elim (ends_block b.content name) [ true ↦ some (some p) | false ↦ skip_to fuel h name b.suiv ]

-- The block from which the round goes on: `pst` itself, or the end of the part that begins there.
unfoldable pub past_block : ℕ → Heap → Address → Block → Option (Option Address)
past_block fuel h p b = elim (b.content.kind) [
  | begin_block ↦ do name ← b.content.name; skip_to fuel h name b.suiv
  | html ↦ some (some p)
  | var ↦ some (some p)
  | end_block ↦ some (some p)
]

abbrev pub put_block : Content → Output → Option Output
put_block c out = elim (c.kind) [
  | html ↦ put_data c.data_bytes out
  | var ↦ put_data c.data_bytes out
  | begin_block ↦ some out
  | end_block ↦ some out
]

unfoldable pub render_from : ℕ → Heap → Option Address → Output → Option Output
render_from fuel h none out = some out
render_from zero h (some p) out = none
render_from (suc fuel) h (some p) out = do
  b ← h p
  at ← past_block fuel h p b
  elim at [
    | none ↦ some out
    | some q ↦ do c ← h q; out' ← put_block c.content out; render_from fuel h c.suiv out'
  ]

unfoldable pub render : Memory → Option Address → Output → Option Output
render m head out = render_from m.fresh m.heap head out
