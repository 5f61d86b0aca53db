-- ===== src/Webpage/Blocks.antt =====
-- `tpl_block_t` of lua-webpage.c and the memory that holds the blocks. `ndata` is the length of
-- `data`, which is no C string. Memory hands out one address after the other; `malloc` is taken to
-- succeed. An address with no block is not allocated: using it is a fault.
use quick.Prelude.{ℕ, Bool, false, Option, none, some, List, ◌==◌, if◌then◌else◌, ◌>>=◌}

abbrev pub Address : Type 0
Address = ℕ

-- `type`: TEMP_HTML, TEMP_VAR, TEMP_BEGINBLOCK and TEMP_ENDBLOCK.
pub data Kind : Type 0 where
  html var begin_block end_block : Kind

-- What a block holds beside its links. `alloc` marks a copy that `gen_block` made.
pub record Content : Type 0 where
  pub kind : Kind
  pub data_bytes : Option (List ℕ)
  pub name : Option (List ℕ)
  pub alloc : Bool

pub record Block : Type 0 where
  pub prec : Option Address
  pub suiv : Option Address
  pub content : Content

abbrev pub block : Option Address → Option Address → Content → Block
block prec suiv c = record { prec = prec; suiv = suiv; content = c }

-- The content of a block that is set to zero.
abbrev pub blank : Content
blank = record { kind = html; data_bytes = none; name = none; alloc = false }

abbrev pub html_content : List ℕ → Content
html_content bytes = record blank { data_bytes = some bytes }

abbrev pub var_content : List ℕ → Content
var_content name = record blank { kind = var; name = some name }

abbrev pub Heap : Type 0
Heap = Address → Option Block

-- `write h p none` is `free(p)`.
unfoldable pub write : Heap → Address → Option Block → Heap
write h p cell q = if q == p then cell else h q

pub record Memory : Type 0 where
  pub heap : Heap
  pub fresh : Address

-- `p->suiv = q` and `p->prec = q`
unfoldable pub set_suiv : Address → Option Address → Heap → Option Heap
set_suiv p q h = do b ← h p; some (write h p (some (record b { suiv = q })))

unfoldable pub set_prec : Address → Option Address → Heap → Option Heap
set_prec p q h = do b ← h p; some (write h p (some (record b { prec = q })))

unfoldable pub set_content : Address → Content → Heap → Option Heap
set_content p c h = do b ← h p; some (write h p (some (record b { content = c })))
