-- ===== src/Webpage/Page.antt =====
-- The static variables of lua-webpage.c as one state, and the functions `load`, `set`, `set_block`
-- and `render` that Lua calls. The file is an argument: its bytes, or nothing if it does not open.
-- Blocks hold their bytes themselves, so `m_buf` is no part of the state.
use quick.Webpage.Sorter.{Sorter}
use quick.Prelude.{ℕ, Option, none, some, List, [], ◌>>=◌}
use quick.Webpage.Blocks.{Address, Memory}
use quick.Webpage.Names.{Table}
use quick.Webpage.Parse.{Parsed, stuck, fault, parsed, parse}
use quick.Webpage.Render.{Output, null, bytes, dangling, render}
use quick.Webpage.Edit.{set, set_block, release_from}

pub record Page : Type 0 where
  pub mem : Memory
  pub head : Option Address
  pub vartable : Table
  pub blocktable : Table
  pub result : Output

-- `init` forgets all, and frees nothing.
unfoldable pub init : Page → Page
init s = record { mem = s.mem; head = none; vartable = []; blocktable = []; result = null }

unfoldable pub release : Page → Option Page
release s = do
  h ← release_from s.mem.fresh s.head s.mem.heap
  some (record s {
    mem = record { heap = h; fresh = s.mem.fresh };
    head = none;
    vartable = [];
    blocktable = [];
  })

-- `load` returns -1 if the file does not open.
pub data Loaded : Type 0 where
  crashed hangs : Loaded
  missing : Page → Loaded
  loaded : Page → Loaded

abbrev pub with_blocks : Page → Address → Parsed → Loaded
with_blocks s head stuck = hangs
with_blocks s head fault = crashed
with_blocks s head (parsed p) =
    loaded
      (record s { mem = p.mem; head = some head; vartable = p.vartable; blocktable = p.blocktable })

module _ ⦃sorter : Sorter⦄ where
  abbrev pub load_text : List ℕ → Option Page → Loaded
  load_text text none = crashed
  load_text text (some s) = with_blocks s s.mem.fresh (parse text s.mem)

  unfoldable pub load : Option (List ℕ) → Page → Loaded
  load none s = missing (init s)
  load (some text) s = load_text text (release (init s))

unfoldable pub lset : List ℕ → List ℕ → Page → Option Page
lset token val s = do
  h ← set s.vartable token val s.mem.heap
  some (record s { mem = record { heap = h; fresh = s.mem.fresh } })

unfoldable pub lset_block : List ℕ → Page → Option Page
lset_block name s = do m ← set_block s.blocktable name s.mem; some (record s { mem = m })

-- `lua_pushlstring(L, result, length); free(result);`
abbrev pub push_result : Page → Output → Option (List ℕ × Page)
push_result s null = some ([], record s { result = null })
push_result s (bytes out) = some (out, record s { result = dangling })
push_result s dangling = none

unfoldable pub lrender : Page → Option (List ℕ × Page)
lrender s = do out ← render s.mem s.head s.result; push_result s out
