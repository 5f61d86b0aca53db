-- ===== src/Lib.antt =====
-- The native C extensions of quick, a game server kit on Lua services: a Base64 codec, a random
-- generator, a sparse array, a word filter, sorted sets, page templates and an asynchronous
-- logger. Lua services load them as modules; they share no state.
--
-- Parts:
--   Prelude: numbers, lists, bytes and bits that all parts use. Prelude.Int has the integers.
--   Base64 (lualib-src/lua-base64.c): `base64_encode`, `base64_decode`, `lb64enc`, `lb64dec`,
--     each under its own name. Base64.Spec describes the Base64 text of a byte string by
--     digits, apart from the code. Filling, Encoding, Decoding, RoundTrip, Safety and Refusal
--     hold the proofs.
--   Random (lualib-src/lua-random.c): `_random` is `random`; `random1`, `random2`, `lrandom` keep
--     their names. Bounds and Sequence hold the proofs.
--   Array (lualib-src/lua-array.c): a table is its items, the number at key 0 and the slots at the
--     negative keys. `lnewindex`, `insert`, `sort_sparse`, `llen`, `lnext`, `lpairs` and `lnewarray`
--     keep their names; `lua_rawlen` is a parameter. Shift, Place, Insert, Sort and Next hold the
--     proofs.
--   Crab (lualib-src/lua-crab.c): `dict_filter`, with the library's `table_get` as a parameter.
--     Longest and Censor hold the proofs.
--   Webpage (lualib-src/lua-webpage.c): Webpage.Blocks has the list of blocks in memory,
--     Webpage.Names the tables with `find`, Webpage.Parse `parse`, Webpage.Render `render`,
--     Webpage.Edit `set`, `set_block` and what they call, and Webpage.Page `load` and the
--     functions for Lua over the static variables. `bsearch` and `strcmp` of the C
--     library are defined in Webpage.Names; `qsort` is a parameter, the interface of
--     Webpage.Sorter, which leaves the order of equal names open, and InsertionSort is one
--     function that fills it. Template describes templates apart from the code,
--     and Printing, Expanded and Rows what is printed. Chain, Lexing, Build, Pieces, Entries,
--     RoundTrip, NameOrder, Finding, FindAll, Printed, Skipping, Assigned, Setting, Session,
--     Termination, Insertion, Copies, Parts, Filling, Joined, Rendered and Reuse hold the
--     proofs.
--   Skiplist (lualib-src/lua-skiplist): Skiplist.Objects compares scores and objects,
--     Skiplist.Nodes is the memory of a list with `slCreate` (`create`) and `slFree`
--     (`free_list`), Skiplist.Search the walk down the levels and `slRandomLevel`, and Insert,
--     Delete and Lookup the other functions of skiplist.c, each under its name without the
--     prefix. Binding has those of lua-skiplist.c that do more than pass their arguments on. A
--     score is a double: its type and its tests are a parameter, and ScoreLaws says what is
--     relied on, which holds for numbers and not for NaN. An object lies in its node. Cells says
--     what the memory of a list of entries is, and Sets what a sorted set is; Memory, State,
--     Walk, Trails, Ranks, Raising, Linking, Joining, Splits, Spliced, Leveling, Backing, Inserted,
--     Unlinking, Removed, Deleting, Deleted, Apart, Levels, Order, ObjectOrder, Sorting, Taking,
--     Insertion, Deletion and Freeing hold the proofs.
--   Log (lualib-src/lua-log.c): Log.Heap has the buffers, Log.Roll `rollfile`, Log.Append `append`,
--     Log.Worker the parts of a round of `worker_func`, Log.Logger the machine made of them, and
--     Log.Entry `linit` and the functions of the levels. Callers run `append` with the mutex held,
--     the worker's `take` too, and the parts behind it touch only the worker's own buffers and the
--     file. So a run is a sequence of such steps, in any order. Front, WorkerOrder, Owners and
--     InOrder say who owns which buffer.
--
-- Models: a C string is the list of its bytes; a heap maps an address to a buffer or to nothing,
-- and a use of an address with nothing, or an assertion that fails, is a fault. The size of a buffer
-- is a parameter, `capacity`; the code takes LOG_BUFFER_SIZE. Clock, directory, `fopen`, `malloc` and
-- the addresses from `calloc` are arguments; in Webpage `malloc` succeeds and hands out one address
-- after the other, and in Skiplist too, where the old bytes of a new node are an argument. The
-- decoder's accesses outside its buffer are a fault. Unsigned integers keep their wrap-around, and
-- the roll size of the log, an `int`, too.
--
-- Fuel: the loop of `rollfile` runs on fuel, of which 2 rounds are asked for, since the count of
-- bytes starts again behind the first. The loops over a buffer list run on its size, and the
-- binary searches of the sparse array on the number of keys and one more, since each round halves
-- what is left. The loop of `parse` runs on a round for each byte and one more, since each round
-- reads a byte at least; `render`, `set_block` and `release` walk a
-- list of blocks on the number of addresses handed out, which is enough for a list without a
-- cycle. The walks of the skip list run on its length and one round more for each level, since each
-- round goes on by a node or down by a level; its loops over the nodes of a range run on the
-- length.
--
-- Not modelled: waiting and waking of threads, the end of the worker's thread, `abort`, the
-- names of log files, and the registration of the functions with Lua. Of the other sources: the
-- copy of crab (3rd/crab) is a third-party library; lualib-src/lua-enet.c and
-- lualib-src/lua-unqlite.c bind libraries that are not in the repository; lualib-src/lua-ctime.c
-- reads a clock. Also out of the model: `lsort` of the sparse array, a wrapper of `sort_sparse`
-- for Lua, and `slDump` of the skip list, which prints. The callback of `slDeleteByRank` is taken
-- to leave the list alone; the objects it gets are a result.
pub mod Prelude
pub mod Base64
pub mod Random
pub mod Array
pub mod Crab
pub mod Webpage
pub mod Skiplist
pub mod Log
