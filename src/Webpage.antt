-- ===== src/Webpage.antt =====
-- The page templates of lualib-src/lua-webpage.c. Blocks holds the list of blocks in memory, Parse
-- and Render read and print it, Names is the table of names with `find`, Edit has `set` and
-- `set_block`, and Page the whole state with the Lua functions. Sorter is the interface of `qsort`.
pub mod Blocks
pub mod Names
pub mod Parse
pub mod Render
pub mod Edit
pub mod Page
pub mod Chain
pub mod Printing
pub mod Skipping
pub mod Printed
pub mod Template
pub mod Lexing
pub mod Build
pub mod Pieces
pub mod Entries
pub mod RoundTrip
pub mod NameOrder
pub mod Sorter
pub mod InsertionSort
pub mod Finding
pub mod FindAll
pub mod Assigned
pub mod Setting
pub mod Session
pub mod Expanded
mod Termination
pub mod Insertion
pub mod Copies
pub mod Parts
pub mod Rows
pub mod Filling
pub mod Joined
pub mod Rendered
pub mod Reuse
mod Runs
mod Tests
