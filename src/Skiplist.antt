-- ===== src/Skiplist.antt =====
-- The sorted sets of lualib-src/lua-skiplist. Objects compares scores and objects, Nodes is the
-- memory of a list, Search the walk down the levels, Insert, Delete and Lookup the functions of
-- skiplist.c, and Binding those of lua-skiplist.c. The others hold the proofs.
pub mod Objects
pub mod Nodes
pub mod Search
pub mod Insert
pub mod Delete
pub mod Lookup
pub mod Binding
pub mod Cells
pub mod Memory
pub mod ObjectOrder
pub mod Order
pub mod Sorting
pub mod Levels
pub mod Walk
pub mod Apart
pub mod State
pub mod Ranks
pub mod Raising
pub mod Linking
pub mod Splits
pub mod Joining
pub mod Spliced
pub mod Leveling
pub mod Backing
pub mod Inserted
pub mod Insertion
pub mod Unlinking
pub mod Removed
pub mod Trails
pub mod Deleting
pub mod Deleted
pub mod Taking
pub mod Deletion
pub mod Freeing
pub mod Sets
mod Tests
