-- ===== src/Log.antt =====
-- The asynchronous logger of lualib-src/lua-log.c. Front-end threads append lines to buffers under
-- a mutex; one worker takes the buffers over under the mutex and writes them out after it. The
-- children are the memory, the two sides, the rolling of files, the Lua entry points, and proofs.
pub mod Heap
pub mod Cells
pub mod Roll
pub mod Append
pub mod Front
pub mod Appended
pub mod AppendOrder
pub mod Chains
pub mod WorkerOrder
pub mod RecycleOrder
pub mod RollIndex
pub mod Owners
pub mod Logger
pub mod InOrder
pub mod Delivery
pub mod Start
mod Tests
pub mod Worker
pub mod Entry
