-- ===== src/Examples.antt =====
-- The theorems of the other modules at concrete states, and runs of the operations on them.
mod Data
mod Queues
mod Books
mod Orders
mod Exchange
mod Messages
mod Sessions
mod Arguments
mod Network
mod Threads
mod Wire
