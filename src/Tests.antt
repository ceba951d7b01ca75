-- ===== src/Tests.antt =====
-- The theorems at concrete inputs, and runs of the model.
mod Interleaved
mod Concurrent
mod Selected
mod Registered
mod Contracts
mod Blocks
mod Takers
mod StateNodes
mod Shop
mod Tokens
mod Wires
mod Cluster
mod Queues
mod States
mod SerialBlocks
mod Nodes
mod Forests
mod Followed
