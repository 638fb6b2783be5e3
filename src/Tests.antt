-- ===== src/Tests.antt =====
-- The theorems at concrete inputs, and runs of the functions.
mod RbTree
mod HashTable
mod Buffer
mod MemChunk
mod Hash
mod Hex
mod LinkedList
mod Base64
mod CommandLine
mod Value
