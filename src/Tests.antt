-- ===== src/Tests.antt =====
-- The theorems at work on small examples.
mod Processes
mod Paths
mod Caches
mod Descriptors
mod Tasks
mod Switch
mod Reads
mod Signals
mod Remote
mod Sockets
mod Listing
mod Opens
mod Filling
