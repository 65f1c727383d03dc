-- ===== src/Tests.antt =====
-- The theorems at concrete constants, and runs of the model on them.
mod Constants
mod Builders
mod Spaces
mod Searches
mod Paths
mod Stores
mod Descriptors
