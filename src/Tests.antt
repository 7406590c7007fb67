-- ===== src/Tests.antt =====
-- The theorems at concrete inputs, with a toy cipher and a store in memory.
mod Fixtures
mod Codecs
mod Trees
mod Puts
mod Queries
mod Sessions
mod Commits
mod Walks
mod Disks
mod Audits
mod Registries
mod Walkers
