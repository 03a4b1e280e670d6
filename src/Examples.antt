-- ===== src/Examples.antt =====
-- Concrete instances of what the development takes as a parameter, and the theorems at concrete
-- inputs: a storage in memory with the laws of a backend, and a digest without collisions.
mod Memory
mod Digest
mod Chunks
mod Store
mod Files
mod Policies
mod Repairs
mod Log
mod Tenants
mod Notices
mod Replicas
mod Backends
mod Restores
mod Strategies
mod Fleet
mod Rules
mod Tasks
