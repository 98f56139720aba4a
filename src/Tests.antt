-- ===== src/Tests.antt =====
-- Runs of the theorems on concrete objects.
mod Fixtures
mod Claims
mod Pools
mod Tokens
mod Workloads
mod Routes
mod Gateway
mod Snapshots
mod Events
mod Drivers
