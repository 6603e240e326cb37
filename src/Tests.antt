-- ===== src/Tests.antt =====
-- The models at concrete inputs, and the theorems applied to them.
mod Fixtures
mod Paths
mod Listings
mod Requests
mod Failures
mod Calls
mod Reports
mod Inodes
mod Openings
mod Threads
mod Entries
mod Lives
mod Showing
mod Served
mod Caching
mod Stores
mod Walks
