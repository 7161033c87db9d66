-- ===== src/Examples.antt =====
-- The theorems at concrete inputs.
pub mod Data
mod Reading
mod Writing
mod Limits
mod Storing
mod Subscribing
mod Sessions
pub mod Library
mod Products
mod Paging
mod Wraps
mod Syncing
mod Publishing
