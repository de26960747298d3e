-- ===== src/Examples.antt =====
-- The theorems at concrete inputs: a small database, requests and streams, and what the theorems
-- say of them.
pub mod Tables
mod Runs
mod Access
mod Streams
mod Outbox
pub mod Worker
mod Parts
mod Operator
mod Builder
mod Plane
