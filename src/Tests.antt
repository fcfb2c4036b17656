-- ===== src/Tests.antt =====
-- The theorems at concrete inputs that meet their hypotheses, and runs of the definitions.
mod Rings
mod Accounts
mod Buckets
mod Frames
mod Rows
mod Rooms
mod Cluster
mod Earlier
mod Homes
mod Tickets
mod Processes
mod Rejoining
