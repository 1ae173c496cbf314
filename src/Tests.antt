-- ===== src/Tests.antt =====
-- The theorems at concrete inputs, and runs of the program's functions.
mod Crashes
mod Requests
mod Transfers
mod Locks
mod Trails
mod Hosts
mod Disks
mod Workers
