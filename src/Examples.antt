-- ===== src/Examples.antt =====
-- The theorems at concrete inputs, and runs of the code that can be followed by hand.
mod Table
mod PgTable
mod RedisTable
mod Format
mod Backend
mod Disks
mod Servers
mod Saving
mod Threads
mod Telemetry
mod Memory
mod Copying
