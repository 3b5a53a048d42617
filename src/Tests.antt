-- ===== src/Tests.antt =====
-- Runs of the code at concrete inputs.
mod Log
mod Tables
mod Memory
mod Values
mod Lists
mod Insertion
mod Writes
mod Files
mod Server
mod Search
mod Flush
mod Merging
