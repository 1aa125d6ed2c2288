-- ===== src/Tests.antt =====
-- The theorems at concrete inputs, and the values that these share.
mod Plans
mod Sessions
mod Recoveries
mod Clocks
mod Runs
mod Observations
mod Evidence
mod Frames
mod Clients
mod Workloads
mod Preparations
mod Identities
mod Privileges
