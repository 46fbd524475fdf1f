-- ===== src/Tests.antt =====
-- Runs on concrete inputs, and the theorems at inputs where their hypotheses hold.
mod Sample
mod Hashers
mod Roots
mod Memories
mod Diffs
mod Certs
mod Proxies
mod Configs
mod Disks
mod Imports
mod Apis
mod Replays
mod Tunnels
mod Repeats
