-- ===== src/Tests.antt =====
-- The theorems at concrete inputs, and runs of the definitions.
mod Relaying
mod Disks
mod Kubeconfigs
mod Words
mod Dockers
mod Snapshots
mod Kinds
mod Vms
mod Stores
mod Listings
mod Merges
mod Projects
