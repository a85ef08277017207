-- ===== src/Samples.antt =====
-- Concrete resources, and what the operations compute on them.
mod Objects
mod Validation
mod Statuses
mod Entries
mod Sizes
mod Roles
mod Healing
mod Clusters
mod Reconciled
mod Unlocking
mod Addresses
mod Requeues
mod Visits
mod Regulars
mod Servers
mod Ensures
mod Numbers
mod Shelves
mod ClusterSets
