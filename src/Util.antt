-- ===== src/Util.antt =====
-- pkg/util: memory sizes, labels, names and annotations.
pub mod Memory
pub mod Names
pub mod Apart
pub mod Labels
pub mod Settings
