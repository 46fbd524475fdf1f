-- ===== src/Storage.antt =====
-- internal/storage: content-addressed blobs, the tree of a root, and the stores behind them.
pub mod Errors
pub mod Backend
pub mod Kind
pub mod Blob
pub mod Tree
pub mod Root
pub mod Diff
pub mod Memory
pub mod Filesystem
pub mod Import
pub mod Export
