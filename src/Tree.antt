-- ===== src/Tree.antt =====
-- src/bptreedb/tree.py: the operations on pages that are at hand, and those on the stored tree, over
-- the interface of Tree/Store.
pub mod Bisect
pub mod Slots
pub mod Split
pub mod Rebalance
pub mod Store
pub mod Descent
pub mod Cascade
pub mod Scan
pub mod Content
