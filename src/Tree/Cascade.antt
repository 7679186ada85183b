-- ===== src/Tree/Cascade.antt =====
-- `_balance_and_write_tree` of src/bptreedb/tree.py, with `insert` and `delete` around it. The split
-- of a page and its rescue by a sibling are in the children.
pub mod Split
pub mod Siblings
pub mod Rescue
pub mod Operations
