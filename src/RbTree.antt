-- ===== src/RbTree.antt =====
-- data/rbtree.c, data/rbtree.h: the intrusive red-black tree.
pub mod Tree
pub mod Insert
pub mod Remove
pub mod Balance
pub mod Walk
pub mod Contents
pub mod Order
pub mod Search
pub mod Refine
pub mod Sorted
pub mod Laws
pub mod Verify
pub mod Cursor
pub mod Depth
pub mod Fini
