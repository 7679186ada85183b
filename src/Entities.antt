-- ===== src/Entities.antt =====
-- src/bptreedb/entities.py: the records of the write-ahead log and the pages of the data file.
use bptreedb.Prelude.{ℕ, List}
use bptreedb.Struct.{Bytes}

-- The three subclasses of `WALRecord`; `lsn` comes first in each.
pub data WalRecord : Type 0 where
  put_record : ℕ → Bytes → Bytes → WalRecord
  delete_record : ℕ → Bytes → WalRecord
  checkpoint_record : ℕ → ℕ → ℕ → ℕ → WalRecord

abbrev pub lsn : WalRecord → ℕ
lsn (put_record n k v) = n
lsn (delete_record n k) = n
lsn (checkpoint_record n root_page_id freelist_head next_page_id) = n

pub record MetaPage : Type 0 where
  pub page_size_bytes : ℕ
  pub root_page_id : ℕ
  pub next_page_id : ℕ
  pub freelist_head_page_id : ℕ
  pub last_checkpoint_lsn : ℕ

pub record InternalSlot : Type 0 where
  pub key : Bytes
  pub child_page_id : ℕ

pub record InternalPage : Type 0 where
  pub last_modified_lsn : ℕ
  pub leftmost_child_page_id : ℕ
  pub slots : List InternalSlot

pub record LeafSlot : Type 0 where
  pub key : Bytes
  pub value : Bytes

pub record LeafPage : Type 0 where
  pub last_modified_lsn : ℕ
  pub right_sibling_page_id : ℕ
  pub slots : List LeafSlot

pub record FreelistPage : Type 0 where
  pub last_modified_lsn : ℕ
  pub next_freelist_page_id : ℕ
  pub freed_page_ids : List ℕ

-- `LeafPage | InternalPage`: a page of the tree.
pub data TreePage : Type 0 where
  leaf : LeafPage → TreePage
  internal : InternalPage → TreePage

-- What stands behind the meta page in the data file.
pub data Page : Type 0 where
  tree : TreePage → Page
  freelist : FreelistPage → Page
