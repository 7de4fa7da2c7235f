-- ===== src/Entries/Wire.antt =====
-- wireEntry and wireEntryList of entries.go: an entry as the device sends it.
use dpwire.Prelude.{List, Bytes}
use dpwire.Decimal.{ℤ}

pub record WireEntry : Type 0 where
  pub id : Bytes
  pub name : Bytes
  pub path : Bytes
  pub entry_type : Bytes
  pub created : Bytes
  pub modified : Bytes
  pub mime_type : Bytes
  pub size : Bytes
  pub document_type : Bytes
  pub author : Bytes
  pub title : Bytes
  pub total_pages : Bytes
  pub current_page : Bytes
  pub reading_date : Bytes
  pub parent_folder_id : Bytes
  pub is_new : Bytes
  pub document_source : Bytes
  pub external_id : Bytes
  pub file_hash : Bytes
  pub revision : Bytes

-- One page of a listing; `count` is an int that the decoder has read, so it may be negative.
pub record WireEntryList : Type 0 where
  pub count : ℤ
  pub hash : Bytes
  pub entries : List WireEntry
