-- ===== src/References.antt =====
-- profiles/object_references.go: the persistent numbers and shortened digests of device objects.
pub mod File
pub mod Assign
pub mod Digests
pub mod Store
pub mod Ledger
