-- ===== src/Client.antt =====
-- The client of the REST API: errors.go, entries.go, delete.go, folders.go, documents.go and write.go. HTTP
-- and JSON (internal/wire/transport and the standard library) are a parameter: what a request answers.
pub mod Errors
pub mod Listing
pub mod Calls
pub mod Deletion
pub mod Writes
pub mod Uploads
