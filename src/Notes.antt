-- ===== src/Notes.antt =====
-- app/notes: note bodies, attachments and chunked uploads.
pub mod ChunkSize
pub mod Etag
pub mod Schemas
pub mod Queries
pub mod Service
pub mod Bodies
pub mod Listing
pub mod Attachments
pub mod Checks
pub mod Frame
pub mod Reads
pub mod Isolation
