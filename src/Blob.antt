-- ===== src/Blob.antt =====
-- components/blobstorageadapter with the adapter that keeps blobs in files.
pub mod Contracts
pub mod Paths
pub mod Files
pub mod Reader
pub mod Adapter
pub mod Listing
pub mod Service
pub mod Ranges
pub mod Contents
pub mod RoundTrip
pub mod Pages
pub mod Following
mod Tests
