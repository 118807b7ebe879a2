-- ===== src/Transfers.antt =====
-- The file transfers of personal_mcp/file_transfer.py.
pub mod State
pub mod Neighbours
pub mod Cache
pub mod Upload
pub mod Download
pub mod Handle
pub mod Aims
pub mod Blocks
pub mod Steps
pub mod Spec
pub mod Refines
pub mod Uploading
pub mod Downloading
pub mod Handling
pub mod Calls
pub mod Quotas
pub mod Files
pub mod Entries
pub mod Recovery
pub mod Found
pub mod Fetching
pub mod Downloads
pub mod Sending
pub mod Uploads
mod Examples
mod Rounds
