-- ===== src/File.antt =====
-- system/lib/file_syscalls.c: the file calls, over the descriptors, the metadata and the data.
pub mod Append
pub mod Blit
pub mod Calls
pub mod Content
pub mod Creation
pub mod Disk
pub mod Flush
pub mod Host
pub mod Io
pub mod Names
pub mod Overwrite
pub mod Opening
pub mod Paths
pub mod Positional
pub mod Pwriting
pub mod Reading
pub mod Ready
pub mod Round
pub mod Seeking
pub mod Saving
pub mod Slices
pub mod Splice
pub mod Taking
pub mod Transfer
pub mod Upload
pub mod WriteLoop
pub mod Uploading
pub mod Uploads
pub mod Uploaded
pub mod Writing
