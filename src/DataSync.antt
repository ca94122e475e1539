-- ===== src/DataSync.antt =====
-- core/datasync/datasync.go: the requests of DataSync, and the queue that writes what is returned.
pub mod Batches
pub mod Queue
