-- ===== src/Disk.antt =====
-- internal/spind/diskimage and internal/spind/filecopy/copy_file_sparse_unix.go: sparse copies and
-- disk images.
pub mod File
pub mod Sparse
pub mod Mirror
pub mod SparseCopy
pub mod Grows
pub mod Mbr
pub mod Copied
pub mod Install
