-- ===== src/Storage.antt =====
-- torrent/storage/piece.go and torrent/storage/filestorage.go: which blocks of a piece have been
-- written, and how a read or a write is spread over the files of a torrent. The operating system
-- is the argument `write_file`/`read_file`, what os.File.WriteAt and os.File.ReadAt do at one file.
pub mod Blocks
pub mod Spread
pub mod ReadAt
pub mod Files
