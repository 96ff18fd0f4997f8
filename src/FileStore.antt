-- ===== src/FileStore.antt =====
-- The file store, src/file_store.cpp and include/bc/soup/file_store.h: the system calls that it uses,
-- the loops that complete them, the store itself, and what it keeps in the file.
pub mod Posix
pub mod Transfer
pub mod Store
pub mod Log
pub mod Adding
pub mod Getting
pub mod Opening
