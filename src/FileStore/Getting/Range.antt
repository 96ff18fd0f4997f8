-- ===== src/FileStore/Getting/Range.antt =====
-- `get` of src/file_store.cpp for a range of messages.
use soupbintcp.FileStore.Posix.{Posix}
use soupbintcp.FileStore.Store.{FileStore}
