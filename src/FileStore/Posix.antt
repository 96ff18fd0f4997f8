-- ===== src/FileStore/Posix.antt =====
-- The system calls that src/file_store.cpp uses, and what their documentation says of them.
pub mod Lawful
use soupbintcp.Common.{ℕ, Option, Bytes}

-- What a call gives back; `failed` is a result of -1 together with `errno`.
pub data Called (A : Type 0) : Type 0 where
  failed : ℕ → Called A
  returned : A → Called A

-- A file descriptor; `none` is -1.
abbrev pub Descriptor : Type 0
Descriptor = Option ℕ

-- The flags that `open` gets: `O_RDONLY`, and `O_RDWR | O_CREAT`.
pub data Oflag : Type 0 where
  rdonly : Oflag
  rdwr_creat : Oflag

pub data Whence : Type 0 where
  seek_set : Whence
  seek_cur : Whence
  seek_end : Whence

-- The calls, on the state of the system. `read` gives the bytes that it has put into the buffer, the
-- number of which is its result.
pub record Posix : Type 1 where
  pub Kernel : Type 0
  pub open_path : Kernel → Bytes → Oflag → Kernel × Called Descriptor
  pub close : Kernel → Descriptor → Kernel × Called Unit
  pub read : Kernel → Descriptor → ℕ → Kernel × Called Bytes
  pub write : Kernel → Descriptor → Bytes → Kernel × Called ℕ
  pub lseek : Kernel → Descriptor → ℕ → Whence → Kernel × Called ℕ
  pub fsync : Kernel → Descriptor → Kernel × Called Unit
  -- `EINTR`, `EINVAL` and `EIO`
  pub eintr : ℕ
  pub einval : ℕ
  pub eio : ℕ
