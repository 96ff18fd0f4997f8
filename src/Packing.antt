-- ===== src/Packing.antt =====
-- include/bc/soup/packing.h and src/packing.cpp: how the fields of a packet stand in its bytes.
-- A `pack_…` function returns the bytes that it writes at `data`; an `unpack_…` function takes the
-- bytes at `data`, of which it reads as many as the field is long.
pub mod Integral
pub mod Alphanumeric
pub mod Numeric
