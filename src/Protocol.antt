-- ===== src/Protocol.antt =====
-- Server and client together: src/server/port.cpp and src/server/tcp_connection.cpp on one end of a
-- connection, src/client/tcp_connection.cpp and src/client/connection.cpp on the other, and the bytes
-- of src/rw_packets.cpp between them.
pub mod Outbound
pub mod Inbound
pub mod Messages
