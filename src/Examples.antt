-- ===== src/Examples.antt =====
-- Runs at concrete inputs: what the laws say of packets, sockets, timers and logins that one can
-- write down.
mod Packets
mod Timers
mod Sockets
mod Logins
mod Clients
mod Files
mod Protocols
mod Services
