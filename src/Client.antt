-- ===== src/Client.antt =====
-- The client: include/bc/soup/client and src/client. `World` has the state, `Session` what the numbers
-- of the messages go through, `TcpConnection` what Asio tells a connection, `Reconnect` how a
-- connection comes back, `Merge` how the errors of several connections become one, `Sending` how packets are sent
-- over them, `Service` the client that starts and stops, and `Message` what a user sends.
pub mod World
pub mod Session
pub mod Link
pub mod TcpConnection
pub mod Reconnect
pub mod Sending
pub mod Service
pub mod Message
pub mod Merge
