-- ===== src/Server.antt =====
-- The server: include/bc/soup/server and src/server. `World` has the state, `Link` what the owners of
-- a connection ask of it, `Port` and `Acceptor` the parts that they are named for,
-- `TcpConnection` what Asio tells a connection, `Run` all of these as steps, `Listening` an acceptor with
-- its listening socket, `Service` the server with its acceptors, and `Message` what a user sends.
pub mod World
pub mod Link
pub mod Port
pub mod Login
pub mod TcpConnection
pub mod Acceptor
pub mod Run
pub mod Listening
pub mod Service
pub mod Message
