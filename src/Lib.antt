-- ===== src/Lib.antt =====
-- soupbintcp: a model of the SoupBinTCP 3.00 library and what holds of it.
--
-- The program is a library over Asio. Its lower half is shared by client and server: texts and numbers
-- in fixed fields (src/packing.cpp, src/validate.cpp), the logical packets of the protocol
-- (src/logical_packets.cpp) inside packets with a two-byte length and a type (src/rw_packets.cpp), a
-- socket that reads packets one after the other and writes them from a bounded queue (src/socket.cpp),
-- three timers (src/heartbeat_timer.cpp, src/login_timer.cpp, src/reconnect_timer.cpp) and the state of
-- a connection (src/connection_state.cpp). The upper half is the server (src/server), where an acceptor
-- has ports, the accounts, and connections, and a port is attached to at most one connection; and the
-- client (src/client). Beside them stands a store that keeps messages in a file (src/file_store.cpp).
--
-- Which file models which part:
--   Types, Constants, Error     include/bc/soup/types.h, constants.h and error.h, with their sources
--   Validate                    src/validate.cpp
--   Packing                     include/bc/soup/packing.h and src/packing.cpp: Integral, Alphanumeric
--                               and Numeric are its three kinds of fields
--   LogicalPackets              src/logical_packets.cpp; read and write of each packet by its name
--   RwPackets                   src/rw_packets.cpp; Framing says what a receiver makes of the bytes
--   ConnectionState             src/connection_state.cpp
--   HeartbeatTimer, LoginTimer, ReconnectTimer
--                               the timers; an Owner is their Handler
--   Socket                      src/socket.cpp; an Owner is Socket::Handler
--   SocketAcceptor              src/socket_acceptor.cpp
--   Expected                    include/bc/soup/expected.h
--   Server.World                the members of Acceptor, Port and Tcp_connection
--   Server.Link                 what the owners of a Tcp_connection ask of it
--   Server.TcpConnection        what Asio tells a Tcp_connection
--   Server.Port                 src/server/port.cpp
--   Server.Login                on_login_request and on_closed of src/server/acceptor.cpp
--   Server.Acceptor             the rest of src/server/acceptor.cpp, as far as it is about ports and
--                               connections
--   Server.Listening            src/server/acceptor.cpp with its listening socket: how it starts, accepts
--                               and stops
--   Server.Run                  the functions that Asio and the user call of a running acceptor, as steps
--                               between its states; its child modules say what each keeps
--   Server.Service              src/server/server.cpp
--   Server.Message, Client.Message
--                               include/bc/soup/server/message.h and client/message.h
--   Client.World                the members of Client, Connection and Tcp_connection
--   Client.Link                 what the owners of the client's Tcp_connection ask of it
--   Client.TcpConnection        what Asio tells the client's Tcp_connection
--   Client.Session              the callbacks of src/client/connection.cpp, and of src/client/client.cpp
--                               those that a connection calls
--   Client.Reconnect            how a connection of src/client/connection.cpp begins, ends and returns:
--                               Attempts has attempts that fail in a row, LateConnect a connect that
--                               completes after its connection was closed
--   Client.Merge, Client.Sending
--                               priority_error and sending in src/client/client.cpp
--   Client.Service              the rest of src/client/client.cpp: its list of connections, start and stop
--   Protocol                    a port of the server and a connection of the client together: Outbound
--                               has the messages that a port sends, Inbound those that a connection
--                               reads, Messages the way from one to the other
--   FileStore                   src/file_store.cpp and include/bc/soup/file_store.h: Posix has the
--                               system calls, Transfer the loops that complete them, Store the class
--                               File_store, Log what the file holds; Adding, Getting and Opening say
--                               what add, get and open do with it
--   Common                      tests, lists and strings that the parts share
--   Examples                    runs at concrete inputs
-- A function has the name of the one it models, in the module of its class. Where a file overloads a
-- name, the type of the argument is part of it: new_write_packet, sized_write_packet and
-- empty_write_packet are the constructors of Write_packet.
--
-- How state is modelled. A class is a record of its members, and a function that changes it returns
-- the new record. A socket or a timer calls its handler, which calls it back, so those operations work
-- on the state `W` of whatever contains them: `get` and `put` of an Owner say where the socket or the
-- timer stands, and the other fields are the callbacks. Server and client each instantiate them with
-- their `World`, in which connections and ports are numbers, as pointers would be. A callback of the
-- user's handlers is recorded in the list `calls`; what a user does inside one of them, such as
-- sending a message, is not part of the step.
--
-- What Asio does is an argument: the error code that an operation throws or that a completion handler
-- gets, the number of bytes and the bytes. That Asio holds a completion handler is a flag of the
-- record, and so is a posted call of `closed` or of `..._timer_stopped`, which is run by the function
-- of that name as a step of its own.
--
-- Numbers. A byte, a length and a sequence number are natural numbers; where the source computes in an
-- unsigned type of w bits the model has `% 2 ^ w` at the same place. Texts are lists of bytes.
--
-- The file store works over system calls, which are a parameter, the record Posix. What it relies on is
-- the record IsLawful: a call that fails, or that a signal interrupts, changes nothing; a read or a
-- write transfers some first part of the bytes, at least one unless a read is at the end of the file;
-- and only so many signals are left to interrupt a call. Examples.Files has a file in memory that meets
-- this, which is read and written one byte at a time.
--
-- Fuel. The loops of the file store run on fuel and are `none` without it: one round for each signal,
-- for each byte that a read or a write transfers, and for each message that open finds. The theorems ask
-- for more fuel than there are signals and bytes, and state that the result is not `none`. Elsewhere no
-- function runs on fuel, except `receive_many`, which gets the number of packets.
--
-- A server and a client post functions to Asio, which stand in the list `posted` until they are run, the
-- first one first.
--
-- Not modelled: socket options and endpoints, which only call Asio, and the example programs. Texts that
-- name the failed operation are left out. `std::isalnum` is that of the C locale. The assertion in
-- Client::on_sequenced_data is not part of the model. A step of Server.Run does not add a port, and the
-- connections that Asio accepts once a server has stopped are not among the requests to
-- Server.Service. Of include/bc/soup/expected.h the overloads for references and for construction in
-- place are left out.
pub mod Client
pub mod Common
pub mod ConnectionState
pub mod Constants
pub mod Error
pub mod Examples
pub mod Expected
pub mod FileStore
pub mod HeartbeatTimer
pub mod LogicalPackets
pub mod LoginTimer
pub mod Packing
pub mod Protocol
pub mod ReconnectTimer
pub mod RwPackets
pub mod Server
pub mod Socket
pub mod SocketAcceptor
pub mod Types
pub mod Validate
