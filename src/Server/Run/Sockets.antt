-- ===== src/Server/Run/Sockets.antt =====
-- The sockets of the connections of a running acceptor.
use soupbintcp.Common.{ℕ, ◌≡◌, ◌∙◌, true, List}
use soupbintcp.ConnectionState.{disconnecting, state_eq}
use soupbintcp.Types.{DisconnectReason}
use soupbintcp.Socket.Keeping as SocketKeeping
use soupbintcp.Server.World.{World, Asio, write_buffer_emptied}
use soupbintcp.Server.TcpConnection.{socket_owner, write_success}
use soupbintcp.Server.Run.{is_listed}
use soupbintcp.Server.Run.Sound.{
  IsSound, IsQuiet, IsQuiet-refl, IsQuiet-IsSound, put_connection-IsQuiet, if-I,
}
use soupbintcp.Server.Run.Quiet.{
  put_socket-Goes, disconnect-IsQuiet, handle_transport_error-IsQuiet,
  handle_protocol_violation-IsQuiet,
}
use soupbintcp.Server.Run.Packets.{call_port-IsQuiet, read_success-IsSound}
use soupbintcp.Server.Run.Lists.{HasList, read_success-HasList}

-- A sound state with the given connections.
pub record Holds (list : List ℕ) (w : World) : Type 0 where
  pub sound : IsSound w
  pub listing : HasList list w

IsQuiet-Holds : {list : List ℕ} {w w' : World} → IsQuiet w w' → Holds list w → Holds list w'
IsQuiet-Holds q h = record {
  sound = IsQuiet-IsSound q h.sound;
  listing = record { same = q.same_list ∙ h.listing.same };
}

write_success-IsQuiet : (w : World) (i : ℕ) → IsQuiet w (write_success w i)
unfolding write_success
write_success-IsQuiet w i =
    if-I (IsQuiet w) (state_eq (w.connection_at i).state.state disconnecting) _ w
      (disconnect-IsQuiet w i DisconnectReason.unmanaged_abort) (IsQuiet-refl w)

pub socket_owner-Keeps :
    (asio : Asio) (i : ℕ) (list : List ℕ)
    → is_listed i list ≡ true
    → SocketKeeping.Keeps (socket_owner asio i) (Holds list)
unfolding socket_owner
socket_owner-Keeps asio i list listed = record {
  put_keeps =
      λ w s h near. IsQuiet-Holds (put_connection-IsQuiet w i _ (put_socket-Goes _ s near)) h;
  read_failure_keeps = λ w ec h. IsQuiet-Holds (handle_transport_error-IsQuiet w i ec) h;
  read_violation_keeps = λ w e h. IsQuiet-Holds (handle_protocol_violation-IsQuiet w i e) h;
  read_success_keeps = λ w p h. record {
    sound = read_success-IsSound asio w i p h.sound (rw h.listing.same listed);
    listing = read_success-HasList list asio w i p h.listing;
  };
  read_aborted_keeps = λ w h. IsQuiet-Holds (disconnect-IsQuiet w i _) h;
  read_end_of_file_keeps = λ w h. IsQuiet-Holds (disconnect-IsQuiet w i _) h;
  write_failure_keeps = λ w ec h. IsQuiet-Holds (handle_transport_error-IsQuiet w i ec) h;
  write_success_keeps = λ w p h. IsQuiet-Holds (write_success-IsQuiet w i) h;
  write_buffer_empty_keeps =
      λ w h. IsQuiet-Holds (call_port-IsQuiet w (w.connection_at i).handler write_buffer_emptied) h;
}
