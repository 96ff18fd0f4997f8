-- ===== src/Server/Run/Ports.antt =====
-- What the user of the library asks of ports, and the server of the acceptor.
use soupbintcp.Common.{
  ℕ, refl, true, Option, none, some, inl, inr, List, [], ◌∷◌, Bytes, Option-cases, ◌+◌, ◌%◌, arith,
}
use soupbintcp.Constants.{u64_mod}
use soupbintcp.Types.{DisconnectReason, WriteError}
use soupbintcp.RwPackets.{WritePacket, new_write_packet, empty_write_packet}
use soupbintcp.LogicalPackets.{sequenced_data_type, end_of_session_type}
use soupbintcp.Server.World.{World, put_port}
use soupbintcp.Server.Link
use soupbintcp.Server.Port.{
  send_attached, send_packet, count_message, send_message, send_built_message, send_debug,
  end_session,
}
use soupbintcp.Server.Acceptor
use soupbintcp.Server.Acceptor.{end_sessions, close_each}
use soupbintcp.Server.Run.Sound.{IsQuiet, IsQuiet-refl, IsQuiet-trans, put_port-IsQuiet}
use soupbintcp.Server.Run.Quiet.{disconnect-IsQuiet, send_packet-IsQuiet, send_debug_packet-IsQuiet}

send_attached-IsQuiet :
    (w : World) (o : Option ℕ) (packet : WritePacket) → IsQuiet w (send_attached w o packet).0
unfolding send_attached
send_attached-IsQuiet w none packet = IsQuiet-refl w
send_attached-IsQuiet w (some i) packet = send_packet-IsQuiet w i packet

sent-IsQuiet : (w : World) (p : ℕ) (packet : WritePacket) → IsQuiet w (send_packet w p packet).0
unfolding send_packet
sent-IsQuiet w p packet =
    ground (arith, IsQuiet-refl w, send_attached-IsQuiet w (w.port_at p).connection packet)

count_message-IsQuiet :
    (w : World) (p : ℕ) (sent : World × WriteError)
    → IsQuiet w sent.0
    → IsQuiet w (count_message sent p).0
unfolding count_message
count_message-IsQuiet w p (w', error) q =
    let counted = IsQuiet-trans q (
      put_port-IsQuiet w' p
        (record (w'.port_at p) {
          next_sequence_number = ((w'.port_at p).next_sequence_number + 1) % u64_mod;
        })
        refl) in
    ground (arith, q, counted)

pub send_message-IsQuiet :
    (w : World) (p : ℕ) (message : Option Bytes) (size : ℕ)
    → IsQuiet w (send_message w p message size).0
unfolding send_message
send_message-IsQuiet w p none size = ground (arith, IsQuiet-refl w)
send_message-IsQuiet w p (some text) size =
    let packet = new_write_packet sequenced_data_type text size in
    ground (
      arith,
      IsQuiet-refl w,
      count_message-IsQuiet w p (send_packet w p packet) (sent-IsQuiet w p packet),
    )

pub send_built_message-IsQuiet :
    (w : World) (p : ℕ) (message : WritePacket) → IsQuiet w (send_built_message w p message).0
unfolding send_built_message
send_built_message-IsQuiet w p message = ground (
  arith,
  IsQuiet-refl w,
  count_message-IsQuiet w p (send_packet w p message) (sent-IsQuiet w p message),
)

pub send_debug-IsQuiet : (w : World) (p : ℕ) (text : Bytes) → IsQuiet w (send_debug w p text).0
unfolding send_debug
send_debug-IsQuiet w p text = elim (Option-cases (w.port_at p).connection) [
  | inl e ↦ ground (arith, IsQuiet-refl w)
  | inr (i, e) ↦ ground (arith, IsQuiet-refl w, send_debug_packet-IsQuiet w i text)
]

end_session-IsQuiet : (w : World) (p : ℕ) → IsQuiet w (end_session w p)
unfolding end_session
end_session-IsQuiet w p =
    let ended = put_port-IsQuiet w p (record (w.port_at p) { has_session_ended = true }) refl in
    elim (Option-cases (w.port_at p).connection) [
      | inl e ↦ ground (arith, IsQuiet-refl w, ended)
      | inr (i, e) ↦
          let told = IsQuiet-trans ended (
            send_packet-IsQuiet (put_port w p (record (w.port_at p) { has_session_ended = true })) i
              (empty_write_packet end_of_session_type)) in
          ground (arith, IsQuiet-refl w, told)
    ]

end_sessions-IsQuiet : (w : World) (ports : List ℕ) → IsQuiet w (end_sessions w ports)
unfolding end_sessions
end_sessions-IsQuiet w [] = IsQuiet-refl w
end_sessions-IsQuiet w (p ∷ ports) =
    IsQuiet-trans (end_session-IsQuiet w p) (end_sessions-IsQuiet (end_session w p) ports)

pub acceptor_end_session-IsQuiet : (w : World) → IsQuiet w (Acceptor.end_session w)
unfolding Acceptor.end_session
acceptor_end_session-IsQuiet w = end_sessions-IsQuiet w w.ports

pub close_each-IsQuiet : (w : World) (connections : List ℕ) → IsQuiet w (close_each w connections)
unfolding close_each Link.close
close_each-IsQuiet w [] = IsQuiet-refl w
close_each-IsQuiet w (i ∷ connections) =
    IsQuiet-trans (disconnect-IsQuiet w i DisconnectReason.user_initiated)
      (close_each-IsQuiet (Link.close w i) connections)

pub stop-IsQuiet : (w : World) → IsQuiet w (Acceptor.stop w)
unfolding Acceptor.stop
stop-IsQuiet w = close_each-IsQuiet w w.connections
