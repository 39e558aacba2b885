-- ===== src/Socket/Session.antt =====
-- The close functions of adbd/src/sockets.c and the sessions of the transports.
use stm32f429_adbd.Common.{ℕ, List, Option}
use stm32f429_adbd.Packet.{Packet}
use stm32f429_adbd.Engine.Session.{KeepsSessions}
use stm32f429_adbd.Engine.Calm.{IsCalm-KeepsSessions}
use stm32f429_adbd.Rings.{remove_socket}
use stm32f429_adbd.Socket.{remove_transport_disconnect, sendfailmsg, send_packet, call_close}
use stm32f429_adbd.Socket.Calm.{
  send_packet-IsCalm, remove_disconnect-IsCalm, sendfailmsg-IsCalm, remove_socket-IsCalm,
  call_close-IsCalm,
}

pub send_packet-KeepsSessions : (p : Packet) (t : Option ℕ) → KeepsSessions (send_packet p t)
send_packet-KeepsSessions p t = IsCalm-KeepsSessions (send_packet p t) (send_packet-IsCalm p t)

pub remove_disconnect-KeepsSessions : (t s : ℕ) → KeepsSessions (remove_transport_disconnect t s)
remove_disconnect-KeepsSessions t s =
    IsCalm-KeepsSessions (remove_transport_disconnect t s) (remove_disconnect-IsCalm t s)

pub sendfailmsg-KeepsSessions : (fd : ℕ) (reason : List ℕ) → KeepsSessions (sendfailmsg fd reason)
sendfailmsg-KeepsSessions fd reason =
    IsCalm-KeepsSessions (sendfailmsg fd reason) (sendfailmsg-IsCalm fd reason)

pub remove_socket-KeepsSessions : (s : ℕ) → KeepsSessions (remove_socket s)
remove_socket-KeepsSessions s = IsCalm-KeepsSessions (remove_socket s) (remove_socket-IsCalm s)

pub call_close-KeepsSessions : (s : ℕ) → KeepsSessions (call_close s)
call_close-KeepsSessions s = IsCalm-KeepsSessions (call_close s) (call_close-IsCalm s)
