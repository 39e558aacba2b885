-- ===== src/Protocol.antt =====
-- `handle_packet` of adbd/src/adb.c, a handler for each command.
pub mod Auth
pub mod Signature
use stm32f429_adbd.Common.{
  ℕ, suc, ◌+◌, ◌-◌, ◌≤◌, Bool, true, false, not, ◌||◌, ◌&&◌, Option, none, some, List, [], ◌∷◌,
  ◌++◌, ◌==◌, if◌then◌else◌, leb, ltb, length, take, drop, get_or, codes,
}
use stm32f429_adbd.Packet.{
  Packet, Message, get_apacket, max_payload, a_sync, a_cnxn, a_open, a_okay, a_clse, a_wrte, a_auth,
  a_version,
}
use stm32f429_adbd.Engine.{Socket, State, Transport}
use stm32f429_adbd.Engine.Monad.{
  M, Result, ok, crash, ◌>>=◌, ◌>>◌, pure, skip, gets, deref, load, modify, free, get_transport,
  set_transport, log_write,
}
use stm32f429_adbd.Rings.{find_local_socket}
use stm32f429_adbd.Select.{cs_offline}
use stm32f429_adbd.Socket.{send_packet, control, remove_transport_disconnect, call_close}
use stm32f429_adbd.Flow.{
  Verdict, closed_us, ready_for_more, not_ready, call_enqueue, up_to_nul, payload_packet,
}
use stm32f429_adbd.Flow.Ready.{call_ready, write_once}
use stm32f429_adbd.Service.{Env, create_remote_socket, create_local_service_socket}
use stm32f429_adbd.Banner.{parse_banner}
use stm32f429_adbd.Common.Words.{add32}
use stm32f429_adbd.Connection.{
  handle_online, handle_offline, send_connect, send_auth_request, adb_auth_verified,
  adb_auth_verify, adb_auth_confirm_key,
}

unfoldable pub handle_sync : Env → Packet → ℕ → M (Unit {0})
unfolding handle_offline send_connect
handle_sync env p t =
    if p.arg0 == 0
    then (do
      set_transport t (λ tr. record tr { connection_state = cs_offline })
      handle_offline t
      send_packet p (some t))
    else (do send_packet p (some t); if env.host then send_connect env t else skip)

unfoldable pub handle_cnxn : Env → Packet → ℕ → M (Unit {0})
unfolding handle_offline handle_online send_connect send_auth_request up_to_nul
handle_cnxn env p t = do
  tr ← get_transport t
  (if tr.connection_state == cs_offline then skip else (do
    set_transport t (λ tr. record tr { connection_state = cs_offline })
    handle_offline t))
  set_transport t (parse_banner (up_to_nul p.payload))
  if env.host || not env.auth_enabled
      then (do handle_online t; if not env.host then send_connect env t else skip)
      else send_auth_request t

-- On the device a token is not signed and no public key is sent.
unfoldable pub handle_auth : Env → Packet → ℕ → M (Unit {0})
unfolding adb_auth_verify adb_auth_verified send_auth_request adb_auth_confirm_key
handle_auth env p t =
    if p.arg0 == 1
    then skip
    else if p.arg0 == 2
    then (do
      tr ← get_transport t
      if adb_auth_verify env tr.token p.payload p.data_length
          then (do
            adb_auth_verified env t
            set_transport t (λ tr. record tr { failed_auth_attempts = 0 }))
          else (do
            set_transport t
                (λ tr. record tr { failed_auth_attempts = add32 tr.failed_auth_attempts 1 })
            send_auth_request t))
    else if p.arg0 == 3
    then adb_auth_confirm_key p.payload p.data_length t
    else skip

-- `name[data_length > 0 ? data_length - 1 : 0] = 0`, and the name up to its NUL.
unfoldable pub open_name : Packet → List ℕ
unfolding up_to_nul
open_name p = up_to_nul (take (p.data_length - 1) p.payload)

unfoldable pub handle_open : Env → Packet → ℕ → M (Unit {0})
unfolding open_name create_local_service_socket create_remote_socket
handle_open env p t = do
  made ← create_local_service_socket env (open_name p)
  elim made [
    | none ↦ send_packet (control a_clse 0 p.arg0) (some t)
    | some s ↦ (do
      r ← create_remote_socket p.arg0 t
      modify s (λ x. record x { peer = some r })
      modify r (λ y. record y { peer = some s })
      x ← load s
      y ← load r
      send_packet (control a_okay x.id y.id) (some t)
      call_ready s)
  ]

unfoldable pub handle_okay : Packet → ℕ → M (Unit {0})
unfolding create_remote_socket
handle_okay p t = do
  hit ← find_local_socket p.arg1
  elim hit [
    | none ↦ skip
    | some s ↦ (do
      x ← load s
      elim x.peer [
        | some _ ↦ skip
        | none ↦ (do
          r ← create_remote_socket p.arg0 t
          modify s (λ x. record x { peer = some r })
          modify r (λ y. record y { peer = some s }))
      ]
      call_ready s)
  ]

unfoldable pub handle_clse : Packet → M (Unit {0})
handle_clse p = do hit ← find_local_socket p.arg1; elim hit [ none ↦ skip | some s ↦ call_close s ]

unfoldable pub handle_wrte : Packet → ℕ → M (Unit {0})
handle_wrte p t = do
  hit ← find_local_socket p.arg1
  elim hit [
    | none ↦ skip
    | some s ↦ (do
      verdict ← call_enqueue s (take p.data_length p.payload)
      elim verdict [
        | ready_for_more ↦ (do x ← load s; send_packet (control a_okay x.id p.arg0) (some t))
        | _ ↦ skip
      ])
  ]

-- The guard `if(t->online)` of the last four commands.
abbrev pub when_online : ℕ → M (Unit {0}) → M (Unit {0})
when_online t m = do tr ← get_transport t; elim tr.online [ true ↦ m | false ↦ skip ]

unfoldable pub handle_packet : Env → Packet → ℕ → M (Unit {0})
unfolding handle_sync handle_cnxn handle_auth handle_open handle_okay handle_clse handle_wrte
handle_packet env p t =
    if p.command == a_sync
    then handle_sync env p t
    else if p.command == a_cnxn
    then handle_cnxn env p t
    else if p.command == a_auth
    then handle_auth env p t
    else if p.command == a_open
    then when_online t (handle_open env p t)
    else if p.command == a_okay
    then when_online t (handle_okay p t)
    else if p.command == a_clse
    then when_online t (handle_clse p)
    else if p.command == a_wrte
    then when_online t (handle_wrte p t)
    else skip
