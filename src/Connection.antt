-- ===== src/Connection.antt =====
-- How a transport goes online and offline, and its authorization: adbd/src/adb.c and the device's
-- side of adbd/src/adb_auth_client.c.
pub mod Offline
use stm32f429_adbd.Common.{
  ℕ, suc, ◌+◌, ◌-◌, ◌≤◌, Bool, true, false, not, ◌||◌, ◌&&◌, Option, none, some, List, [], ◌∷◌,
  ◌++◌, ◌==◌, if◌then◌else◌, leb, ltb, length, take, drop, get_or, codes,
}
use stm32f429_adbd.Io.{WriteReply, accepted, write_failed}
use stm32f429_adbd.Packet.{
  Packet, Message, get_apacket, max_payload, a_sync, a_cnxn, a_open, a_okay, a_clse, a_wrte, a_auth,
  a_version,
}
use stm32f429_adbd.Engine.{Socket, State, Transport}
use stm32f429_adbd.Engine.Monad.{
  M, Result, ok, crash, ◌>>=◌, ◌>>◌, pure, skip, gets, deref, load, modify, free, get_transport,
  set_transport, log_write,
}
use stm32f429_adbd.Rings.{find_local_socket}
use stm32f429_adbd.Select.{cs_offline}
use stm32f429_adbd.Socket.{send_packet, control, remove_transport_disconnect, call_close}
use stm32f429_adbd.Flow.{
  Verdict, closed_us, ready_for_more, not_ready, call_enqueue, up_to_nul, payload_packet,
}
use stm32f429_adbd.Flow.Ready.{call_ready, write_once}
use stm32f429_adbd.Service.{Env, create_remote_socket, create_local_service_socket}
use stm32f429_adbd.Banner.{parse_banner}

-- `remote_socket_disconnect`, the callback of a remote socket's adisconnect.
unfoldable pub remote_socket_disconnect : ℕ → M (Unit {0})
remote_socket_disconnect s = do
  x ← load s
  elim x.peer [ none ↦ skip | some p ↦ (do modify p (λ y. record y { peer = none }); call_close p) ]
  t ← deref x.transport
  remove_transport_disconnect t s
  free s

-- `run_transport_disconnects`, over the callbacks that are linked when it starts.
unfoldable pub run_disconnects : List ℕ → M (Unit {0})
unfolding remote_socket_disconnect
run_disconnects [] = skip
run_disconnects (s ∷ rest) = do remote_socket_disconnect s; run_disconnects rest

unfoldable pub handle_online : ℕ → M (Unit {0})
handle_online t = set_transport t (λ tr. record tr { online = true })

unfoldable pub handle_offline : ℕ → M (Unit {0})
unfolding run_disconnects
handle_offline t = do
  set_transport t (λ tr. record tr { online = false })
  tr ← get_transport t
  run_disconnects tr.disconnects

-- `fill_connect_data`, with the NUL that is counted.
unfoldable pub connect_data : List ℕ → List ℕ
connect_data banner =
    banner
    ++ (codes "::ro.product.name=occam;ro.product.model=Nexus 4;ro.product.device=mako;"
        ++ (0 ∷ []))

unfoldable pub send_connect : Env → ℕ → M (Unit {0})
unfolding connect_data payload_packet
send_connect env t =
    send_packet
      (record (payload_packet a_cnxn a_version max_payload (connect_data env.banner)) { len = 0 })
      (some t)

abbrev pub token_size : ℕ
token_size = 20

-- The bytes that /dev/urandom yields become the token, from its start on; a whole one is sent.
unfoldable pub send_token : ℕ → List ℕ → M (Unit {0})
unfolding payload_packet
send_token t bytes = do
  set_transport t (λ tr. record tr { token = bytes ++ drop (length bytes) tr.token })
  if length bytes == token_size
      then send_packet (record (payload_packet a_auth 1 0 bytes) { len = 0 }) (some t)
      else skip

abbrev pub next_random : M (Option (List ℕ))
next_random s = elim s.random [
  | [] ↦ ok none s
  | bytes ∷ rest ↦ ok (some bytes) (record s { random = rest })
]

-- `send_auth_request`; with no source there is no token.
unfoldable pub send_auth_request : ℕ → M (Unit {0})
unfolding send_token
send_auth_request t = do
  source ← next_random
  elim source [ none ↦ skip | some bytes ↦ send_token t bytes ]

unfoldable pub adb_auth_verified : Env → ℕ → M (Unit {0})
unfolding handle_online send_connect
adb_auth_verified env t = do handle_online t; send_connect env t

abbrev pub rsa_num_bytes : ℕ
rsa_num_bytes = 256

-- The loop of `adb_auth_verify` over the keys.
unfoldable pub any_key : Env → List ℕ → List ℕ → List ℕ → Bool
any_key env [] sig token = false
any_key env (key ∷ keys) sig token =
    let rest = any_key env keys sig token in if env.rsa_verify key sig token then true else rest

unfoldable pub adb_auth_verify : Env → List ℕ → List ℕ → ℕ → Bool
unfolding any_key
adb_auth_verify env token sig siglen =
    if not (siglen == rsa_num_bytes) then false else any_key env env.keys sig token

-- Whether the coming write returns a value below 0.
abbrev pub is_refused : List WriteReply → Bool
is_refused [] = true
is_refused (accepted n ∷ replies) = false
is_refused (write_failed e ∷ replies) = true

-- `adb_auth_confirm_key`: the key goes to the framework, whose answer `auth_event` reads.
unfoldable pub adb_auth_confirm_key : List ℕ → ℕ → ℕ → M (Unit {0})
unfolding up_to_nul write_once
adb_auth_confirm_key key len t = do
  framework ← gets (λ σ. σ.framework_fd)
  elim framework [
    | none ↦ skip
    | some fd ↦
        if len == 0
        then (λ σ. crash)
        else if not (get_or key (len - 1) 0 == 0)
        then skip
        else if leb max_payload (length (codes "PK" ++ up_to_nul key))
        then skip
        else (do
          refused ← gets (λ σ. is_refused σ.write_replies)
          write_once fd (codes "PK" ++ up_to_nul key)
          if refused then skip else set_transport t (λ tr. record tr { auth_pending = true }))
  ]

-- `adb_auth_event`, on the two bytes that it reads.
unfoldable pub adb_auth_event : Env → List ℕ → ℕ → M (Unit {0})
unfolding adb_auth_verified
adb_auth_event env response t = elim response [
  | [] ↦ skip
  | a ∷ rest ↦ elim rest [
    | [] ↦ skip
    | b ∷ more ↦
        if a == b'O' && (b == b'K' && length more == 0) then adb_auth_verified env t else skip
  ]
]
