-- ===== src/Flow.antt =====
-- Data through the sockets: the enqueue and ready functions of adbd/src/sockets.c and
-- adbd/src/jdwp_service.c.
pub mod Ready
pub mod Event
pub mod Stream
use stm32f429_adbd.Common.{
  ℕ, zero, suc, ◌+◌, ◌-◌, ◌*◌, ◌≤◌, Bool, true, false, not, ◌||◌, ◌&&◌, Option, none, some, List,
  [], ◌∷◌, ◌++◌, ◌==◌, if◌then◌else◌, leb, ltb, length, take, drop, codes, map,
}
use stm32f429_adbd.Hex.{unhex, hex4}
use stm32f429_adbd.Io.{WriteReply, accepted, write_failed}
use stm32f429_adbd.Packet.{Packet, get_apacket, a_okay, a_wrte, a_open, max_payload}
use stm32f429_adbd.Stream.{push, WriteEnd, drained, would_block, broken}
use stm32f429_adbd.Engine.{
  Socket, State, Transport, TransportType, any, local_socket_enqueue, remote_socket_enqueue,
  smart_socket_enqueue, jdwp_socket_enqueue, jdwp_tracker_enqueue, local_socket_ready,
  remote_socket_ready, smart_socket_ready, local_socket_ready_notify, jdwp_socket_ready,
  jdwp_tracker_ready, local_socket_close, local_socket_close_notify,
}
use stm32f429_adbd.Engine.Monad.{
  M, Result, ok, crash, ◌>>=◌, ◌>>◌, pure, skip, exit, gets, deref, load, modify, log_write,
}
use stm32f429_adbd.Select.{Attempt, found, refused, retry, AcquireError, acquire_round, cs_offline}
use stm32f429_adbd.Select.{
  device_not_found, insufficient_permissions, more_than_one_device, more_than_one_emulator,
  more_than_one_device_and_emulator, device_offline, invalid_device_state,
}
use stm32f429_adbd.Socket.{send_packet, control, sendfailmsg, call_close}

-- The return of an enqueue function: -1, 0 or 1.
pub data Verdict : Type 0 where
  closed_us ready_for_more not_ready : Verdict

-- Joins the chain's end, and asks for write events.
unfoldable pub append_packet : ℕ → List ℕ → M (Unit {0})
append_packet s bytes =
    modify s (λ x. record x { queue = x.queue ++ (bytes ∷ []); want_write = true })

-- The state after the writes that a loop made.
abbrev pub wrote : ℕ → List ℕ → List WriteReply → M (Unit {0})
wrote fd bytes left s =
    ok tt (record s { write_replies = left; written = s.written ++ ((fd, bytes) ∷ []) })

unfoldable pub local_enqueue : ℕ → List ℕ → M Verdict
unfolding append_packet
local_enqueue s bytes = do
  x ← load s
  elim x.queue [
    | _ ∷ _ ↦ (do append_packet s bytes; pure not_ready)
    | [] ↦ (do
      r ← gets (λ σ. push σ.write_replies bytes)
      wrote x.write_fd r.written r.replies
      elim r.end [
        | drained ↦ pure ready_for_more
        | would_block ↦ (do append_packet s r.left; pure not_ready)
        | broken ↦ (do call_close s; pure not_ready)
      ])
  ]

-- A packet with `len` bytes of payload.
unfoldable pub payload_packet : ℕ → ℕ → ℕ → List ℕ → Packet
unfolding get_apacket
payload_packet command arg0 arg1 bytes = record get_apacket {
  len = length bytes;
  msg = record (get_apacket.msg) {
    command = command;
    arg0 = arg0;
    arg1 = arg1;
    data_length = length bytes;
  };
  payload = bytes;
}

unfoldable pub remote_enqueue : ℕ → List ℕ → M Verdict
unfolding payload_packet
remote_enqueue s bytes = do
  x ← load s
  p ← deref x.peer
  y ← load p
  send_packet (payload_packet a_wrte y.id x.id bytes) x.transport
  pure not_ready

-- `jdwp_socket_enqueue` and `jdwp_tracker_enqueue`: these sockets cannot be written to.
unfoldable pub refuse_enqueue : ℕ → List ℕ → M Verdict
refuse_enqueue s bytes = do x ← load s; p ← deref x.peer; call_close p; pure closed_us

-- `connect_to_remote`: OPEN with the destination and its terminating NUL.
unfoldable pub connect_to_remote : ℕ → List ℕ → M (Unit {0})
unfolding payload_packet
connect_to_remote s destination = do
  x ← load s
  (if ltb (max_payload - 1) (length destination + 1) then exit else skip)
  send_packet (payload_packet a_open x.id 0 (destination ++ (0 ∷ []))) x.transport

-- The service name: the bytes after the length, up to the first NUL.
unfoldable pub up_to_nul : List ℕ → List ℕ
up_to_nul [] = []
up_to_nul (b ∷ bs) = if b == 0 then [] else b ∷ up_to_nul bs

unfoldable pub error_text : AcquireError → List ℕ
error_text device_not_found = codes "device not found"
error_text insufficient_permissions = codes "insufficient permissions for device"
error_text more_than_one_device = codes "more than one device"
error_text more_than_one_emulator = codes "more than one emulator"
error_text more_than_one_device_and_emulator = codes "more than one device and emulator"
error_text device_offline = codes "device offline"
error_text invalid_device_state = codes "invalid device state"

-- The label `fail` of `smart_socket_enqueue`.
unfoldable pub smart_fail : ℕ → M Verdict
smart_fail s = do call_close s; pure closed_us

-- `sendfailmsg(s->peer->fd, ...)`, then the label.
unfoldable pub smart_refuse : ℕ → List ℕ → M Verdict
unfolding smart_fail
smart_refuse s reason = do
  x ← load s
  p ← deref x.peer
  y ← load p
  sendfailmsg y.fd reason
  smart_fail s

-- The last part: the peer is rigged to report how the connection goes, and asks for it.
unfoldable pub smart_connect : ℕ → ℕ → List ℕ → M Verdict
unfolding connect_to_remote
smart_connect s t service = do
  x ← load s
  p ← deref x.peer
  modify p (λ y. record y {
    ready = local_socket_ready_notify;
    close = local_socket_close_notify;
    peer = none;
    transport = some t;
  })
  connect_to_remote p service
  modify s (λ z. record z { peer = none })
  call_close s
  pure not_ready

-- The device is chosen, if the socket has none, and must not be offline.
unfoldable pub smart_request : ℕ → List ℕ → M Verdict
unfolding smart_refuse smart_connect error_text
smart_request s service = do
  x ← load s
  chosen ← elim x.transport [
    | some t ↦ pure (found t)
    | none ↦
        gets (λ σ. acquire_round none any none (map (λ a. (a, σ.transports a)) σ.transport_list))
  ]
  elim chosen [
    | retry ↦ smart_refuse s (codes "unknown failure")
    | refused e ↦ smart_refuse s (error_text e)
    | found t ↦ (do
      modify s (λ z. record z { transport = some t })
      state ← gets (λ σ. (σ.transports t).connection_state)
      if state == cs_offline
          then smart_refuse s (codes "device offline (x)")
          else smart_connect s t service)
  ]

-- What the bytes gathered so far ask for.
unfoldable pub smart_header : ℕ → List ℕ → M Verdict
unfolding smart_fail smart_request up_to_nul
smart_header s bytes =
    if ltb (length bytes) 4
    then pure ready_for_more
    else let len = unhex (take 4 bytes) in
      if ltb len 1 || ltb 1024 len
      then smart_fail s
      else if ltb (length bytes) (len + 4)
      then pure ready_for_more
      else smart_request s (up_to_nul (take len (drop 4 bytes)))

-- `smart_socket_enqueue`: the chain holds one packet, to which the bytes of the next are added.
unfoldable pub smart_enqueue : ℕ → List ℕ → M Verdict
unfolding smart_fail smart_header
smart_enqueue s bytes = do
  x ← load s
  elim x.queue [
    | [] ↦ (do modify s (λ z. record z { queue = bytes ∷ [] }); smart_header s bytes)
    | gathered ∷ _ ↦ if ltb max_payload (length gathered + length bytes) then smart_fail s else (do
      modify s (λ z. record z { queue = (gathered ++ bytes) ∷ [] })
      smart_header s (gathered ++ bytes))
  ]

-- `s->enqueue(s, p)`, with the payload of `p`.
unfoldable pub call_enqueue : ℕ → List ℕ → M Verdict
unfolding local_enqueue remote_enqueue refuse_enqueue smart_enqueue
call_enqueue s bytes = do
  x ← load s
  elim x.enqueue [
    | local_socket_enqueue ↦ local_enqueue s bytes
    | remote_socket_enqueue ↦ remote_enqueue s bytes
    | smart_socket_enqueue ↦ smart_enqueue s bytes
    | jdwp_socket_enqueue ↦ refuse_enqueue s bytes
    | jdwp_tracker_enqueue ↦ refuse_enqueue s bytes
  ]
