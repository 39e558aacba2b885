-- ===== src/Socket.antt =====
-- Sending, and the close functions of adbd/src/sockets.c and adbd/src/jdwp_service.c, which call
-- one another through the function pointers.
pub mod Termination
pub mod Fuel
pub mod Effect
pub mod Calm
pub mod Session
pub mod Sweep
use stm32f429_adbd.Common.{
  ℕ, zero, suc, ◌+◌, ◌≤◌, Bool, true, false, Option, none, some, List, [], ◌∷◌, ◌++◌, ◌==◌,
  if◌then◌else◌, leb, length, take, codes,
}
use stm32f429_adbd.Hex.{hex4}
use stm32f429_adbd.Io.{WriteReply, Transfer, complete, failed, waiting, writex}
use stm32f429_adbd.Packet.{Packet, get_apacket, stamp, a_okay, a_clse}
use stm32f429_adbd.Engine.{
  Socket, State, Transport, Close, Ready, local_socket_close, remote_socket_close,
  smart_socket_close, local_socket_close_notify, jdwp_socket_close, jdwp_tracker_close,
  local_socket_ready,
}
use stm32f429_adbd.Engine.Monad.{
  M, Result, ok, crash, deadlock, exits, no_fuel, ◌>>=◌, ◌>>◌, pure, skip, exit, gets, deref, load,
  store, free, modify, lock, unlock, set_transport, close_fd, log_write, update,
}
use stm32f429_adbd.Rings.{unlink, remove_socket, set_locals, set_closings}

-- `send_packet`: a packet for no transport is fatal. The pipe to the transport takes it whole.
unfoldable pub send_packet : Packet → Option ℕ → M (Unit {0})
send_packet p none = exit
send_packet p (some t) = set_transport t (λ tr. record tr { sent = tr.sent ++ (stamp p ∷ []) })

-- A packet with no payload, as `send_ready`, `send_close` and the remote socket make them.
unfoldable pub control : ℕ → ℕ → ℕ → Packet
unfolding get_apacket
control command arg0 arg1 = record get_apacket {
  msg = record (get_apacket.msg) { command = command; arg0 = arg0; arg1 = arg1 };
}

-- `writex` on a descriptor: whether it returned 0, and the state after it.
unfoldable pub writex_fd : ℕ → List ℕ → State → Bool × State
writex_fd fd buf s =
    let (end, bytes, left) = writex s.write_replies buf in
    (
      elim end [ complete ↦ true | _ ↦ false ],
      record s { write_replies = left; written = s.written ++ ((fd, bytes) ∷ []) },
    )

-- The state after `sendfailmsg`: "FAIL", the length in four digits, and the reason, cut to that
-- length. Its result is not used by the callers here.
unfoldable pub after_failmsg : ℕ → List ℕ → State → State
unfolding writex_fd
after_failmsg fd reason s =
    let len = if leb (length reason) 0xffff then length reason else 0xffff in
    let (done, s') = writex_fd fd (codes "FAIL" ++ hex4 len) s in
    if done then (writex_fd fd (take len reason) s').1 else s'

unfoldable pub sendfailmsg : ℕ → List ℕ → M (Unit {0})
sendfailmsg fd reason s = ok tt (after_failmsg fd reason s)

unfoldable pub remove_transport_disconnect : ℕ → ℕ → M (Unit {0})
unfolding unlink
remove_transport_disconnect t s =
    set_transport t (λ tr. record tr { disconnects = unlink s tr.disconnects })

unfoldable pub local_socket_destroy : ℕ → M (Unit {0})
unfolding remove_socket
local_socket_destroy s = do
  x ← load s
  close_fd x.fd
  (if x.write_fd == x.fd then skip else close_fd x.write_fd)
  remove_socket s
  free s
  if x.exit_on_close then exit else skip

-- A close is entered through the socket's function pointer, or in `local_socket_close_locked` by a
-- caller that holds the lock.
pub data Entry : Type 0 where
  pointer locked : Entry

-- The end of `local_socket_close_locked`, when the peer is gone.
unfoldable pub finish_close : ℕ → M (Unit {0})
unfolding local_socket_destroy remove_socket
finish_close s = do
  x ← load s
  elim x.closing [
    | true ↦ local_socket_destroy s
    | false ↦ elim x.queue [
      | [] ↦ local_socket_destroy s
      | _ ∷ _ ↦ (do
        modify s (λ y. record y { closing = true; want_read = false })
        remove_socket s
        set_closings (λ ring. ring ++ (s ∷ [])))
    ]
  ]

-- `local_socket_close_locked` enters a local peer below the lock, any other through its pointer.
unfoldable pub peer_entry : Close → Entry
peer_entry local_socket_close = locked
peer_entry _ = pointer

unfoldable pub local_socket_close_locked : (Entry → ℕ → M (Unit {0})) → ℕ → M (Unit {0})
unfolding finish_close peer_entry
local_socket_close_locked cut_close s = do
  x ← load s
  elim x.peer [
    | none ↦ skip
    | some p ↦ (do
      y ← load p
      cut_close (peer_entry y.close) p
      modify s (λ z. record z { peer = none }))
  ]
  finish_close s

unfoldable pub remote_close : (Entry → ℕ → M (Unit {0})) → ℕ → M (Unit {0})
unfolding send_packet remove_transport_disconnect control
remote_close cut_close s = do
  x ← load s
  arg0 ← elim x.peer [ none ↦ pure 0 | some p ↦ (do y ← load p; cut_close pointer p; pure y.id) ]
  send_packet (control a_clse arg0 x.id) x.transport
  t ← deref x.transport
  remove_transport_disconnect t s
  free s

unfoldable pub smart_close : (Entry → ℕ → M (Unit {0})) → ℕ → M (Unit {0})
smart_close cut_close s = do
  x ← load s
  elim x.peer [ none ↦ skip | some p ↦ cut_close pointer p ]
  free s

unfoldable pub jdwp_close : (Entry → ℕ → M (Unit {0})) → ℕ → M (Unit {0})
unfolding remove_socket
jdwp_close cut_close s = do
  x ← load s
  remove_socket s
  elim x.peer [ none ↦ skip | some p ↦ cut_close pointer p ]
  free s

unfoldable pub tracker_close : (Entry → ℕ → M (Unit {0})) → ℕ → M (Unit {0})
unfolding remove_socket unlink
tracker_close cut_close s = do
  x ← load s
  elim x.peer [ none ↦ skip | some p ↦ cut_close pointer p ]
  remove_socket s
  (λ σ. ok tt (record σ { trackers = unlink s σ.trackers }))
  free s

unfoldable pub local_close : (Entry → ℕ → M (Unit {0})) → ℕ → M (Unit {0})
unfolding local_socket_close_locked
local_close cut_close s = do lock; local_socket_close_locked cut_close s; unlock

-- `local_socket_close_notify` makes the socket a plain local one, so its last call is
-- `local_socket_close`.
unfoldable pub close_notify : (Entry → ℕ → M (Unit {0})) → ℕ → M (Unit {0})
unfolding local_close sendfailmsg
close_notify cut_close s = do
  modify s (λ x. record x { ready = local_socket_ready; close = local_socket_close })
  x ← load s
  sendfailmsg x.fd (codes "closed")
  local_close cut_close s

-- `s->close(s)`
unfoldable pub dispatch_close : (Entry → ℕ → M (Unit {0})) → Close → ℕ → M (Unit {0})
unfolding local_close remote_close smart_close close_notify jdwp_close tracker_close
dispatch_close cut_close local_socket_close s = local_close cut_close s
dispatch_close cut_close remote_socket_close s = remote_close cut_close s
dispatch_close cut_close smart_socket_close s = smart_close cut_close s
dispatch_close cut_close local_socket_close_notify s = close_notify cut_close s
dispatch_close cut_close jdwp_socket_close s = jdwp_close cut_close s
dispatch_close cut_close jdwp_tracker_close s = tracker_close cut_close s

-- `s->peer->peer = 0; s->peer->close(s->peer)`: what the functions above do with their peer.
unfoldable pub detach : (Entry → ℕ → M (Unit {0})) → Entry → ℕ → M (Unit {0})
detach rec e p = do modify p (λ y. record y { peer = none }); rec e p

-- `s->close(s)`, or `local_socket_close_locked(s)`, with at most that many calls below one another.
unfoldable pub run_close : ℕ → Entry → ℕ → M (Unit {0})
unfolding dispatch_close local_socket_close_locked detach
run_close zero e s = λ σ. no_fuel
run_close (suc n) locked s = local_socket_close_locked (detach (run_close n)) s
run_close (suc n) pointer s = do x ← load s; dispatch_close (detach (run_close n)) x.close s

-- `s->close(s)`, to a depth of two.
unfoldable pub call_close : ℕ → M (Unit {0})
unfolding run_close
call_close = run_close 2 pointer
