-- ===== src/Flow/Ready.antt =====
-- The ready functions of adbd/src/sockets.c and adbd/src/jdwp_service.c.
use stm32f429_adbd.Common.{ℕ, true, false, List, [], ◌∷◌, ◌++◌, length, take, codes}
use stm32f429_adbd.Hex.{hex4}
use stm32f429_adbd.Io.{accepted, write_failed}
use stm32f429_adbd.Packet.{a_okay}
use stm32f429_adbd.Engine.{
  local_socket_ready, remote_socket_ready, smart_socket_ready, local_socket_ready_notify,
  jdwp_socket_ready, jdwp_tracker_ready, local_socket_close,
}
use stm32f429_adbd.Engine.Monad.{M, ok, ◌>>=◌, ◌>>◌, skip, gets, deref, load, modify}
use stm32f429_adbd.Socket.{send_packet, control, call_close}
use stm32f429_adbd.Flow.{call_enqueue}

-- One `adb_write`, whose result is not looked at.
unfoldable pub write_once : ℕ → List ℕ → M (Unit {0})
write_once fd bytes s = elim s.write_replies [
  | [] ↦ ok tt s
  | r ∷ replies ↦ elim r [
    | write_failed e ↦ ok tt (record s { write_replies = replies })
    | accepted n ↦
        ok tt
          (record s { write_replies = replies; written = s.written ++ ((fd, take n bytes) ∷ []) })
  ]
]

unfoldable pub local_ready : ℕ → M (Unit {0})
local_ready s = modify s (λ x. record x { want_read = true })

unfoldable pub remote_ready : ℕ → M (Unit {0})
remote_ready s = do
  x ← load s
  p ← deref x.peer
  y ← load p
  send_packet (control a_okay y.id x.id) x.transport

unfoldable pub ready_notify : ℕ → M (Unit {0})
unfolding write_once local_ready
ready_notify s = do
  modify s (λ x. record x { ready = local_socket_ready; close = local_socket_close })
  x ← load s
  write_once x.fd (codes "OKAY")
  local_ready s

-- The first call sends the list of processes, the second closes the connection.
unfoldable pub jdwp_ready : ℕ → M (Unit {0})
jdwp_ready s = do
  x ← load s
  p ← deref x.peer
  elim x.flag [
    | false ↦ (do
      text ← gets (λ σ. σ.jdwp_text)
      _ ← call_enqueue p text
      modify s (λ z. record z { flag = true }))
    | true ↦ call_close p
  ]

unfoldable pub tracker_ready : ℕ → M (Unit {0})
tracker_ready s = do
  x ← load s
  elim x.flag [
    | false ↦ skip
    | true ↦ (do
      modify s (λ z. record z { flag = false })
      text ← gets (λ σ. σ.jdwp_text)
      p ← deref x.peer
      _ ← call_enqueue p (hex4 (length text) ++ text)
      skip)
  ]

-- `s->ready(s)`
unfoldable pub call_ready : ℕ → M (Unit {0})
unfolding local_ready remote_ready ready_notify jdwp_ready tracker_ready
call_ready s = do
  x ← load s
  elim x.ready [
    | local_socket_ready ↦ local_ready s
    | remote_socket_ready ↦ remote_ready s
    | smart_socket_ready ↦ skip
    | local_socket_ready_notify ↦ ready_notify s
    | jdwp_socket_ready ↦ jdwp_ready s
    | jdwp_tracker_ready ↦ tracker_ready s
  ]
