-- ===== src/Flow/Event.antt =====
-- `local_socket_event_func` of adbd/src/sockets.c.
use stm32f429_adbd.Common.{
  ℕ, Bool, true, false, ◌&&◌, ◌||◌, none, some, List, [], ◌∷◌, if◌then◌else◌,
}
use stm32f429_adbd.Io.{ReadReply}
use stm32f429_adbd.Packet.{max_payload}
use stm32f429_adbd.Stream.{drained, would_block, broken, drain, fill}
use stm32f429_adbd.Engine.Monad.{M, ◌>>=◌, ◌>>◌, skip, gets, deref, load, modify}
use stm32f429_adbd.Socket.{call_close}
use stm32f429_adbd.Flow.{closed_us, ready_for_more, not_ready, call_enqueue, wrote}
use stm32f429_adbd.Flow.Ready.{call_ready}

-- The branch on FDE_WRITE.
unfoldable pub write_event : ℕ → M (Unit {0})
write_event s = do
  x ← load s
  r ← gets (λ σ. drain σ.write_replies x.queue)
  wrote x.write_fd r.written r.replies
  modify s (λ y. record y { queue = r.queue })
  elim r.end [
    | would_block ↦ skip
    | broken ↦ call_close s
    | drained ↦ elim x.closing [
      | true ↦ call_close s
      | false ↦ (do
        modify s (λ y. record y { want_write = false })
        y ← load s
        p ← deref y.peer
        call_ready p)
    ]
  ]

-- The last test of the branch on FDE_READ.
unfoldable pub close_at_eof : ℕ → Bool → Bool → M (Unit {0})
close_at_eof s r_is_zero is_eof = do
  x ← load s
  if (x.force_eof && r_is_zero) || is_eof then call_close s else skip

-- The branch on FDE_READ, over what the reads return.
unfoldable pub read_event : ℕ → List ReadReply → M (Unit {0})
unfolding close_at_eof
read_event s replies = do
  x ← load s
  let r = fill replies max_payload
  elim x.peer [
    | none ↦ close_at_eof s r.r_is_zero r.is_eof
    | some p ↦ elim r.stored [
      | [] ↦ close_at_eof s r.r_is_zero r.is_eof
      | _ ∷ _ ↦ (do
        verdict ← call_enqueue p r.stored
        elim verdict [
          | closed_us ↦ skip
          | ready_for_more ↦ close_at_eof s true r.is_eof
          | not_ready ↦ (do
            modify s (λ y. record y { want_read = false })
            close_at_eof s false r.is_eof)
        ])
    ]
  ]

-- The events that a call carries; FDE_ERROR alone changes nothing.
pub record Events : Type 0 where
  pub readable : Bool
  pub writable : Bool

unfoldable pub local_socket_event_func : ℕ → Events → List ReadReply → M (Unit {0})
unfolding write_event read_event
local_socket_event_func s ev replies =
    if ev.writable then write_event s else if ev.readable then read_event s replies else skip
