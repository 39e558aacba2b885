-- ===== src/Orderly/Event.antt =====
-- `local_socket_event_func` of adbd/src/sockets.c keeps the ring of local sockets orderly.
use stm32f429_adbd.Common.{ℕ, Bool, true, false, refl, List, [], ◌∷◌}
use stm32f429_adbd.Io.{ReadReply}
use stm32f429_adbd.Packet.{max_payload}
use stm32f429_adbd.Stream.{WriteEnd, drained, would_block, broken, drain, fill, Filled}
use stm32f429_adbd.Engine.Monad.{◌>>=◌, ◌>>◌, load, modify, skip, deref}
use stm32f429_adbd.Socket.{call_close}
use stm32f429_adbd.Flow.{Verdict, closed_us, ready_for_more, not_ready, call_enqueue}
use stm32f429_adbd.Flow.Ready.{call_ready}
use stm32f429_adbd.Flow.Event.{
  write_event, close_at_eof, read_event, Events, local_socket_event_func,
}
use stm32f429_adbd.Orderly.{Tidy, ◌▷◌, Tidy-if, Tidy-option, Tidy-pure}
use stm32f429_adbd.Orderly.Basic.{load-Tidy, deref-Tidy, modify-Tidy}
use stm32f429_adbd.Orderly.Closing.{call_close-Tidy}
use stm32f429_adbd.Orderly.Delivery.{gets-Tidy, wrote-Tidy, call_enqueue-Tidy, call_ready-Tidy}

module _ (s p : ℕ) where
  write_event-Tidy : Tidy s (write_event p)
  unfolding write_event
  write_event-Tidy = load-Tidy s p ▷ λ x. gets-Tidy s (λ σ. drain σ.write_replies x.queue) ▷ λ r.
      wrote-Tidy s x.write_fd r.written r.replies ▷ λ _.
      modify-Tidy s p (λ y. record y { queue = r.queue }) (λ y. refl) (λ y h. h) ▷ λ _.
      by_end x.closing r.end
    where
      by_end :
          (closing : Bool) (end : WriteEnd)
          → Tidy s (elim end [
            | would_block ↦ skip
            | broken ↦ call_close p
            | drained ↦ elim closing [
              | true ↦ call_close p
              | false ↦ (do
                modify p (λ y. record y { want_write = false })
                y ← load p
                q ← deref y.peer
                call_ready q)
            ]
          ])
      by_end closing would_block = Tidy-pure tt
      by_end closing broken = call_close-Tidy s p
      by_end true drained = call_close-Tidy s p
      by_end false drained = modify-Tidy s p _ (λ x. refl) (λ x h. h) ▷ λ _.
          load-Tidy s p ▷ λ y. deref-Tidy s y.peer ▷ λ q. call_ready-Tidy s q

  eof-Tidy : (r_is_zero is_eof : Bool) → Tidy s (close_at_eof p r_is_zero is_eof)
  unfolding close_at_eof
  eof-Tidy r_is_zero is_eof = load-Tidy s p ▷ λ x. Tidy-if _ (call_close-Tidy s p) (Tidy-pure tt)

  read_event-Tidy : (replies : List ReadReply) → Tidy s (read_event p replies)
  unfolding read_event
  read_event-Tidy replies =
      load-Tidy s p ▷ λ x. Tidy-option x.peer (eof-Tidy _ _) λ q. by_stored q r.stored
    where
      by_verdict :
          (verdict : Verdict) (is_eof : Bool)
          → Tidy s (elim verdict [
            | closed_us ↦ skip
            | ready_for_more ↦ close_at_eof p true is_eof
            | not_ready ↦ (do
              modify p (λ y. record y { want_read = false })
              close_at_eof p false is_eof)
          ])
      by_verdict closed_us is_eof = Tidy-pure tt
      by_verdict ready_for_more is_eof = eof-Tidy true is_eof
      by_verdict not_ready is_eof =
          modify-Tidy s p _ (λ x. refl) (λ x h. h) ▷ λ _. eof-Tidy false is_eof

      r : Filled
      r = fill replies max_payload

      by_stored :
          (q : ℕ) (stored : List ℕ)
          → Tidy s (elim stored [
            | [] ↦ close_at_eof p r.r_is_zero r.is_eof
            | _ ∷ _ ↦ (do
              verdict ← call_enqueue q r.stored
              elim verdict [
                | closed_us ↦ skip
                | ready_for_more ↦ close_at_eof p true r.is_eof
                | not_ready ↦ (do
                  modify p (λ y. record y { want_read = false })
                  close_at_eof p false r.is_eof)
              ])
          ])
      by_stored q [] = eof-Tidy r.r_is_zero r.is_eof
      by_stored q (b ∷ stored) =
          call_enqueue-Tidy s q r.stored ▷ λ verdict. by_verdict verdict r.is_eof

  pub event-Tidy :
      (ev : Events) (replies : List ReadReply) → Tidy s (local_socket_event_func p ev replies)
  unfolding local_socket_event_func
  event-Tidy ev replies =
      Tidy-if ev.writable write_event-Tidy
        (Tidy-if ev.readable (read_event-Tidy replies) (Tidy-pure tt))
