-- ===== src/Flow/Stream.antt =====
-- What a local socket does with the bytes of its peer, and with a backlog that it has no peer for,
-- adbd/src/sockets.c.
use stm32f429_adbd.Common.{
  ◌⊎◌, inl, inr, ℕ, ◌≡◌, ◌≢◌, refl, sym, ap, ◌∙◌, true, some, List, [], ◌∷◌, ◌++◌, ◌==◌,
  if◌then◌else◌, arith, append-nil, append_assoc,
}
use stm32f429_adbd.Io.{WriteReply}
use stm32f429_adbd.Stream.{push, WriteEnd, drained, would_block, broken}
use stm32f429_adbd.Stream.Order.{pending, push-order}
use stm32f429_adbd.Engine.{Socket, State}
use stm32f429_adbd.Engine.Monad.{ok, update}
use stm32f429_adbd.Flow.{Verdict, ready_for_more, not_ready, append_packet, local_enqueue}

-- The bytes that were written to a descriptor, in order.
unfoldable pub output : ℕ → List (ℕ × List ℕ) → List ℕ
output fd [] = []
output fd ((d, bytes) ∷ log) = let rest = output fd log in if d == fd then bytes ++ rest else rest

output-append :
    (fd : ℕ) (log : List (ℕ × List ℕ)) (bytes : List ℕ)
    → output fd (log ++ ((fd, bytes) ∷ [])) ≡ output fd log ++ bytes
unfolding output
output-append fd [] bytes = ground (arith, append-nil bytes)
output-append fd ((d, xs) ∷ log) bytes =
    ground (arith, output-append fd log bytes, append_assoc xs (output fd log) bytes)

pending-append :
    (queue : List (List ℕ)) (bytes : List ℕ)
    → pending (queue ++ (bytes ∷ [])) ≡ pending queue ++ bytes
pending-append [] bytes = append-nil bytes
pending-append (p ∷ queue) bytes =
    ap (◌++◌ p) (pending-append queue bytes) ∙ sym (append_assoc p (pending queue) bytes)

output-split :
    (fd : ℕ) (log : List (ℕ × List ℕ)) (bytes left : List ℕ)
    → output fd (log ++ ((fd, bytes) ∷ [])) ++ left ≡ output fd log ++ (bytes ++ left)
output-split fd log bytes left =
    ap (λ out. out ++ left) (output-append fd log bytes) ∙ append_assoc (output fd log) bytes left

-- What a socket has been given so far: written, then waiting.
abbrev pub given : Socket → State → List ℕ
given x σ = output x.write_fd σ.written ++ pending x.queue

-- The call returned this verdict and state: the packet joined the end of what the socket was given.
abbrev pub Takes : ℕ → List ℕ → Socket → State → Verdict → Socket → State → Type 0
Takes s bytes x σ verdict y σ' =
    (local_enqueue s bytes σ ≡ ok verdict σ')
    × (σ'.heap s ≡ some y)
    × (given y σ' ≡ given x σ ++ bytes)
    × (((verdict ≡ ready_for_more) × (y.queue ≡ []))
        ⊎ ((verdict ≡ not_ready) × (y.queue ≢ []) × (y.want_write ≡ true)))

abbrev with_packet : List ℕ → Socket → Socket
with_packet bytes x = record x { queue = x.queue ++ (bytes ∷ []); want_write = true }

abbrev after_write : ℕ → List ℕ → List WriteReply → State → State
after_write fd bytes left σ = record σ {
  write_replies = left;
  written = σ.written ++ ((fd, bytes) ∷ []);
}

module _ (s : ℕ) (bytes : List ℕ) (x : Socket) (σ : State) (h : σ.heap s ≡ some x) where
  waiting :
      (p : List ℕ) (queue : List (List ℕ))
      → x.queue ≡ p ∷ queue
      → Takes s bytes x σ not_ready
          (with_packet bytes x)
          (record σ { heap = update σ.heap s (some (with_packet bytes x)) })
  unfolding local_enqueue append_packet
  waiting p queue e = (
    ground (arith, h, e),
    ground arith,
    ap (◌++◌ (output x.write_fd σ.written)) (pending-append x.queue bytes)
        ∙ sym (append_assoc (output x.write_fd σ.written) (pending x.queue) bytes),
    inr (refl, ground (arith, e), refl),
  )

  split_all :
      x.queue ≡ []
      → (push σ.write_replies bytes).end ≡ drained
      → output x.write_fd σ.written ++ ((push σ.write_replies bytes).written ++ pending x.queue)
        ≡ given x σ ++ bytes
  split_all e done =
      let (whole, iff) = push-order σ.write_replies bytes in
      rw (e, append-nil (output x.write_fd σ.written))
        (ap (◌++◌ (output x.write_fd σ.written)) (sym (whole ∙ rw (iff.0 done))))

  split_some :
      x.queue ≡ []
      → output x.write_fd σ.written
          ++ ((push σ.write_replies bytes).written
              ++ pending (x.queue ++ ((push σ.write_replies bytes).left ∷ [])))
        ≡ given x σ ++ bytes
  split_some e =
      let (whole, iff) = push-order σ.write_replies bytes in
      rw (e, append-nil (output x.write_fd σ.written), append-nil (push σ.write_replies bytes).left)
        (ap (◌++◌ (output x.write_fd σ.written)) (sym whole))

  all_written :
      x.queue ≡ []
      → (push σ.write_replies bytes).end ≡ drained
      → Takes s bytes x σ ready_for_more x (
          after_write x.write_fd
            (push σ.write_replies bytes).written
            (push σ.write_replies bytes).replies
            σ)
  unfolding local_enqueue append_packet
  all_written e done = (
    ground (arith, h, e, done),
    h,
    output-split x.write_fd σ.written (push σ.write_replies bytes).written (pending x.queue)
        ∙ split_all e done,
    inl (refl, e),
  )

  some_left :
      x.queue ≡ []
      → (push σ.write_replies bytes).end ≡ would_block
      → let r = push σ.write_replies bytes in
        let σ' = after_write x.write_fd r.written r.replies σ in
        Takes s bytes x σ not_ready
          (with_packet r.left x)
          (record σ' { heap = update σ.heap s (some (with_packet r.left x)) })
  unfolding local_enqueue append_packet
  some_left e full = (
    ground (arith, h, e, full),
    ground arith,
    output-split x.write_fd σ.written (push σ.write_replies bytes).written
          (pending (x.queue ++ ((push σ.write_replies bytes).left ∷ [])))
        ∙ split_some e,
    inr (refl, ground (arith, e), refl),
  )

-- Unless the descriptor breaks, `local_socket_enqueue` returns, and adds the packet to the end of
-- what the socket was given; either nothing waits and it is ready for more, or something does, and
-- it is not ready and asks for write events.
pub local_enqueue_lem :
    (s : ℕ) (bytes : List ℕ) (x : Socket) (σ : State)
    → σ.heap s ≡ some x
    → (push σ.write_replies bytes).end ≢ broken
    → (verdict : Verdict) × (y : Socket) × (σ' : State) × Takes s bytes x σ verdict y σ'
local_enqueue_lem s bytes x σ h whole = go x.queue refl (push σ.write_replies bytes).end refl
  where
    go :
        (queue : List (List ℕ))
        → x.queue ≡ queue
        → (end : WriteEnd) → (push σ.write_replies bytes).end ≡ end
        → (verdict : Verdict) × (y : Socket) × (σ' : State) × Takes s bytes x σ verdict y σ'
    go (p ∷ queue) e end e' = (_, _, _, waiting s bytes x σ h p queue e)
    go [] e drained e' = (_, _, _, all_written s bytes x σ h e e')
    go [] e would_block e' = (_, _, _, some_left s bytes x σ h e e')
    go [] e broken e' = absurd (whole e')
