-- ===== src/Stream/Order.antt =====
-- The order of the bytes in the transfer loops of adbd/src/sockets.c.
use stm32f429_adbd.Common.{
  ℕ, zero, suc, ◌-◌, ◌≤◌, ◌≡◌, ◌↔◌, refl, List, [], ◌∷◌, ◌++◌, arith, length, length-append, take,
  drop, take-append-drop, append_assoc, ap, ◌∙◌, sym,
}
use stm32f429_adbd.Io.{
  eintr, eagain, other_errno, ReadReply, got, read_failed, WriteReply, accepted, write_failed,
}
use stm32f429_adbd.Io.Exact.{read_bytes, IsHonestRead}
use stm32f429_adbd.Stream.{drained, push, drain, fill}

abbrev pub pending : List (List ℕ) → List ℕ
pending [] = []
pending (p ∷ queue) = p ++ pending queue

-- What the write loop of `local_socket_enqueue` has written and what it leaves make up the packet,
-- and it leaves nothing exactly if the whole packet was accepted.
pub push-order :
    (replies : List WriteReply) (bytes : List ℕ)
    → let r = push replies bytes in
      (bytes ≡ r.written ++ r.left) × ((r.end ≡ drained) ↔ (r.left ≡ []))
unfolding push
push-order replies [] = (refl, ground arith)
push-order [] (b ∷ bs) = (refl, ground arith)
push-order (accepted zero ∷ replies) (b ∷ bs) = (refl, ground arith)
push-order (accepted (suc r) ∷ replies) (b ∷ bs) =
    let (split, done) = push-order replies (drop r bs) in
    (
      sym (take-append-drop (suc r) (b ∷ bs))
          ∙ ap (◌++◌ (b ∷ take r bs)) split
          ∙ sym (append_assoc (b ∷ take r bs) _ _),
      done,
    )
push-order (write_failed eagain ∷ replies) (b ∷ bs) = (refl, ground arith)
push-order (write_failed eintr ∷ replies) (b ∷ bs) = (refl, ground arith)
push-order (write_failed other_errno ∷ replies) (b ∷ bs) = (refl, ground arith)

-- What the drain loop has written and what it leaves on the chain make up the bytes that were
-- pending, in order; it ends as drained exactly if the chain is empty.
pub drain-order :
    (replies : List WriteReply) (queue : List (List ℕ))
    → let r = drain replies queue in
      (pending queue ≡ r.written ++ pending r.queue) × ((r.end ≡ drained) ↔ (r.queue ≡ []))
unfolding drain
drain-order replies [] = (refl, ground arith)
drain-order replies ([] ∷ queue) = drain-order replies queue
drain-order [] ((b ∷ bs) ∷ queue) = (refl, ground arith)
drain-order (accepted zero ∷ replies) ((b ∷ bs) ∷ queue) = (refl, ground arith)
drain-order (accepted (suc r) ∷ replies) ((b ∷ bs) ∷ queue) =
    let (split, done) = drain-order replies (drop r bs ∷ queue) in
    (
      ap (λ t. t ++ pending queue) (sym (take-append-drop (suc r) (b ∷ bs)))
          ∙ append_assoc (b ∷ take r bs) (drop r bs) (pending queue)
          ∙ ap (◌++◌ (b ∷ take r bs)) split
          ∙ sym (append_assoc (b ∷ take r bs) _ _),
      done,
    )
drain-order (write_failed eagain ∷ replies) ((b ∷ bs) ∷ queue) = (refl, ground arith)
drain-order (write_failed eintr ∷ replies) ((b ∷ bs) ∷ queue) =
    drain-order replies ((b ∷ bs) ∷ queue)
drain-order (write_failed other_errno ∷ replies) ((b ∷ bs) ∷ queue) = (refl, ground arith)

-- The fill loop stores at most `avail` bytes, in the order in which they were read, if no call
-- returns more than it was asked for.
pub fill-order :
    (replies : List ReadReply) (avail : ℕ)
    → IsHonestRead replies avail
    → let r = fill replies avail in
      (read_bytes replies ≡ r.stored ++ read_bytes r.replies) × (length r.stored ≤ avail)
unfolding fill
fill-order replies zero honest = (refl, omega arith)
fill-order [] (suc avail) honest = (refl, omega arith)
fill-order (got [] ∷ replies) (suc avail) honest = (refl, omega arith)
fill-order (got (b ∷ bs) ∷ replies) (suc avail) honest =
    let (split, short) = fill-order replies (suc avail - length (b ∷ bs)) honest.1 in
    (
      ap (◌++◌ (b ∷ bs)) split ∙ sym (append_assoc (b ∷ bs) _ _),
      omega (
        arith,
        honest.0,
        length-append (b ∷ bs) (fill replies (suc avail - length (b ∷ bs))).stored,
      ),
    )
fill-order (read_failed eagain ∷ replies) (suc avail) honest = (refl, omega arith)
fill-order (read_failed eintr ∷ replies) (suc avail) honest = fill-order replies (suc avail) honest
fill-order (read_failed other_errno ∷ replies) (suc avail) honest = (refl, omega arith)
