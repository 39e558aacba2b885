-- ===== src/Stream.antt =====
-- The three transfer loops of a local socket, adbd/src/sockets.c: the write loop of
-- `local_socket_enqueue`, the drain loop and the fill loop of `local_socket_event_func`. A packet
-- on the chain `pkt_first` stands for the bytes `ptr[0 .. len)` that it still has to send.
-- Descriptors do not block: after the replies that are listed, a call returns EAGAIN.
pub mod Order
use stm32f429_adbd.Common.{
  ℕ, zero, suc, ◌+◌, ◌-◌, Bool, true, false, List, [], ◌∷◌, ◌++◌, length, take, drop,
}
use stm32f429_adbd.Io.{
  Errno, eintr, eagain, other_errno, ReadReply, got, read_failed, WriteReply, accepted,
  write_failed,
}

-- How a write loop ends: all written, the descriptor would block, or it is broken.
pub data WriteEnd : Type 0 where
  drained would_block broken : WriteEnd

pub record Pushed : Type 0 where
  pub end : WriteEnd
  pub written : List ℕ
  pub left : List ℕ
  pub replies : List WriteReply

-- `while(p->len > 0) { r = adb_write(...); ... }` of `local_socket_enqueue`, where an interrupted
-- call counts as an error.
unfoldable pub push : List WriteReply → List ℕ → Pushed
push replies [] = record { end = drained; written = []; left = []; replies = replies }
push [] (b ∷ bs) = record { end = would_block; written = []; left = b ∷ bs; replies = [] }
push (accepted zero ∷ replies) (b ∷ bs) = record {
  end = broken;
  written = [];
  left = b ∷ bs;
  replies = replies;
}
push (accepted (suc r) ∷ replies) (b ∷ bs) =
    let rest = push replies (drop (suc r) (b ∷ bs)) in
    record rest { written = take (suc r) (b ∷ bs) ++ rest.written }
push (write_failed eagain ∷ replies) (b ∷ bs) = record {
  end = would_block;
  written = [];
  left = b ∷ bs;
  replies = replies;
}
push (write_failed _ ∷ replies) (b ∷ bs) = record {
  end = broken;
  written = [];
  left = b ∷ bs;
  replies = replies;
}

pub record Drained : Type 0 where
  pub end : WriteEnd
  pub written : List ℕ
  pub queue : List (List ℕ)
  pub replies : List WriteReply

-- `while((p = s->pkt_first) != 0) { while(p->len > 0) ... }` of `local_socket_event_func`, where an
-- interrupted call is made again.
unfoldable pub drain : List WriteReply → List (List ℕ) → Drained
drain replies [] = record { end = drained; written = []; queue = []; replies = replies }
drain replies ([] ∷ queue) = drain replies queue
drain [] ((b ∷ bs) ∷ queue) = record {
  end = would_block;
  written = [];
  queue = (b ∷ bs) ∷ queue;
  replies = [];
}
drain (accepted zero ∷ replies) ((b ∷ bs) ∷ queue) = record {
  end = broken;
  written = [];
  queue = (b ∷ bs) ∷ queue;
  replies = replies;
}
drain (accepted (suc r) ∷ replies) ((b ∷ bs) ∷ queue) =
    let rest = drain replies (drop (suc r) (b ∷ bs) ∷ queue) in
    record rest { written = take (suc r) (b ∷ bs) ++ rest.written }
drain (write_failed eagain ∷ replies) ((b ∷ bs) ∷ queue) = record {
  end = would_block;
  written = [];
  queue = (b ∷ bs) ∷ queue;
  replies = replies;
}
drain (write_failed eintr ∷ replies) ((b ∷ bs) ∷ queue) = drain replies ((b ∷ bs) ∷ queue)
drain (write_failed other_errno ∷ replies) ((b ∷ bs) ∷ queue) = record {
  end = broken;
  written = [];
  queue = (b ∷ bs) ∷ queue;
  replies = replies;
}

-- `is_eof` and whether the last return value `r` was 0, with the bytes stored from `p->data` on.
pub record Filled : Type 0 where
  pub stored : List ℕ
  pub is_eof : Bool
  pub r_is_zero : Bool
  pub replies : List ReadReply

-- `while(avail > 0) { r = adb_read(fd, x, avail); ... }`. A reply longer than `avail` does not
-- occur.
unfoldable pub fill : List ReadReply → ℕ → Filled
fill replies zero = record { stored = []; is_eof = false; r_is_zero = false; replies = replies }
fill [] (suc avail) = record { stored = []; is_eof = false; r_is_zero = false; replies = [] }
fill (got [] ∷ replies) (suc avail) = record {
  stored = [];
  is_eof = true;
  r_is_zero = true;
  replies = replies;
}
fill (got (b ∷ bs) ∷ replies) (suc avail) =
    let rest = fill replies (suc avail - length (b ∷ bs)) in
    record rest { stored = (b ∷ bs) ++ rest.stored }
fill (read_failed eagain ∷ replies) (suc avail) = record {
  stored = [];
  is_eof = false;
  r_is_zero = false;
  replies = replies;
}
fill (read_failed eintr ∷ replies) (suc avail) = fill replies (suc avail)
fill (read_failed other_errno ∷ replies) (suc avail) = record {
  stored = [];
  is_eof = true;
  r_is_zero = false;
  replies = replies;
}
