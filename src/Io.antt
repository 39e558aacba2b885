-- ===== src/Io.antt =====
-- `readx` and `writex` of adbd/src/transport.c, and their copies `read_packet`, `write_packet`,
-- `transport_read_action` and `transport_write_action`: a transfer of an exact length over calls
-- that may return early. The system's `read` and `write` are outside the sources: what successive
-- calls return is an argument.
pub mod Exact
use stm32f429_adbd.Common.{
  ℕ, zero, suc, ◌+◌, ◌-◌, ◌≤◌, ◌<◌, Bool, true, false, List, [], ◌∷◌, ◌++◌, if◌then◌else◌, leb, ltb,
  ◌==◌, length, take, drop,
}
use stm32f429_adbd.Common.Words.{sub32}

-- What `errno` holds after a return value below 0.
pub data Errno : Type 0 where
  eintr eagain other_errno : Errno

-- The return of one `adb_read`: bytes (no byte is end of file), or an error.
pub data ReadReply : Type 0 where
  got : List ℕ → ReadReply
  read_failed : Errno → ReadReply

-- The return of one `adb_write`: the count accepted, or an error.
pub data WriteReply : Type 0 where
  accepted : ℕ → WriteReply
  write_failed : Errno → WriteReply

-- A transfer is complete (the return value 0), has failed (-1), or still waits in a call, where the
-- replies end.
pub data Transfer : Type 0 where
  complete failed waiting : Transfer

-- `readx`: its end, the bytes stored from `ptr` on, and the replies that are left.
unfoldable pub readx : List ReadReply → ℕ → Transfer × List ℕ × List ReadReply
readx replies zero = (complete, [], replies)
readx [] (suc len) = (waiting, [], [])
readx (got [] ∷ replies) (suc len) = (failed, [], replies)
readx (got (b ∷ bs) ∷ replies) (suc len) =
    let (end, rest, left) = readx replies (sub32 (suc len) (length (b ∷ bs))) in
    (end, (b ∷ bs) ++ rest, left)
readx (read_failed eintr ∷ replies) (suc len) = readx replies (suc len)
readx (read_failed _ ∷ replies) (suc len) = (failed, [], replies)

-- `writex`: its end, the bytes taken from `ptr`, and the replies that are left.
unfoldable pub writex : List WriteReply → List ℕ → Transfer × List ℕ × List WriteReply
writex replies [] = (complete, [], replies)
writex [] (b ∷ bs) = (waiting, [], [])
writex (accepted zero ∷ replies) (b ∷ bs) = (failed, [], replies)
writex (accepted (suc r) ∷ replies) (b ∷ bs) =
    let (end, rest, left) = writex replies (drop (suc r) (b ∷ bs)) in
    (end, take (suc r) (b ∷ bs) ++ rest, left)
writex (write_failed eintr ∷ replies) (b ∷ bs) = writex replies (b ∷ bs)
writex (write_failed _ ∷ replies) (b ∷ bs) = (failed, [], replies)
