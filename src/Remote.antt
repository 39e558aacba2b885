-- ===== src/Remote.antt =====
-- `remote_read` and `remote_write` of adbd/src/transport_local.c: a packet as bytes on the
-- transport's descriptor. The target is little-endian, and in an apacket the array follows the
-- message with nothing between.
pub mod RoundTrip
use stm32f429_adbd.Common.{
  ℕ, ◌+◌, ◌*◌, ◌/◌, ◌%◌, List, [], ◌∷◌, ◌++◌, if◌then◌else◌, not, Bool, true, false, length, take,
  drop, get_or, replicate,
}
use stm32f429_adbd.Common.Words.{word_bytes, word_at}
use stm32f429_adbd.Packet.{Message, Packet, check_header, check_data}
use stm32f429_adbd.Io.{Transfer, complete, failed, waiting, ReadReply, WriteReply, readx, writex}

-- `sizeof(amessage)`
abbrev pub message_size : ℕ
message_size = 24

-- The amessage in memory.
unfoldable pub message_bytes : Message → List ℕ
message_bytes m =
    word_bytes m.command
    ++ word_bytes m.arg0
    ++ word_bytes m.arg1
    ++ word_bytes m.data_length
    ++ word_bytes m.data_check
    ++ word_bytes m.magic

unfoldable pub message_of : List ℕ → Message
message_of bytes = record {
  command = word_at bytes 0;
  arg0 = word_at bytes 4;
  arg1 = word_at bytes 8;
  data_length = word_at bytes 12;
  data_check = word_at bytes 16;
  magic = word_at bytes 20;
}

-- The first bytes of the array; those that nothing wrote read as 0.
unfoldable pub payload_bytes : ℕ → Packet → List ℕ
payload_bytes n p = take n (p.payload ++ replicate n 0)

-- What `remote_read` returns: 0 with the packet, -1, or nothing while a read waits.
pub data Received : Type 0 where
  received : Packet → Received
  read_error read_waits : Received

unfoldable pub remote_read : Packet → List ReadReply → Received × List ReadReply
remote_read p replies = read_message (readx replies message_size)
  where
    read_data : Packet → Transfer × List ℕ × List ReadReply → Received × List ReadReply
    read_data q (waiting, _, left) = (read_waits, left)
    read_data q (failed, _, left) = (read_error, left)
    read_data q (complete, bytes, left) =
        let r : Packet = record q { payload = bytes ++ drop (length bytes) q.payload } in
        (if not (check_data r) then read_error else received r, left)

    read_checked : Packet → List ReadReply → Received × List ReadReply
    read_checked q left =
        if not (check_header q) then (read_error, left) else read_data q (readx left q.data_length)

    read_message : Transfer × List ℕ × List ReadReply → Received × List ReadReply
    read_message (waiting, _, left) = (read_waits, left)
    read_message (failed, _, left) = (read_error, left)
    read_message (complete, bytes, left) = read_checked (record p { msg = message_of bytes }) left

-- One `writex` of the message and the array's beginning.
unfoldable pub remote_write : List WriteReply → Packet → Transfer × List ℕ × List WriteReply
remote_write replies p = writex replies (message_bytes p.msg ++ payload_bytes p.data_length p)
