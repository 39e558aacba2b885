-- ===== src/Usb.antt =====
-- Packets over USB: `remote_read` and `remote_write` of adbd/src/transport_usb.c, and the reads and
-- writes of adbd/src/usb_linux_client.c, on FunctionFS and on the older driver. The system's calls
-- are outside the sources: what successive ones return is an argument.
pub mod Bulk
pub mod RoundTrip
pub mod Endpoints
use stm32f429_adbd.Common.{
  ℕ, zero, suc, ◌+◌, ◌-◌, Bool, true, false, not, List, [], ◌∷◌, ◌++◌, if◌then◌else◌, leb, ◌==◌,
  length, take, drop,
}
use stm32f429_adbd.Io.{
  ReadReply, got, read_failed, WriteReply, accepted, write_failed, Errno, eintr, eagain,
  other_errno, Transfer, complete, failed, waiting,
}
use stm32f429_adbd.Packet.{Packet, check_header, check_data}
use stm32f429_adbd.Remote.{
  message_size, message_bytes, message_of, payload_bytes, Received, received, read_error,
  read_waits,
}

-- `bulk_read`: its end, the bytes stored, whose number is what it returns, and the replies that are
-- left. A call comes before the first test, and a call that returns 0 is repeated.
unfoldable pub bulk_read : List ReadReply → ℕ → Transfer × List ℕ × List ReadReply
bulk_read [] len = (waiting, [], [])
bulk_read (got bs ∷ replies) len =
    let (end, rest, left) = bulk_read replies (len - length bs) in
    if leb len (length bs) then (complete, bs, replies) else (end, bs ++ rest, left)
bulk_read (read_failed eintr ∷ replies) len = bulk_read replies len
bulk_read (read_failed _ ∷ replies) len = (failed, [], replies)

-- `usb_ffs_read`: 0 if exactly `len` bytes came.
unfoldable pub exactly : ℕ → Transfer × List ℕ × List ReadReply → Transfer × List ℕ × List ReadReply
exactly len (complete, bytes, left) =
    (if length bytes == len then complete else failed, bytes, left)
exactly len (failed, bytes, left) = (failed, bytes, left)
exactly len (waiting, bytes, left) = (waiting, bytes, left)

unfoldable pub usb_ffs_read : List ReadReply → ℕ → Transfer × List ℕ × List ReadReply
unfolding bulk_read exactly
usb_ffs_read replies len = exactly len (bulk_read replies len)

-- `bulk_write`: its end, the bytes taken from the buffer, the sum of what the calls returned, and
-- the replies that are left.
unfoldable pub bulk_write : List WriteReply → List ℕ → Transfer × List ℕ × ℕ × List WriteReply
bulk_write [] buf = (waiting, [], 0, [])
bulk_write (accepted r ∷ replies) buf =
    let (end, rest, count, left) = bulk_write replies (drop r buf) in
    if leb (length buf) r
    then (complete, take r buf, r, replies)
    else (end, take r buf ++ rest, r + count, left)
bulk_write (write_failed eintr ∷ replies) buf = bulk_write replies buf
bulk_write (write_failed _ ∷ replies) buf = (failed, [], 0, replies)

-- `usb_ffs_write`: 0 if the calls have returned the buffer's length in all.
unfoldable pub in_all :
    ℕ → Transfer × List ℕ × ℕ × List WriteReply → Transfer × List ℕ × List WriteReply
in_all len (complete, bytes, count, left) = (if count == len then complete else failed, bytes, left)
in_all len (failed, bytes, count, left) = (failed, bytes, left)
in_all len (waiting, bytes, count, left) = (waiting, bytes, left)

unfoldable pub usb_ffs_write : List WriteReply → List ℕ → Transfer × List ℕ × List WriteReply
unfolding bulk_write in_all
usb_ffs_write replies buf = in_all (length buf) (bulk_write replies buf)

-- The older driver: one call, which must do it all.
unfoldable pub usb_adb_read : List ReadReply → ℕ → Transfer × List ℕ × List ReadReply
usb_adb_read [] len = (waiting, [], [])
usb_adb_read (got bs ∷ replies) len = (if length bs == len then complete else failed, bs, replies)
usb_adb_read (read_failed _ ∷ replies) len = (failed, [], replies)

unfoldable pub usb_adb_write : List WriteReply → List ℕ → Transfer × List ℕ × List WriteReply
usb_adb_write [] buf = (waiting, [], [])
usb_adb_write (accepted r ∷ replies) buf =
    (if r == length buf then complete else failed, take r buf, replies)
usb_adb_write (write_failed _ ∷ replies) buf = (failed, [], replies)

-- The function pointers of a usb_handle, as `usb_init` chooses them.
pub data Driver : Type 0 where
  functionfs legacy : Driver

unfoldable pub usb_init : Bool → Driver
usb_init ep0_exists = if ep0_exists then functionfs else legacy

unfoldable pub usb_read : Driver → List ReadReply → ℕ → Transfer × List ℕ × List ReadReply
unfolding usb_ffs_read usb_adb_read
usb_read functionfs replies len = usb_ffs_read replies len
usb_read legacy replies len = usb_adb_read replies len

unfoldable pub usb_write : Driver → List WriteReply → List ℕ → Transfer × List ℕ × List WriteReply
unfolding usb_ffs_write usb_adb_write
usb_write functionfs replies buf = usb_ffs_write replies buf
usb_write legacy replies buf = usb_adb_write replies buf

-- `remote_read`, into an apacket.
unfoldable pub usb_remote_read : Driver → Packet → List ReadReply → Received × List ReadReply
unfolding usb_read
usb_remote_read driver p replies = read_message (usb_read driver replies message_size)
  where
    checked : Packet → List ReadReply → Received × List ReadReply
    checked q left = (if not (check_data q) then read_error else received q, left)

    read_data : Packet → Transfer × List ℕ × List ReadReply → Received × List ReadReply
    read_data q (waiting, _, left) = (read_waits, left)
    read_data q (failed, _, left) = (read_error, left)
    read_data q (complete, bytes, left) =
        checked (record q { payload = bytes ++ drop (length bytes) q.payload }) left

    read_checked : Packet → List ReadReply → Received × List ReadReply
    read_checked q left =
        if not (check_header q)
        then (read_error, left)
        else if q.data_length == 0
        then checked q left
        else read_data q (usb_read driver left q.data_length)

    read_message : Transfer × List ℕ × List ReadReply → Received × List ReadReply
    read_message (waiting, _, left) = (read_waits, left)
    read_message (failed, _, left) = (read_error, left)
    read_message (complete, bytes, left) = read_checked (record p { msg = message_of bytes }) left

-- `remote_write`: whether it returns 0, the bytes of the message and of the payload that were
-- taken, and the replies that are left.
unfoldable pub usb_remote_write :
    Driver → List WriteReply → Packet → Transfer × List ℕ × List ℕ × List WriteReply
unfolding usb_write
usb_remote_write driver replies p = write_data (usb_write driver replies (message_bytes p.msg))
  where
    after_data :
        List ℕ → Transfer × List ℕ × List WriteReply → Transfer × List ℕ × List ℕ × List WriteReply
    after_data message (end, bytes, left) = (end, message, bytes, left)

    write_data : Transfer × List ℕ × List WriteReply → Transfer × List ℕ × List ℕ × List WriteReply
    write_data (waiting, message, left) = (waiting, message, [], left)
    write_data (failed, message, left) = (failed, message, [], left)
    write_data (complete, message, left) =
        if p.data_length == 0
        then (complete, message, [], left)
        else after_data message (usb_write driver left (payload_bytes p.data_length p))
