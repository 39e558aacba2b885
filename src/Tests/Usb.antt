-- ===== src/Tests/Usb.antt =====
-- A packet over USB, and the life of a handle.
use stm32f429_adbd.Common.{
  ◌≡◌, ◌+◌, ℕ, suc, refl, true, none, some, List, [], ◌∷◌, arith, take, drop, replicate,
}
use stm32f429_adbd.Common.Words.{word_bytes, word_at}
use stm32f429_adbd.Packet.{get_apacket, check_header, check_data, byte_sum, add_bytes}
use stm32f429_adbd.Io.{
  ReadReply, got, read_failed, waiting, failed, eintr, WriteReply, accepted, write_failed, readx,
}
use stm32f429_adbd.Io.Exact.{read_bytes}
use stm32f429_adbd.Remote.{message_bytes, message_of, payload_bytes, received, remote_read}
use stm32f429_adbd.Remote.RoundTrip.{arrived}
use stm32f429_adbd.Services.Accounts.{count}
use stm32f429_adbd.Usb.{
  functionfs, usb_remote_read, usb_remote_write, usb_write, usb_ffs_write, bulk_write, bulk_read,
}
use stm32f429_adbd.Usb.Bulk.{bulk_read-eof}
use stm32f429_adbd.Usb.RoundTrip.{usb_remote_read-remote_read, usb_remote_read-write}
use stm32f429_adbd.Usb.Endpoints.{
  UsbHandle, usb_ffs_init, usb_ffs_open, usb_ffs_kick, init_functionfs,
}
use stm32f429_adbd.Usb.Endpoints.Held.{ArePositive, one}
use stm32f429_adbd.Usb.Endpoints.Life.{Life, IsServed, made, opened, kicked, endpoints-Life}
use stm32f429_adbd.Tests.Wire.{wrte}

abbrev write_replies : List WriteReply
write_replies = accepted 20 ∷ write_failed eintr ∷ accepted 4 ∷ accepted 3 ∷ []

-- The bytes of `wrte`, and one more.
abbrev arrivals : List ReadReply
arrivals =
    got (take 10 (message_bytes wrte.msg))
    ∷ got (drop 10 (message_bytes wrte.msg))
    ∷ read_failed eintr
    ∷ got (65 ∷ 66 ∷ [])
    ∷ got (67 ∷ [])
    ∷ got (99 ∷ [])
    ∷ []

usb_remote_read-remote_read_example :
    usb_remote_read functionfs get_apacket arrivals ≡ remote_read get_apacket arrivals
unfolding message_bytes word_bytes message_of word_at readx
usb_remote_read-remote_read_example =
    usb_remote_read-remote_read get_apacket arrivals
      ((omega arith, (omega arith, tt)), (omega arith, (omega arith, tt))) (omega arith)
      ((omega arith, (omega arith, tt)), (omega arith, (omega arith, tt)))

usb_remote_read-write_example :
    ((usb_remote_read functionfs get_apacket arrivals).0 ≡ received (arrived wrte))
    × (read_bytes (usb_remote_read functionfs get_apacket arrivals).1 ≡ 99 ∷ [])
unfolding check_header check_data byte_sum add_bytes message_bytes word_bytes payload_bytes
    usb_remote_write usb_write usb_ffs_write bulk_write readx
usb_remote_read-write_example =
    usb_remote_read-write functionfs wrte write_replies arrivals (99 ∷ [])
      (omega arith, omega arith, omega arith, omega arith, omega arith, omega arith) refl refl refl
      refl (omega arith, (omega arith, (refl, (omega arith, (omega arith, (omega arith, tt))))))
      (omega arith, (omega arith, tt)) (omega arith, (omega arith, tt))

-- The first attempt fails at `bulk_in`, the second opens all three.
abbrev handle : UsbHandle
handle =
    usb_ffs_init (some 3 ∷ some 4 ∷ none ∷ some 3 ∷ some 4 ∷ some 5 ∷ [])
      (true ∷ true ∷ true ∷ true ∷ [])

abbrev after : UsbHandle
after = (usb_ffs_kick (usb_ffs_open 2 handle).1).1

handle-Life : Life 1 after
unfolding usb_ffs_init usb_ffs_open init_functionfs
handle-Life =
    kicked
      (opened 2
        (made (some 3 ∷ some 4 ∷ none ∷ some 3 ∷ some 4 ∷ some 5 ∷ [])
          (true ∷ true ∷ true ∷ true ∷ [])
          (omega arith, (omega arith, (omega arith, (omega arith, (omega arith, tt))))))
        refl refl)
      (λ e. ground (arith, e))

closed_test : after.closed ≡ 4 ∷ 3 ∷ 3 ∷ 4 ∷ 5 ∷ []
unfolding usb_ffs_init usb_ffs_open usb_ffs_kick init_functionfs
closed_test = refl

endpoints-Life_example :
    ((d : ℕ)
      → count (suc d) after.opened
        ≡ count (suc d) after.closed
          + one (suc d) after.control
          + one (suc d) after.bulk_out
          + one (suc d) after.bulk_in)
    × ArePositive after.opens
    × IsServed 1 after
endpoints-Life_example = endpoints-Life 1 after handle-Life

bulk_read-eof_example :
    (bulk_read (replicate 3 (got [])) 24 ≡ (waiting, [], []))
    × (readx (replicate 4 (got [])) 24 ≡ (failed, [], replicate 3 (got [])))
bulk_read-eof_example = bulk_read-eof 3 23
