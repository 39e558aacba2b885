-- ===== src/Tests/Remote.antt =====
-- A packet over a descriptor, in writes and reads of odd sizes.
use stm32f429_adbd.Common.{◌≡◌, refl, List, [], ◌∷◌, arith, take, drop}
use stm32f429_adbd.Common.Words.{word_bytes}
use stm32f429_adbd.Packet.{get_apacket, check_header, check_data, byte_sum, add_bytes}
use stm32f429_adbd.Io.{
  ReadReply, got, read_failed, eintr, WriteReply, accepted, write_failed, readx, writex,
}
use stm32f429_adbd.Io.Exact.{read_bytes}
use stm32f429_adbd.Remote.{message_bytes, payload_bytes, received, remote_read, remote_write}
use stm32f429_adbd.Remote.RoundTrip.{arrived, remote_read-write}
use stm32f429_adbd.Tests.Wire.{wrte}

abbrev write_replies : List WriteReply
write_replies = accepted 20 ∷ write_failed eintr ∷ accepted 7 ∷ []

-- The bytes of `wrte`, and one more.
abbrev arrivals : List ReadReply
arrivals =
    got (take 10 (message_bytes wrte.msg))
    ∷ got (drop 10 (message_bytes wrte.msg))
    ∷ read_failed eintr
    ∷ got (65 ∷ 66 ∷ [])
    ∷ got (67 ∷ [])
    ∷ got (99 ∷ [])
    ∷ []

remote_read-write_example :
    ((remote_read get_apacket arrivals).0 ≡ received (arrived wrte))
    × (read_bytes (remote_read get_apacket arrivals).1 ≡ 99 ∷ [])
unfolding check_header check_data byte_sum add_bytes message_bytes word_bytes payload_bytes
    remote_write writex readx
remote_read-write_example =
    remote_read-write wrte write_replies arrivals (99 ∷ [])
      (omega arith, omega arith, omega arith, omega arith, omega arith, omega arith) refl refl refl
      refl (omega arith, (omega arith, (refl, (omega arith, (omega arith, (omega arith, tt))))))
      (omega arith, (omega arith, tt)) (omega arith, (omega arith, tt))
