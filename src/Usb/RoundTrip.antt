-- ===== src/Usb/RoundTrip.antt =====
-- `remote_read` of adbd/src/transport_usb.c beside that of adbd/src/transport_local.c, and what one
-- end writes over USB and the other reads.
use stm32f429_adbd.Common.{
  ℕ, zero, suc, ◌^◌, ◌<◌, ◌≡◌, ◌≢◌, refl, sym, ap, ap₂, ◌∙◌, true, List, [], ◌∷◌, ◌++◌, arith,
  Bool-cases, inl, inr, ◌==◌, ==_iff,
}
use stm32f429_adbd.Packet.{Packet, get_apacket, check_header, check_data}
use stm32f429_adbd.Io.{
  Transfer, complete, failed, waiting, ReadReply, WriteReply, got, read_failed, readx,
}
use stm32f429_adbd.Io.Exact.{IsHonestRead, IsReadSteady, read_bytes}
use stm32f429_adbd.Remote.{
  message_size, message_bytes, message_of, payload_bytes, received, remote_read,
}
use stm32f429_adbd.Remote.RoundTrip.{
  IsWords, arrived, message_of-bytes, remote_read-bytes, length-message_bytes, readx-stream,
  IsReadSteady-readx, check_header-data_length,
}
use stm32f429_adbd.Usb.{Driver, functionfs, usb_read, usb_write, usb_remote_read, usb_remote_write}
use stm32f429_adbd.Usb.Bulk.{NoEnd, usb_ffs_read-readx, usb_write-whole}

-- The reads are no longer than asked, and none returns 0 before the transfer is done.
abbrev pub AreWhole : List ReadReply → ℕ → Type 0
AreWhole replies len = IsHonestRead replies len × NoEnd replies len

-- The length that the header which arrives first tells.
abbrev pub told : List ReadReply → ℕ
told replies = (message_of (readx replies message_size).1).data_length

whole_read :
    (replies : List ReadReply) (n : ℕ)
    → n < 2 ^ 32
    → AreWhole replies n
    → n ≢ 0
    → usb_read functionfs replies n ≡ readx replies n
unfolding usb_read
whole_read replies zero small whole some_ = absurd (some_ refl)
whole_read replies (suc n) small (honest, more) some_ =
    usb_ffs_read-readx replies n small honest more

nothing_read :
    (replies : List ReadReply) (n : ℕ) → n ≡ 0 → readx replies n ≡ (complete, [], replies)
unfolding readx
nothing_read replies n e = rw e refl

-- Over FunctionFS `remote_read` does what it does over TCP, on every path, if the calls return no
-- more than they were asked for and never 0.
pub usb_remote_read-remote_read :
    (p : Packet) (replies : List ReadReply)
    → AreWhole replies message_size
    → told replies < 2 ^ 32
    → AreWhole (readx replies message_size).2 (told replies)
    → usb_remote_read functionfs p replies ≡ remote_read p replies
unfolding usb_remote_read remote_read
usb_remote_read-remote_read p replies whole small whole' =
    let first = whole_read replies message_size (omega arith) whole (λ e. omega (arith, e)) in
    rw first (elim (Bool-cases (told replies == 0)) [
      | inl none_ ↦
          let second =
            nothing_read (readx replies message_size).2 (told replies) ((==_iff _ _).0 none_) in
          ground (arith, none_, second)
      | inr more ↦
          let second =
            whole_read (readx replies message_size).2 (told replies) small whole'
              (λ e. ground (arith, more, e)) in
          ground (arith, more, second)
    ])

-- What `remote_write` has taken when it returns 0.
written :
    (driver : Driver) (writes : List WriteReply) (p : Packet)
    → (usb_remote_write driver writes p).0 ≡ complete
    → ((usb_remote_write driver writes p).1 ≡ message_bytes p.msg)
      × ((usb_remote_write driver writes p).2 ≡ payload_bytes p.data_length p)
unfolding usb_remote_write payload_bytes
written driver writes p h = by_message (usb_write driver writes (message_bytes p.msg)) refl
  where
    by_message :
        (r : Transfer × List ℕ × List WriteReply)
        → usb_write driver writes (message_bytes p.msg) ≡ r
        → ((usb_remote_write driver writes p).1 ≡ message_bytes p.msg)
          × ((usb_remote_write driver writes p).2 ≡ payload_bytes p.data_length p)
    by_message (failed, bytes, left) e = absurd (ground (arith, h, e))
    by_message (waiting, bytes, left) e = absurd (ground (arith, h, e))
    by_message (complete, bytes, left) e =
        let all : bytes ≡ message_bytes p.msg =
          ap (λ r. r.1) (sym e)
          ∙ usb_write-whole driver writes (message_bytes p.msg) (ap (λ r. r.0) e) in
        elim (Bool-cases (p.data_length == 0)) [
          | inl none_ ↦
              let empty : payload_bytes p.data_length p ≡ [] =
                ap (λ n. payload_bytes n p) ((==_iff _ _).0 none_) in
              (ground (arith, e, none_, all), ground (arith, e, none_, empty))
          | inr more ↦
              let rest =
                usb_write-whole driver left (payload_bytes p.data_length p)
                  (ground (arith, h, e, more)) in
              (ground (arith, e, more, all), ground (arith, e, more, rest))
        ]

steady-NoEnd : (replies : List ReadReply) (len : ℕ) → IsReadSteady replies → NoEnd replies len
steady-NoEnd replies zero steady = tt
steady-NoEnd [] (suc len) steady = tt
steady-NoEnd (got bs ∷ replies) (suc len) steady = (steady.0, steady-NoEnd replies _ steady.1)
steady-NoEnd (read_failed e ∷ replies) (suc len) steady = steady-NoEnd replies (suc len) steady.1

-- If `remote_write` over USB, with either driver, of a packet that both checks accept, with 32-bit
-- words in its header, returns 0, and the bytes that it wrote are the next ones to arrive, in reads
-- of any sizes with interruptions between them, then `remote_read` over FunctionFS into a new
-- apacket returns 0 with the same message and payload, and leaves the rest to the next call.
pub usb_remote_read-write :
    (driver : Driver) (p : Packet) (writes : List WriteReply) (replies : List ReadReply)
    (rest : List ℕ)
    → IsWords p.msg
    → check_header p ≡ true
    → check_data p ≡ true
    → (usb_remote_write driver writes p).0 ≡ complete
    → read_bytes replies
      ≡ (usb_remote_write driver writes p).1 ++ ((usb_remote_write driver writes p).2 ++ rest)
    → IsReadSteady replies
    → IsHonestRead replies message_size
    → IsHonestRead (readx replies message_size).2 p.data_length
    → let (result, left) = usb_remote_read functionfs get_apacket replies in
      (result ≡ received (arrived p)) × (read_bytes left ≡ rest)
usb_remote_read-write driver p writes replies rest words header sum done stream steady honest
      honest' =
    let (message, payload) = written driver writes p done in
    let bytes : read_bytes replies
        ≡ message_bytes p.msg ++ (payload_bytes p.data_length p ++ rest) =
      stream ∙ ap₂ (λ a b. a ++ (b ++ rest)) message payload in
    let (first, _) =
      readx-stream replies message_size (message_bytes p.msg) _ (omega arith) honest steady
        (length-message_bytes p.msg) bytes in
    let tells : told replies ≡ p.data_length =
      ap (λ r. (message_of r.1).data_length) first
      ∙ ap (λ m. m.data_length) (message_of-bytes p.msg words) in
    let same =
      usb_remote_read-remote_read get_apacket replies
        (honest, steady-NoEnd replies message_size steady)
        (omega (arith, tells, check_header-data_length p header))
        (rw tells (
          honest',
          steady-NoEnd _ p.data_length (IsReadSteady-readx replies message_size steady),
        )) in
    rw same (remote_read-bytes p replies rest words header sum bytes steady honest honest')
