-- ===== src/Remote/RoundTrip.antt =====
-- What one end writes with `remote_write` the other end reads with `remote_read`.
use stm32f429_adbd.Common.{
  ℕ, zero, suc, ◌^◌, ◌≤◌, ◌<◌, ◌≡◌, refl, sym, ap, ap₂, ◌∙◌, true, List, [], ◌∷◌, ◌++◌, arith,
  length, take, drop, replicate, length-append, length-take, length-replicate, append_assoc,
  append-nil,
}
use stm32f429_adbd.Common.Words.{word_bytes, word_at, word_lem}
use stm32f429_adbd.Packet.{
  Message, Packet, get_apacket, max_payload, check_header, check_data, byte_sum, add_bytes,
}
use stm32f429_adbd.Io.{
  complete, ReadReply, WriteReply, readx, got, read_failed, eintr, eagain, other_errno,
}
use stm32f429_adbd.Io.Exact.{
  IsHonestRead, IsReadSteady, read_bytes, readx_exact, readx-IsReadSteady, writex_prefix,
}
use stm32f429_adbd.Remote.{
  message_size, message_bytes, message_of, payload_bytes, received, remote_read, remote_write,
}

-- The header's fields are machine words.
abbrev pub IsWords : Message → Type 0
IsWords m =
    (m.command < 2 ^ 32)
    × (m.arg0 < 2 ^ 32)
    × (m.arg1 < 2 ^ 32)
    × (m.data_length < 2 ^ 32)
    × (m.data_check < 2 ^ 32)
    × (m.magic < 2 ^ 32)

pub message_of-bytes : (m : Message) → IsWords m → message_of (message_bytes m) ≡ m
unfolding message_of message_bytes word_bytes word_at
message_of-bytes m (a, b, c, d, e, f) =
    rw
      (
        word_lem m.command a,
        word_lem m.arg0 b,
        word_lem m.arg1 c,
        word_lem m.data_length d,
        word_lem m.data_check e,
        word_lem m.magic f,
      )
      refl

pub length-message_bytes : (m : Message) → length (message_bytes m) ≡ 24
unfolding message_bytes word_bytes
length-message_bytes m = refl

append_cancel :
    (xs ys us vs : List ℕ) → length xs ≡ length ys → xs ++ us ≡ ys ++ vs → (xs ≡ ys) × (us ≡ vs)
append_cancel [] [] us vs h e = (refl, e)
append_cancel [] (y ∷ ys) us vs h e = absurd (omega arith)
append_cancel (x ∷ xs) [] us vs h e = absurd (omega arith)
append_cancel (x ∷ xs) (y ∷ ys) us vs h e = ground (arith, h, e, append_cancel xs ys us vs)

pub IsReadSteady-readx :
    (replies : List ReadReply) (len : ℕ) → IsReadSteady replies → IsReadSteady (readx replies len).2
unfolding readx
IsReadSteady-readx replies zero steady = steady
IsReadSteady-readx [] (suc len) steady = tt
IsReadSteady-readx (got [] ∷ replies) (suc len) steady = steady.1
IsReadSteady-readx (got (b ∷ bs) ∷ replies) (suc len) steady = IsReadSteady-readx replies _ steady.1
IsReadSteady-readx (read_failed eintr ∷ replies) (suc len) steady =
    IsReadSteady-readx replies (suc len) steady.1
IsReadSteady-readx (read_failed eagain ∷ replies) (suc len) steady = steady.1
IsReadSteady-readx (read_failed other_errno ∷ replies) (suc len) steady = steady.1

-- A read of an exact length takes what the stream begins with.
pub readx-stream :
    (replies : List ReadReply) (len : ℕ) (xs rest : List ℕ)
    → len < 2 ^ 32
    → IsHonestRead replies len
    → IsReadSteady replies
    → length xs ≡ len
    → read_bytes replies ≡ xs ++ rest
    → (readx replies len ≡ (complete, xs, (readx replies len).2))
      × (read_bytes (readx replies len).2 ≡ rest)
readx-stream replies len xs rest h honest steady e stream =
    let (short, done, order) = readx_exact replies len h honest in
    let all =
      readx-IsReadSteady replies len h honest steady
        (omega (arith, ap length stream, length-append xs rest, e)) in
    let (same, left) =
      append_cancel (readx replies len).1 xs (read_bytes (readx replies len).2) rest
        (omega (arith, done.0 all, e)) (sym order ∙ stream) in
    (ap₂ (λ a b. (a, b, (readx replies len).2)) all same, left)

add_bytes-padded :
    (n k : ℕ) (x : List ℕ) (sum : ℕ)
    → n ≤ k
    → add_bytes n (take n (x ++ replicate k 0)) sum ≡ add_bytes n x sum
unfolding add_bytes
add_bytes-padded zero k x sum h = refl
add_bytes-padded (suc n) zero x sum h = absurd (omega arith)
add_bytes-padded (suc n) (suc k) [] sum h = add_bytes-padded n k [] _ (omega arith)
add_bytes-padded (suc n) (suc k) (b ∷ x) sum h = add_bytes-padded n (suc k) x _ (omega arith)

length-payload_bytes : (n : ℕ) (p : Packet) → length (payload_bytes n p) ≡ n
unfolding payload_bytes
length-payload_bytes n p = omega (
  arith,
  length-take n (p.payload ++ replicate n 0),
  length-append p.payload (replicate n 0),
  length-replicate {A = ℕ} n 0,
)

-- As the packet arrives: with no more of the array than the message tells of.
abbrev pub arrived : Packet → Packet
arrived p = record p { len = 0; payload = payload_bytes p.data_length p }

check_data-arrived : (p : Packet) → check_data (arrived p) ≡ check_data p
unfolding check_data byte_sum payload_bytes
check_data-arrived p =
    rw (add_bytes-padded p.data_length p.data_length p.payload 0 (omega arith)) refl

pub check_header-data_length : (p : Packet) → check_header p ≡ true → p.data_length ≤ max_payload
unfolding check_header
check_header-data_length p h = ground (arith, h)

check_header-payload :
    (p : Packet) (n : ℕ) (x : List ℕ)
    → check_header (record p { len = n; payload = x }) ≡ check_header p
unfolding check_header
check_header-payload p n x = refl

drop_nil : (n : ℕ) → drop {A = ℕ} n [] ≡ []
drop_nil zero = refl
drop_nil (suc n) = refl

remote_read-steps :
    (p : Packet) (replies left left' : List ReadReply)
    → IsWords p.msg
    → check_header p ≡ true
    → check_data p ≡ true
    → readx replies message_size ≡ (complete, message_bytes p.msg, left)
    → readx left p.data_length ≡ (complete, payload_bytes p.data_length p, left')
    → remote_read get_apacket replies ≡ (received (arrived p), left')
unfolding remote_read get_apacket
remote_read-steps p replies left left' words header sum first second =
    let header' : check_header (record { len = 0; msg = p.msg; payload = [] }) ≡ true =
      check_header-payload p 0 [] ∙ header in
    rw
      (
        first,
        message_of-bytes p.msg words,
        header',
        second,
        drop_nil (length (payload_bytes p.data_length p)),
        append-nil (payload_bytes p.data_length p),
        check_data-arrived p,
        sum,
      )
      refl

-- What a stream begins with is read as the packet whose bytes it is.
pub remote_read-bytes :
    (p : Packet) (replies : List ReadReply) (rest : List ℕ)
    → IsWords p.msg
    → check_header p ≡ true
    → check_data p ≡ true
    → read_bytes replies ≡ message_bytes p.msg ++ (payload_bytes p.data_length p ++ rest)
    → IsReadSteady replies
    → IsHonestRead replies message_size
    → IsHonestRead (readx replies message_size).2 p.data_length
    → let (result, left) = remote_read get_apacket replies in
      (result ≡ received (arrived p)) × (read_bytes left ≡ rest)
remote_read-bytes p replies rest words header sum bytes steady honest honest' =
    let payload = payload_bytes p.data_length p in
    let (first, then_) =
      readx-stream replies message_size (message_bytes p.msg) (payload ++ rest) (omega arith) honest
        steady (length-message_bytes p.msg) bytes in
    let (second, end) =
      readx-stream (readx replies message_size).2 p.data_length payload rest
        (omega (arith, check_header-data_length p header)) honest'
        (IsReadSteady-readx replies message_size steady) (length-payload_bytes p.data_length p)
        then_ in
    let all = remote_read-steps p replies _ _ words header sum first second in
    (ap (λ r. r.0) all, ap (λ r. read_bytes r.1) all ∙ end)

-- If `remote_write` of a packet that both checks accept, with 32-bit words in its header, returns
-- 0, and the bytes that it wrote are the next ones to arrive, in reads of any sizes with
-- interruptions between them, then `remote_read` into a new apacket returns 0 with the same
-- message and payload, and leaves the rest of the stream to the next call.
pub remote_read-write :
    (p : Packet) (writes : List WriteReply) (replies : List ReadReply) (rest : List ℕ)
    → IsWords p.msg
    → check_header p ≡ true
    → check_data p ≡ true
    → (remote_write writes p).0 ≡ complete
    → read_bytes replies ≡ (remote_write writes p).1 ++ rest
    → IsReadSteady replies
    → IsHonestRead replies message_size
    → IsHonestRead (readx replies message_size).2 p.data_length
    → let (result, left) = remote_read get_apacket replies in
      (result ≡ received (arrived p)) × (read_bytes left ≡ rest)
unfolding remote_write
remote_read-write p writes replies rest words header sum whole stream steady honest honest' =
    let payload = payload_bytes p.data_length p in
    let (unsent, split, done) = writex_prefix writes (message_bytes p.msg ++ payload) in
    let sent : message_bytes p.msg ++ payload ≡ (remote_write writes p).1 =
      split ∙ ap (◌++◌ (remote_write writes p).1) (done.0 whole) ∙ append-nil _ in
    let bytes : read_bytes replies ≡ message_bytes p.msg ++ (payload ++ rest) =
      stream ∙ ap (λ x. x ++ rest) (sym sent) ∙ append_assoc (message_bytes p.msg) payload rest in
    remote_read-bytes p replies rest words header sum bytes steady honest honest'
