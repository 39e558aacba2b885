-- ===== src/Packet/Checksum.antt =====
-- What the two checks of adbd/src/transport.c accept, and what the byte sum can tell apart.
use stm32f429_adbd.Common.{
  ℕ, zero, suc, ◌+◌, ◌*◌, ◌%◌, ◌^◌, ◌≤◌, ◌<◌, ◌≡◌, ◌≢◌, ◌↔◌, refl, true, false, List, [], ◌∷◌,
  arith, length, length-take, get_or, set, take,
}
use stm32f429_adbd.Common.Words.{AllBytes, add32}
use stm32f429_adbd.Packet.{
  Packet, max_payload, add_bytes, byte_sum, stamp, check_header, check_data,
}

-- The sum without a machine word.
unfoldable pub plain_sum : List ℕ → ℕ
plain_sum [] = 0
plain_sum (b ∷ x) = b + plain_sum x

add_bytes-plain :
    (count : ℕ) (x : List ℕ) (sum : ℕ)
    → sum < 2 ^ 32
    → add_bytes count x sum ≡ (sum + plain_sum (take count x)) % 2 ^ 32
unfolding add_bytes plain_sum
add_bytes-plain zero x sum h = omega arith
add_bytes-plain (suc count) [] sum h =
    omega (arith, add_bytes-plain count [] (add32 sum 0) (omega arith), plain-take count)
  where
    plain-take : (n : ℕ) → plain_sum (take n []) ≡ 0
    plain-take zero = refl
    plain-take (suc n) = refl
add_bytes-plain (suc count) (b ∷ x) sum h =
    omega (arith, add_bytes-plain count x (add32 sum b) (omega arith))

plain_sum-le : (x : List ℕ) → AllBytes x → plain_sum x ≤ 255 * length x
unfolding plain_sum
plain_sum-le [] h = omega arith
plain_sum-le (b ∷ x) h = omega (arith, plain_sum-le x h.1)

AllBytes-take : (n : ℕ) (x : List ℕ) → AllBytes x → AllBytes (take n x)
AllBytes-take zero x h = tt
AllBytes-take (suc n) [] h = tt
AllBytes-take (suc n) (b ∷ x) h = (h.0, AllBytes-take n x h.1)

-- No sum over a packet that `check_header` lets through wraps.
byte_sum_exact :
    (p : Packet)
    → p.data_length ≤ max_payload
    → AllBytes p.payload
    → byte_sum p ≡ plain_sum (take p.data_length p.payload)
unfolding byte_sum
byte_sum_exact p h bytes = omega (
  arith,
  add_bytes-plain p.data_length p.payload 0 (omega arith),
  plain_sum-le (take p.data_length p.payload) (AllBytes-take p.data_length p.payload bytes),
  length-take p.data_length p.payload,
)

plain_sum-set :
    (n : ℕ) (x : List ℕ) (i v : ℕ)
    → i < n
    → i < length x
    → plain_sum (take n (set x i v)) + get_or x i 0 ≡ plain_sum (take n x) + v
unfolding plain_sum
plain_sum-set n [] i v h k = absurd (omega arith)
plain_sum-set zero (b ∷ x) i v h k = absurd (omega arith)
plain_sum-set (suc n) (b ∷ x) zero v h k = omega arith
plain_sum-set (suc n) (b ∷ x) (suc i) v h k =
    omega (arith, plain_sum-set n x i v (omega arith) (omega arith))

AllBytes-set : (x : List ℕ) (i v : ℕ) → v < 256 → AllBytes x → AllBytes (set x i v)
AllBytes-set [] i v h a = tt
AllBytes-set (b ∷ x) zero v h a = (h, a.1)
AllBytes-set (b ∷ x) (suc i) v h a = (a.0, AllBytes-set x i v h a.1)

-- The header and checksum that `send_packet` writes pass both checks of the receiver, whatever the
-- packet held in those fields before, if the payload fits the array.
stamp-IsAccepted :
    (p : Packet)
    → p.data_length ≤ max_payload
    → (check_header (stamp p) ≡ true) × (check_data (stamp p) ≡ true)
unfolding stamp check_header check_data byte_sum
stamp-IsAccepted p h = ground arith

-- `check_data` on accepted bytes: it holds exactly if the checksum field is the plain sum of the
-- payload's bytes, with no reduction modulo 2^32.
check_data_iff :
    (p : Packet)
    → p.data_length ≤ max_payload
    → AllBytes p.payload
    → (check_data p ≡ true) ↔ (p.data_check ≡ plain_sum (take p.data_length p.payload))
unfolding check_data
check_data_iff p h bytes = ground (arith, byte_sum_exact p h bytes)

-- A packet that passes `check_data` no longer does when one byte of its payload is changed.
pub check_data-set :
    (p : Packet) (i v : ℕ)
    → p.data_length ≤ max_payload
    → AllBytes p.payload
    → i < p.data_length
    → i < length p.payload
    → v < 256
    → v ≢ get_or p.payload i 0
    → check_data p ≡ true
    → check_data (record p { payload = set p.payload i v }) ≡ false
unfolding check_data
check_data-set p i v h bytes hi hl hv ne accepted = ground (
  arith,
  byte_sum_exact p h bytes,
  byte_sum_exact (record p { payload = set p.payload i v }) h (AllBytes-set p.payload i v hv bytes),
  plain_sum-set p.data_length p.payload i v hi hl,
)
