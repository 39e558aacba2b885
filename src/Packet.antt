-- ===== src/Packet.antt =====
-- The packet of the protocol: `amessage` and `apacket` of adbd/include/adb.h, the command words,
-- and the header and checksum code of adbd/src/transport.c.
pub mod Checksum
use stm32f429_adbd.Common.{
  ℕ, zero, suc, ◌+◌, ◌-◌, Bool, true, false, ◌||◌, not, List, [], ◌∷◌, if◌then◌else◌, ltb, leb,
  ◌==◌, get_or, bit_xor,
}
use stm32f429_adbd.Common.Words.{add32}

abbrev pub max_payload : ℕ
max_payload = 4096

abbrev pub a_sync : ℕ
a_sync = 0x434e5953

abbrev pub a_cnxn : ℕ
a_cnxn = 0x4e584e43

abbrev pub a_open : ℕ
a_open = 0x4e45504f

abbrev pub a_okay : ℕ
a_okay = 0x59414b4f

abbrev pub a_clse : ℕ
a_clse = 0x45534c43

abbrev pub a_wrte : ℕ
a_wrte = 0x45545257

abbrev pub a_auth : ℕ
a_auth = 0x48545541

abbrev pub a_version : ℕ
a_version = 0x01000000

pub record Message : Type 0 where
  pub command : ℕ
  pub arg0 : ℕ
  pub arg1 : ℕ
  pub data_length : ℕ
  pub data_check : ℕ
  pub magic : ℕ

-- `payload` is the array `data`: the bytes that were written to it, from its start on. `len` is
-- the count of the bytes from `ptr` on.
pub record Packet : Type 0 where
  pub len : ℕ
  pub msg : Message
  pub open msg use *
  pub payload : List ℕ

-- `get_apacket`: all but the array is cleared.
unfoldable pub get_apacket : Packet
get_apacket = record { len = 0; msg = cleared; payload = [] }
  where
    cleared : Message
    cleared = record { command = 0; arg0 = 0; arg1 = 0; data_length = 0; data_check = 0; magic = 0 }

-- `while(count-- > 0) sum += *x++;`. A byte of the array that nothing wrote reads as 0 here.
unfoldable pub add_bytes : ℕ → List ℕ → ℕ → ℕ
add_bytes zero x sum = sum
add_bytes (suc count) [] sum = add_bytes count [] (add32 sum 0)
add_bytes (suc count) (b ∷ x) sum = add_bytes count x (add32 sum b)

unfoldable pub byte_sum : Packet → ℕ
byte_sum p = add_bytes p.data_length p.payload 0

-- The magic and the checksum that `send_packet` writes into the header.
unfoldable pub stamp : Packet → Packet
stamp p = record p {
  msg = record (p.msg) { magic = bit_xor p.command 0xffffffff; data_check = byte_sum p };
}

-- `check_header`: true for the return value 0.
unfoldable pub check_header : Packet → Bool
check_header p =
    if not (p.magic == bit_xor p.command 0xffffffff)
    then false
    else if ltb max_payload p.data_length
    then false
    else true

-- `check_data`: true for the return value 0.
unfoldable pub check_data : Packet → Bool
check_data p = if not (byte_sum p == p.data_check) then false else true
