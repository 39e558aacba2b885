-- ===== src/Tests/Wire.antt =====
-- Packets, transfers, streams and transport selection on small inputs.
use stm32f429_adbd.Common.{
  ℕ, ◌≡◌, ◌↔◌, refl, true, false, none, some, List, [], ◌∷◌, ◌++◌, arith, set, map, codes,
}
use stm32f429_adbd.Packet.{Packet, check_header, check_data, a_wrte, byte_sum, add_bytes}
use stm32f429_adbd.Packet.Checksum.{check_data-set}
use stm32f429_adbd.Io.{ReadReply, got, read_failed, WriteReply, accepted, write_failed, eintr}
use stm32f429_adbd.Engine.{Transport, usb, any}
use stm32f429_adbd.Select.{qual_match, acquire_round, found}
use stm32f429_adbd.Select.Match.{qual_match_iff, sanitized}
use stm32f429_adbd.Select.Unique.{acquire_round-found_iff, candidates, InState}

-- WRTE with three bytes, as it arrives.
abbrev pub wrte : Packet
wrte = record {
  len = 0;
  msg = record {
    command = a_wrte;
    arg0 = 1;
    arg1 = 2;
    data_length = 3;
    data_check = 198;
    magic = 0xbaabada8;
  };
  payload = 65 ∷ 66 ∷ 67 ∷ [];
}

wrte_test : (check_header wrte ≡ true) × (check_data wrte ≡ true)
unfolding check_header check_data byte_sum add_bytes
wrte_test = (refl, refl)

check_data-set_example : check_data (record wrte { payload = set wrte.payload 1 90 }) ≡ false
unfolding check_data byte_sum add_bytes
check_data-set_example =
    check_data-set wrte 1 90 (omega arith) (omega arith, (omega arith, (omega arith, tt)))
      (omega arith) (omega arith) (omega arith) (λ e. omega (arith, e)) refl

abbrev reads : List ReadReply
reads = got (7 ∷ []) ∷ read_failed eintr ∷ got (8 ∷ 9 ∷ []) ∷ []

abbrev writes : List WriteReply
writes = accepted 1 ∷ write_failed eintr ∷ accepted 2 ∷ []

abbrev backlog : List (List ℕ)
backlog = (7 ∷ []) ∷ (8 ∷ 9 ∷ []) ∷ []

qual_match_iff_example :
    (qual_match (codes "x_1") (codes "x") (some (codes "-1")) true ≡ true)
    ↔ (codes "x" ++ map (sanitized true) (codes "-1") ≡ codes "x_1")
qual_match_iff_example = qual_match_iff 120 (codes "_1") (codes "x") (codes "-1") true

abbrev pub quiet_transport : Transport
quiet_transport = record {
  kind = usb;
  serial = some (codes "a1");
  devpath = none;
  online = false;
  connection_state = 1;
  product = none;
  model = none;
  device = none;
  token = [];
  failed_auth_attempts = 0;
  auth_pending = false;
  disconnects = [];
  sent = [];
}

acquire_round-found_iff_example :
    (acquire_round none any none ((4, quiet_transport) ∷ []) ≡ found 4) ↔ (
      (t : Transport) × (candidates any none ((4, quiet_transport) ∷ []) ≡ (4, t) ∷ [])
      × InState none t)
acquire_round-found_iff_example =
    acquire_round-found_iff none any none ((4, quiet_transport) ∷ []) 4
