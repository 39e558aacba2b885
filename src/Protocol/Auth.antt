-- ===== src/Protocol/Auth.antt =====
-- `handle_packet` of adbd/src/adb.c and the online flag of a transport, on a device that requires
-- authorization.
use stm32f429_adbd.Common.{ℕ, true, ◌≡◌}
use stm32f429_adbd.Packet.{Packet}
use stm32f429_adbd.Engine.{State}
use stm32f429_adbd.Service.{Env}
use stm32f429_adbd.Connection.{adb_auth_verify}

-- What a packet must be for `handle_auth` to trust the transport.
abbrev pub IsSigned : Env → Packet → ℕ → State → Type 0
IsSigned env p t σ =
    (p.arg0 ≡ 2) × (adb_auth_verify env (σ.transports t).token p.payload p.data_length ≡ true)
