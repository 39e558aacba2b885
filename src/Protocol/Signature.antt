-- ===== src/Protocol/Signature.antt =====
-- What the daemon does with a signature, `handle_packet` of adbd/src/adb.c.
use stm32f429_adbd.Common.{ℕ, true, false, ◌≡◌, refl, ◌∙◌, List, [], ◌∷◌, ◌++◌, arith, length, drop}
use stm32f429_adbd.Common.Words.{add32}
use stm32f429_adbd.Packet.{max_payload, a_version, stamp, Packet, a_cnxn, a_auth}
use stm32f429_adbd.Engine.{State}
use stm32f429_adbd.Engine.Monad.{ok, M, pure, ◌>>◌, set_transport, with_transport}
use stm32f429_adbd.Socket.{send_packet}
use stm32f429_adbd.Flow.{payload_packet}
use stm32f429_adbd.Service.{Env}
use stm32f429_adbd.Connection.{
  connect_data, handle_online, send_connect, token_size, adb_auth_verify, adb_auth_verified,
}
use stm32f429_adbd.Protocol.{handle_packet, handle_auth}
use stm32f429_adbd.Protocol.Auth.{IsSigned}

-- The packet that a verified signature leads to.
abbrev connect_packet : Env → Packet
connect_packet env =
    record (payload_packet a_cnxn a_version max_payload (connect_data env.banner)) { len = 0 }

abbrev verified : Env → ℕ → State → State
verified env t σ =
    with_transport t (λ tr. record tr { failed_auth_attempts = 0 })
      (with_transport t (λ tr. record tr { sent = tr.sent ++ (stamp (connect_packet env) ∷ []) })
        (with_transport t (λ tr. record tr { online = true }) σ))

auth_route :
    (env : Env) (p : Packet) (t : ℕ) (σ : State)
    → p.command ≡ a_auth
    → handle_packet env p t σ ≡ handle_auth env p t σ
unfolding handle_packet
auth_route env p t σ auth = ground (arith, auth)

verified_route :
    (env : Env) (p : Packet) (t : ℕ) (σ : State)
    → IsSigned env p t σ
    → handle_auth env p t σ
      ≡ (adb_auth_verified env t >> set_transport t (λ tr. record tr { failed_auth_attempts = 0 }))
          σ
unfolding handle_auth
verified_route env p t σ (signature, good) = ground (arith, signature, good)

verified-ok :
    (env : Env) (t : ℕ) (σ : State)
    → (adb_auth_verified env t >> set_transport t (λ tr. record tr { failed_auth_attempts = 0 })) σ
      ≡ ok tt (verified env t σ)
unfolding adb_auth_verified handle_online send_connect send_packet
verified-ok env t σ = refl

-- The state after a fresh token went out.
abbrev rejected : ℕ → List ℕ → List (List ℕ) → State → State
rejected t bytes rest σ =
    with_transport t
      (λ tr. record tr {
        sent = tr.sent ++ (stamp (record (payload_packet a_auth 1 0 bytes) { len = 0 }) ∷ []);
      })
      (with_transport t (λ tr. record tr { token = bytes ++ drop (length bytes) tr.token })
        (record (with_transport t
          (λ tr. record tr { failed_auth_attempts = add32 tr.failed_auth_attempts 1 }) σ) {
            random = rest;
          }))

-- A signature of the token that a stored key verifies brings the transport online, sends CNXN and
-- resets the count of failures; nothing else of the transport changes, and no socket does.
pub handle_packet-verified :
    (env : Env) (p : Packet) (t : ℕ) (σ : State)
    → p.command ≡ a_auth
    → IsSigned env p t σ
    → (σ' : State) × (handle_packet env p t σ ≡ ok tt σ')
      × (σ'.transports t ≡ record (σ.transports t) {
        online = true;
        failed_auth_attempts = 0;
        sent = (σ.transports t).sent ++ (stamp (connect_packet env) ∷ []);
      })
      × (σ'.heap ≡ σ.heap)
handle_packet-verified env p t σ auth signed = (
  verified env t σ,
  auth_route env p t σ auth ∙ verified_route env p t σ signed ∙ verified-ok env t σ,
  ground arith,
  refl,
)

-- The packets of a peer, one after the other.
abbrev pub handle_packets : Env → List Packet → ℕ → M (Unit {0})
handle_packets env [] t = pure tt
handle_packets env (p ∷ ps) t = handle_packet env p t >> handle_packets env ps t

-- Signatures, each of which no stored key verifies for the token that is current then; the tokens
-- that follow.
abbrev pub AreForged : Env → List Packet → List (List ℕ) → List ℕ → Type 0
AreForged env [] [] token = Unit {0}
AreForged env [] (bytes ∷ tokens) token = ⊥
AreForged env (p ∷ ps) [] token = ⊥
AreForged env (p ∷ ps) (bytes ∷ tokens) token =
    (p.command ≡ a_auth)
    × (p.arg0 ≡ 2)
    × (adb_auth_verify env token p.payload p.data_length ≡ false)
    × (length bytes ≡ token_size)
    × AreForged env ps tokens bytes

abbrev pub token_packets : List (List ℕ) → List Packet
token_packets [] = []
token_packets (bytes ∷ tokens) =
    stamp (record (payload_packet a_auth 1 0 bytes) { len = 0 }) ∷ token_packets tokens
