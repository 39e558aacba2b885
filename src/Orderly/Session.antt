-- ===== src/Orderly/Session.antt =====
-- The commands SYNC, CNXN and AUTH of adbd/src/adb.c, and the ring of local sockets of
-- adbd/src/sockets.c.
use stm32f429_adbd.Common.{
  ℕ, ◌-◌, ◌≡◌, refl, subst, Bool, true, false, not, ◌||◌, Option, none, some, List, [], ◌∷◌, ◌++◌,
  ◌==◌, if◌then◌else◌, arith, length, drop, get_or, leb, codes,
}
use stm32f429_adbd.Common.Words.{add32}
use stm32f429_adbd.Packet.{Packet, max_payload, a_auth}
use stm32f429_adbd.Engine.{State, Transport}
use stm32f429_adbd.Engine.Monad.{
  M, ok, ◌>>=◌, ◌>>◌, skip, set_transport, get_transport, gets, crash,
}
use stm32f429_adbd.Engine.Session.{>>=-eq-ok}
use stm32f429_adbd.Rings.{member}
use stm32f429_adbd.Select.{cs_offline}
use stm32f429_adbd.Banner.{parse_banner}
use stm32f429_adbd.Banner.Fields.{disconnects-parse_banner}
use stm32f429_adbd.Flow.{up_to_nul, payload_packet}
use stm32f429_adbd.Flow.Ready.{write_once}
use stm32f429_adbd.Socket.{send_packet}
use stm32f429_adbd.Service.{Env}
use stm32f429_adbd.Connection.{
  remote_socket_disconnect, run_disconnects, handle_online, handle_offline, send_connect,
  send_auth_request, send_token, next_random, token_size, adb_auth_verify, adb_auth_verified,
  adb_auth_confirm_key, is_refused,
}
use stm32f429_adbd.Protocol.{handle_sync, handle_cnxn, handle_auth}
use stm32f429_adbd.Orderly.{IsOrderly, Tidy, ◌▷◌, Tidy-option, Tidy-pure}
use stm32f429_adbd.Orderly.Basic.{
  IsAside-Tidy, load-Tidy, deref-Tidy, modify-Tidy, free-Tidy, set_transport-Tidy,
}
use stm32f429_adbd.Orderly.Closing.{send_packet-Tidy, remove_disconnect-Tidy, call_close-Tidy}
use stm32f429_adbd.Orderly.Delivery.{gets-Tidy, write_once-Tidy}
use stm32f429_adbd.Orderly.Arrival.{KeepsOrderly, ◌▶◌, Tidy-KeepsOrderly, pure-KeepsOrderly}

-- The callback frees its remote socket, which must not be on the ring.
disconnect-Tidy : (s : ℕ) → Tidy s (remote_socket_disconnect s)
unfolding remote_socket_disconnect
disconnect-Tidy s = load-Tidy s s ▷ λ x.
    Tidy-option x.peer (Tidy-pure tt)
      (λ p. modify-Tidy s p _ (λ y. refl) (λ y h. h) ▷ λ _. call_close-Tidy s p)
    ▷ λ _. deref-Tidy s x.transport ▷ λ t. remove_disconnect-Tidy s t s ▷ λ _. free-Tidy s

run_disconnects-IsOrderly :
    (linked : List ℕ) (σ : State) (a : Unit {0}) (σ' : State)
    → run_disconnects linked σ ≡ ok a σ'
    → ((q : ℕ) → member q linked ≡ true → member q σ.locals ≡ false)
    → IsOrderly σ
    → IsOrderly σ'
unfolding run_disconnects member
run_disconnects-IsOrderly [] σ a σ' h off o = pure-KeepsOrderly tt σ a σ' h o
run_disconnects-IsOrderly (s ∷ linked) σ a σ' h off o =
    let (b, τ, first, rest) =
      >>=-eq-ok (remote_socket_disconnect s) (λ _. run_disconnects linked) σ a σ' h in
    run_disconnects-IsOrderly linked τ a σ' rest
      (λ q on. (disconnect-Tidy s).shrinks σ b τ first q (off q (ground (arith, on))))
      ((disconnect-Tidy s).keeps σ b τ first o (off s (ground arith)))

pub transport-KeepsOrderly :
    (t : ℕ) (f : Transport → Transport)
    → ((tr : Transport) → (f tr).disconnects ≡ tr.disconnects)
    → KeepsOrderly (set_transport t f)
transport-KeepsOrderly t f same =
    Tidy-KeepsOrderly (set_transport t f)
      λ s. set_transport-Tidy s t f (λ tr q on. subst (λ l. member q l ≡ true) (same tr) on)

pub get_transport-KeepsOrderly : (t : ℕ) → KeepsOrderly (get_transport t)
get_transport-KeepsOrderly t σ a σ' h o = let same : σ' ≡ σ = ground (arith, h) in rw same o

offline-KeepsOrderly : (t : ℕ) → KeepsOrderly (handle_offline t)
unfolding handle_offline
offline-KeepsOrderly t =
    transport-KeepsOrderly t (λ tr. record tr { online = false }) (λ tr. refl) ▶ λ _ σ a σ' h o.
    run_disconnects-IsOrderly (σ.transports t).disconnects σ a σ' h (o.linked_off t) o

pub send-KeepsOrderly : (p : Packet) (t : ℕ) → KeepsOrderly (send_packet p (some t))
send-KeepsOrderly p t =
    Tidy-KeepsOrderly (send_packet p (some t)) λ s. send_packet-Tidy s p (some t)

send_connect-KeepsOrderly : (env : Env) (t : ℕ) → KeepsOrderly (send_connect env t)
unfolding send_connect
send_connect-KeepsOrderly env t = send-KeepsOrderly _ t

pub skip-KeepsOrderly : KeepsOrderly skip
skip-KeepsOrderly = pure-KeepsOrderly tt

pub if-KeepsOrderly :
    {A : Type 0} (c : Bool) {m n : M A}
    → KeepsOrderly m
    → KeepsOrderly n
    → KeepsOrderly (if c then m else n)
if-KeepsOrderly true hm hn = hm
if-KeepsOrderly false hm hn = hn

online-KeepsOrderly : (t : ℕ) → KeepsOrderly (handle_online t)
unfolding handle_online
online-KeepsOrderly t = transport-KeepsOrderly t (λ tr. record tr { online = true }) (λ tr. refl)

pub sync-KeepsOrderly : (env : Env) (p : Packet) (t : ℕ) → KeepsOrderly (handle_sync env p t)
unfolding handle_sync
sync-KeepsOrderly env p t =
    if-KeepsOrderly (p.arg0 == 0)
      (transport-KeepsOrderly t (λ tr. record tr { connection_state = cs_offline }) (λ tr. refl)
        ▶ λ _. offline-KeepsOrderly t ▶ λ _. send-KeepsOrderly p t)
      (send-KeepsOrderly p t ▶ λ _.
        if-KeepsOrderly env.host (send_connect-KeepsOrderly env t) skip-KeepsOrderly)

auth_request-KeepsOrderly : (t : ℕ) → KeepsOrderly (send_auth_request t)
unfolding send_auth_request send_token
auth_request-KeepsOrderly t =
    Tidy-KeepsOrderly next_random (λ s. IsAside-Tidy s next_random λ σ a σ' h. ground arith)
    ▶ by_source
  where
    by_source :
        (source : Option (List ℕ))
        → KeepsOrderly (elim source [ none ↦ skip | some bytes ↦ send_token t bytes ])
    by_source none = skip-KeepsOrderly
    by_source (some bytes) =
        transport-KeepsOrderly t (λ tr. record tr { token = bytes ++ drop (length bytes) tr.token })
          (λ tr. refl)
        ▶ λ _.
            if-KeepsOrderly (length bytes == token_size)
              (send-KeepsOrderly (record (payload_packet a_auth 1 0 bytes) { len = 0 }) t)
              skip-KeepsOrderly

confirm_key-KeepsOrderly :
    (key : List ℕ) (len t : ℕ) → KeepsOrderly (adb_auth_confirm_key key len t)
unfolding adb_auth_confirm_key
confirm_key-KeepsOrderly key len t =
    Tidy-KeepsOrderly (gets (λ σ. σ.framework_fd)) (λ s. gets-Tidy s (λ σ. σ.framework_fd))
    ▶ by_framework
  where
    by_framework :
        (framework : Option ℕ)
        → KeepsOrderly (elim framework [
          | none ↦ skip
          | some fd ↦
              if len == 0
              then (λ σ. crash)
              else if not (get_or key (len - 1) 0 == 0)
              then skip
              else if leb max_payload (length (codes "PK" ++ up_to_nul key))
              then skip
              else (do
                refused ← gets (λ σ. is_refused σ.write_replies)
                write_once fd (codes "PK" ++ up_to_nul key)
                if refused then skip else set_transport t (λ tr. record tr { auth_pending = true }))
        ])
    by_framework none = skip-KeepsOrderly
    by_framework (some fd) =
        if-KeepsOrderly (len == 0) (λ σ a σ' h o. absurd (ground (arith, h)))
          (if-KeepsOrderly (not (get_or key (len - 1) 0 == 0)) skip-KeepsOrderly (
            if-KeepsOrderly (leb max_payload (length (codes "PK" ++ up_to_nul key)))
              skip-KeepsOrderly
              (Tidy-KeepsOrderly (gets _) (λ s. gets-Tidy s (λ σ. is_refused σ.write_replies))
                ▶ λ refused.
                    Tidy-KeepsOrderly _ (λ s. write_once-Tidy s fd (codes "PK" ++ up_to_nul key))
                    ▶ λ _. if-KeepsOrderly refused skip-KeepsOrderly (
                        transport-KeepsOrderly t (λ tr. record tr { auth_pending = true })
                          (λ tr. refl)))))

pub auth-KeepsOrderly : (env : Env) (p : Packet) (t : ℕ) → KeepsOrderly (handle_auth env p t)
unfolding handle_auth adb_auth_verified
auth-KeepsOrderly env p t = if-KeepsOrderly (p.arg0 == 1) skip-KeepsOrderly (
    if-KeepsOrderly (p.arg0 == 2)
      (get_transport-KeepsOrderly t ▶ λ tr.
        if-KeepsOrderly (adb_auth_verify env tr.token p.payload p.data_length)
          ((online-KeepsOrderly t ▶ λ _. send_connect-KeepsOrderly env t) ▶ λ _.
            transport-KeepsOrderly t (λ tr. record tr { failed_auth_attempts = 0 }) (λ tr. refl))
          (transport-KeepsOrderly t
              (λ tr. record tr { failed_auth_attempts = add32 tr.failed_auth_attempts 1 })
              (λ tr. refl)
            ▶ λ _. auth_request-KeepsOrderly t))
      (if-KeepsOrderly (p.arg0 == 3) (confirm_key-KeepsOrderly p.payload p.data_length t)
        skip-KeepsOrderly))

pub cnxn-KeepsOrderly : (env : Env) (p : Packet) (t : ℕ) → KeepsOrderly (handle_cnxn env p t)
unfolding handle_cnxn
cnxn-KeepsOrderly env p t = get_transport-KeepsOrderly t ▶ λ tr.
    if-KeepsOrderly (tr.connection_state == cs_offline) skip-KeepsOrderly (
      transport-KeepsOrderly t (λ tr. record tr { connection_state = cs_offline }) (λ tr. refl)
      ▶ λ _. offline-KeepsOrderly t)
    ▶ λ _.
        transport-KeepsOrderly t (parse_banner (up_to_nul p.payload))
          (disconnects-parse_banner (up_to_nul p.payload))
        ▶ λ _.
            if-KeepsOrderly (env.host || not env.auth_enabled)
              (online-KeepsOrderly t ▶ λ _.
                if-KeepsOrderly (not env.host) (send_connect-KeepsOrderly env t) skip-KeepsOrderly)
              (auth_request-KeepsOrderly t)
