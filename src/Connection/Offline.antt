-- ===== src/Connection/Offline.antt =====
-- The connection code of adbd/src/adb.c and the online flag of a transport.
use stm32f429_adbd.Common.{
  ℕ, Bool, true, false, ◌≡◌, refl, ◌∙◌, ap, Option, none, some, List, [], ◌∷◌, ◌++◌, arith, ◌==◌,
  if◌then◌else◌, length, drop,
}
use stm32f429_adbd.Packet.{a_auth}
use stm32f429_adbd.Engine.{State, Transport}
use stm32f429_adbd.Engine.Monad.{
  M, ok, ◌>>=◌, ◌>>◌, skip, load, modify, deref, set_transport, get_transport,
}
use stm32f429_adbd.Engine.Session.{
  KeepsSessions, >>=-KeepsSessions, >>=-eq-ok, load-KeepsSessions, modify-KeepsSessions,
  free-KeepsSessions, deref-KeepsSessions,
}
use stm32f429_adbd.Socket.{send_packet, call_close, remove_transport_disconnect}
use stm32f429_adbd.Socket.Session.{
  send_packet-KeepsSessions, remove_disconnect-KeepsSessions, call_close-KeepsSessions,
}
use stm32f429_adbd.Flow.{payload_packet}
use stm32f429_adbd.Service.{Env}
use stm32f429_adbd.Connection.{
  remote_socket_disconnect, run_disconnects, handle_offline, send_connect, send_auth_request,
  send_token, next_random, token_size,
}

disconnect_peer :
    (o : Option ℕ)
    → KeepsSessions (elim o [
      | none ↦ skip
      | some p ↦ (do modify p (λ y. record y { peer = none }); call_close p)
    ])
disconnect_peer none = λ σ a σ' h. ground arith
disconnect_peer (some p) =
    >>=-KeepsSessions (modify p _) _ (modify-KeepsSessions p _) λ _. call_close-KeepsSessions p

disconnect-KeepsSessions : (s : ℕ) → KeepsSessions (remote_socket_disconnect s)
unfolding remote_socket_disconnect
disconnect-KeepsSessions s = >>=-KeepsSessions (load s) _ (load-KeepsSessions s) λ x.
    >>=-KeepsSessions _ _ (disconnect_peer x.peer) λ _.
      >>=-KeepsSessions (deref x.transport) _ (deref-KeepsSessions x.transport) λ t.
        >>=-KeepsSessions (remove_transport_disconnect t s) _ (remove_disconnect-KeepsSessions t s)
          λ _. free-KeepsSessions s

pub run_disconnects-KeepsSessions : (ring : List ℕ) → KeepsSessions (run_disconnects ring)
unfolding run_disconnects
run_disconnects-KeepsSessions [] = λ σ a σ' h. ground arith
run_disconnects-KeepsSessions (s ∷ ring) =
    >>=-KeepsSessions (remote_socket_disconnect s) _ (disconnect-KeepsSessions s)
      λ _. run_disconnects-KeepsSessions ring

abbrev pub IsOffline : ℕ → State → Type 0
IsOffline t σ = (σ.transports t).online ≡ false

-- A program that leaves the transport offline.
abbrev pub KeepsOffline : {A : Type 0} → ℕ → M A → Type 0
KeepsOffline {A} t m =
    (σ : State) (a : A) (σ' : State) → m σ ≡ ok a σ' → IsOffline t σ → IsOffline t σ'

pub KeepsOffline-of : {A : Type 0} (t : ℕ) (m : M A) → KeepsSessions m → KeepsOffline t m
KeepsOffline-of t m k σ a σ' h off = ap (λ f. (f t).0) (k σ a σ' h) ∙ off

pub >>=-KeepsOffline :
    {A B : Type 0} (t : ℕ) (m : M A) (f : A → M B)
    → KeepsOffline t m
    → ((a : A) → KeepsOffline t (f a))
    → KeepsOffline t (m >>= f)
>>=-KeepsOffline t m f hm hf σ b σ'' h off =
    let (a, σ', first, rest) = >>=-eq-ok m f σ b σ'' h in hf a σ' b σ'' rest (hm σ a σ' first off)

pub set_transport-KeepsOffline :
    (t : ℕ) (f : Transport → Transport)
    → ((tr : Transport) → tr.online ≡ false → (f tr).online ≡ false)
    → KeepsOffline t (set_transport t f)
set_transport-KeepsOffline t f keep σ a σ' h off = ground (arith, keep (σ.transports t) off)

pub handle_offline-KeepsOffline : (t q : ℕ) → KeepsOffline t (handle_offline q)
unfolding handle_offline
handle_offline-KeepsOffline t q =
    >>=-KeepsOffline t (set_transport q (λ tr. record tr { online = false })) _ (switch_off t q)
      λ _.
        >>=-KeepsOffline t (get_transport q) _ (λ σ a σ' h off. ground arith)
          λ tr.
            KeepsOffline-of t (run_disconnects tr.disconnects)
              (run_disconnects-KeepsSessions tr.disconnects)
  where
    switch_off : (t q : ℕ) → KeepsOffline t (set_transport q (λ tr. record tr { online = false }))
    switch_off t q σ a σ' h off = ground arith

pub send_connect-KeepsSessions : (env : Env) (t : ℕ) → KeepsSessions (send_connect env t)
unfolding send_connect
send_connect-KeepsSessions env t = send_packet-KeepsSessions _ (some t)

send_token-KeepsOffline : (t : ℕ) (bytes : List ℕ) → KeepsOffline t (send_token t bytes)
unfolding send_token
send_token-KeepsOffline t bytes =
    >>=-KeepsOffline t _ _
      (set_transport-KeepsOffline t
        (λ tr. record tr { token = bytes ++ drop (length bytes) tr.token }) (λ tr off. off))
      λ _. send_if (length bytes == token_size)
  where
    send_if :
        (b : Bool)
        → KeepsOffline t (
            if b
            then send_packet (record (payload_packet a_auth 1 0 bytes) { len = 0 }) (some t)
            else skip)
    send_if true = KeepsOffline-of t _ (send_packet-KeepsSessions _ (some t))
    send_if false = λ σ a σ' h off. ground arith

pub auth_request-KeepsOffline : (t : ℕ) → KeepsOffline t (send_auth_request t)
unfolding send_auth_request
auth_request-KeepsOffline t =
    >>=-KeepsOffline t next_random _ (λ σ a σ' h off. ground arith) from_source
  where
    from_source :
        (source : Option (List ℕ))
        → KeepsOffline t (elim source [ none ↦ skip | some bytes ↦ send_token t bytes ])
    from_source none = λ σ a σ' h off. ground arith
    from_source (some bytes) = send_token-KeepsOffline t bytes

pub if-KeepsOffline :
    {A : Type 0} (t : ℕ) (b : Bool) (m n : M A)
    → (b ≡ true → KeepsOffline t m)
    → (b ≡ false → KeepsOffline t n)
    → KeepsOffline t (if b then m else n)
if-KeepsOffline t true m n hm hn = hm refl
if-KeepsOffline t false m n hm hn = hn refl

pub skip-KeepsOffline : (t : ℕ) → KeepsOffline t skip
skip-KeepsOffline t σ a σ' h off = ground arith
