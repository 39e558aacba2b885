-- ===== src/Orderly/Packets.antt =====
-- `handle_packet` of adbd/src/adb.c, and the ring of local sockets of adbd/src/sockets.c.
use stm32f429_adbd.Common.{
  ℕ, ◌≡◌, refl, sym, subst, Bool, true, false, Option, none, some, List, [], ◌∷◌, ◌==◌,
  if◌then◌else◌, arith, Bool-cases, inl, inr, take,
}
use stm32f429_adbd.Packet.{Packet, a_sync, a_cnxn, a_open, a_okay, a_clse, a_wrte, a_auth}
use stm32f429_adbd.Engine.{Socket}
use stm32f429_adbd.Engine.Monad.{M, ◌>>=◌, ◌>>◌, load, modify, skip, lock, unlock}
use stm32f429_adbd.Rings.{find_local_socket, find_from}
use stm32f429_adbd.Flow.{Verdict, closed_us, ready_for_more, not_ready, call_enqueue}
use stm32f429_adbd.Flow.Ready.{call_ready}
use stm32f429_adbd.Socket.{send_packet, control, call_close}
use stm32f429_adbd.Service.{Env, create_remote_socket}
use stm32f429_adbd.Protocol.{
  open_name, when_online, handle_packet, handle_open, handle_okay, handle_clse, handle_wrte,
}
use stm32f429_adbd.Orderly.{is_local}
use stm32f429_adbd.Orderly.Basic.{load-Tidy, lock-Tidy, modify-Tidy}
use stm32f429_adbd.Orderly.Closing.{unlock-Tidy, call_close-Tidy}
use stm32f429_adbd.Orderly.Delivery.{gets-Tidy, call_enqueue-Tidy, call_ready-Tidy}
use stm32f429_adbd.Orderly.Arrival.{
  KeepsOrderly, ◌▶◌, Tidy-KeepsOrderly, pure-KeepsOrderly, MayInstall, MayInstall-bind,
  service-MayInstall, create_remote-KeepsOrderly,
}
use stm32f429_adbd.Orderly.Session.{
  send-KeepsOrderly, skip-KeepsOrderly, if-KeepsOrderly, sync-KeepsOrderly, cnxn-KeepsOrderly,
  auth-KeepsOrderly,
}

modify-KeepsOrderly :
    (p : ℕ) (f : Socket → Socket)
    → ((x : Socket) → (f x).id ≡ x.id)
    → ((x : Socket) → (f x).close ≡ x.close)
    → KeepsOrderly (modify p f)
modify-KeepsOrderly p f same kind =
    Tidy-KeepsOrderly (modify p f)
      λ s. modify-Tidy s p f same (λ x h. subst (λ c. is_local c ≡ true) (sym (kind x)) h)

load-KeepsOrderly : (p : ℕ) → KeepsOrderly (load p)
load-KeepsOrderly p = Tidy-KeepsOrderly (load p) λ s. load-Tidy s p

ready-KeepsOrderly : (p : ℕ) → KeepsOrderly (call_ready p)
ready-KeepsOrderly p = Tidy-KeepsOrderly (call_ready p) λ s. call_ready-Tidy s p

open-MayInstall : (env : Env) (p : Packet) (t : ℕ) → MayInstall (handle_open env p t)
unfolding handle_open
open-MayInstall env p t = MayInstall-bind (service-MayInstall env (open_name p)) by_made
  where
    by_made :
        (o : Option ℕ)
        → KeepsOrderly (elim o [
          | none ↦ send_packet (control a_clse 0 p.arg0) (some t)
          | some s ↦ (do
            r ← create_remote_socket p.arg0 t
            modify s (λ x. record x { peer = some r })
            modify r (λ y. record y { peer = some s })
            x ← load s
            y ← load r
            send_packet (control a_okay x.id y.id) (some t)
            call_ready s)
        ])
    by_made none = send-KeepsOrderly (control a_clse 0 p.arg0) t
    by_made (some s) = create_remote-KeepsOrderly p.arg0 t ▶ λ r.
        modify-KeepsOrderly s (λ x. record x { peer = some r }) (λ x. refl) (λ x. refl) ▶ λ _.
        modify-KeepsOrderly r (λ y. record y { peer = some s }) (λ x. refl) (λ x. refl) ▶ λ _.
        load-KeepsOrderly s ▶ λ x. load-KeepsOrderly r ▶ λ y.
        send-KeepsOrderly (control a_okay x.id y.id) t ▶ λ _. ready-KeepsOrderly s

find_from-KeepsOrderly : (id : ℕ) (ring : List ℕ) → KeepsOrderly (find_from id ring)
unfolding find_from
find_from-KeepsOrderly id [] = pure-KeepsOrderly none
find_from-KeepsOrderly id (x ∷ ring) = load-KeepsOrderly x ▶ λ y.
    if-KeepsOrderly (y.id == id) (pure-KeepsOrderly (some x)) (find_from-KeepsOrderly id ring)

find-KeepsOrderly : (id : ℕ) → KeepsOrderly (find_local_socket id)
unfolding find_local_socket
find-KeepsOrderly id = Tidy-KeepsOrderly lock lock-Tidy ▶ λ _.
    Tidy-KeepsOrderly _ (λ s. gets-Tidy s (λ σ. σ.locals)) ▶ λ ring.
    find_from-KeepsOrderly id ring ▶ λ found.
    Tidy-KeepsOrderly unlock unlock-Tidy ▶ λ _. pure-KeepsOrderly found

okay-KeepsOrderly : (p : Packet) (t : ℕ) → KeepsOrderly (handle_okay p t)
unfolding handle_okay
okay-KeepsOrderly p t = find-KeepsOrderly p.arg1 ▶ by_hit
  where
    by_peer :
        (s : ℕ) (peer : Option ℕ)
        → KeepsOrderly (elim peer [
          | some _ ↦ skip
          | none ↦ (do
            r ← create_remote_socket p.arg0 t
            modify s (λ x. record x { peer = some r })
            modify r (λ y. record y { peer = some s }))
        ])
    by_peer s (some _) = skip-KeepsOrderly
    by_peer s none = create_remote-KeepsOrderly p.arg0 t ▶ λ r.
        modify-KeepsOrderly s (λ x. record x { peer = some r }) (λ x. refl) (λ x. refl) ▶ λ _.
        modify-KeepsOrderly r (λ y. record y { peer = some s }) (λ x. refl) (λ x. refl)

    by_hit :
        (hit : Option ℕ)
        → KeepsOrderly (elim hit [
          | none ↦ skip
          | some s ↦ (do
            x ← load s
            elim x.peer [
              | some _ ↦ skip
              | none ↦ (do
                r ← create_remote_socket p.arg0 t
                modify s (λ x. record x { peer = some r })
                modify r (λ y. record y { peer = some s }))
            ]
            call_ready s)
        ])
    by_hit none = skip-KeepsOrderly
    by_hit (some s) = load-KeepsOrderly s ▶ λ x. by_peer s x.peer ▶ λ _. ready-KeepsOrderly s

clse-KeepsOrderly : (p : Packet) → KeepsOrderly (handle_clse p)
unfolding handle_clse
clse-KeepsOrderly p = find-KeepsOrderly p.arg1 ▶ by_hit
  where
    by_hit : (hit : Option ℕ) → KeepsOrderly (elim hit [ none ↦ skip | some s ↦ call_close s ])
    by_hit none = skip-KeepsOrderly
    by_hit (some s) = Tidy-KeepsOrderly (call_close s) λ k. call_close-Tidy k s

wrte-KeepsOrderly : (p : Packet) (t : ℕ) → KeepsOrderly (handle_wrte p t)
unfolding handle_wrte
wrte-KeepsOrderly p t = find-KeepsOrderly p.arg1 ▶ by_hit
  where
    by_verdict :
        (s : ℕ) (verdict : Verdict)
        → KeepsOrderly (elim verdict [
          | ready_for_more ↦ (do x ← load s; send_packet (control a_okay x.id p.arg0) (some t))
          | _ ↦ skip
        ])
    by_verdict s ready_for_more =
        load-KeepsOrderly s ▶ λ x. send-KeepsOrderly (control a_okay x.id p.arg0) t
    by_verdict s closed_us = skip-KeepsOrderly
    by_verdict s not_ready = skip-KeepsOrderly

    by_hit :
        (hit : Option ℕ)
        → KeepsOrderly (elim hit [
          | none ↦ skip
          | some s ↦ (do
            verdict ← call_enqueue s (take p.data_length p.payload)
            elim verdict [
              | ready_for_more ↦ (do x ← load s; send_packet (control a_okay x.id p.arg0) (some t))
              | _ ↦ skip
            ])
        ])
    by_hit none = skip-KeepsOrderly
    by_hit (some s) =
        Tidy-KeepsOrderly _ (λ k. call_enqueue-Tidy k s (take p.data_length p.payload))
        ▶ by_verdict s

MayInstall-of : {A : Type 0} (m : M A) → KeepsOrderly m → MayInstall m
MayInstall-of m keeps σ a σ' small h o = keeps σ a σ' h o

if-MayInstall :
    {A : Type 0} (c : Bool) {m n : M A}
    → MayInstall m
    → MayInstall n
    → MayInstall (if c then m else n)
if-MayInstall true hm hn = hm
if-MayInstall false hm hn = hn

when_online-MayInstall : (t : ℕ) (m : M (Unit {0})) → MayInstall m → MayInstall (when_online t m)
when_online-MayInstall t m hm σ a σ' small h o = elim (Bool-cases (σ.transports t).online) [
  | inl on ↦ hm σ a σ' small (ground (arith, h, on)) o
  | inr off ↦ skip-KeepsOrderly σ a σ' (ground (arith, h, off)) o
]

-- Whatever the packet, when `handle_packet` returns it has kept the ring orderly, if the counter of
-- identifiers had room for one more.
pub handle_packet-IsOrderly : (env : Env) (p : Packet) (t : ℕ) → MayInstall (handle_packet env p t)
unfolding handle_packet
handle_packet-IsOrderly env p t =
    if-MayInstall (p.command == a_sync) (MayInstall-of _ (sync-KeepsOrderly env p t)) (
      if-MayInstall (p.command == a_cnxn) (MayInstall-of _ (cnxn-KeepsOrderly env p t)) (
        if-MayInstall (p.command == a_auth) (MayInstall-of _ (auth-KeepsOrderly env p t)) (
          if-MayInstall (p.command == a_open) (when_online-MayInstall t _ (open-MayInstall env p t))
            (if-MayInstall (p.command == a_okay)
              (when_online-MayInstall t _ (MayInstall-of _ (okay-KeepsOrderly p t)))
              (if-MayInstall (p.command == a_clse)
                (when_online-MayInstall t _ (MayInstall-of _ (clse-KeepsOrderly p)))
                (if-MayInstall (p.command == a_wrte)
                  (when_online-MayInstall t _ (MayInstall-of _ (wrte-KeepsOrderly p t)))
                  (MayInstall-of _ skip-KeepsOrderly)))))))
