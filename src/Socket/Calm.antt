-- ===== src/Socket/Calm.antt =====
-- What the close functions of adbd/src/sockets.c leave as it is: the sessions of the transports,
-- and the ring of local sockets but for those that they take off it.
use stm32f429_adbd.Common.{
  ℕ, zero, suc, ◌<◌, ◌≡◌, true, inl, length, refl, Option, none, some, arith, List, [], ◌∷◌, ◌++◌,
}
use stm32f429_adbd.Packet.{Packet, stamp}
use stm32f429_adbd.Engine.{
  Close, local_socket_close, remote_socket_close, smart_socket_close, local_socket_close_notify,
  jdwp_socket_close, jdwp_tracker_close,
}
use stm32f429_adbd.Engine.Monad.{M, ◌>>=◌, ◌>>◌, load, modify, skip, pure, lock, deref}
use stm32f429_adbd.Engine.Calm.{
  IsShorter, IsCalm, >>=-IsCalm, load-IsCalm, modify-IsCalm, free-IsCalm, lock-IsCalm, deref-IsCalm,
  set_transport-IsCalm,
}
use stm32f429_adbd.Rings.{remove_socket, unlink, member}
use stm32f429_adbd.Socket.{
  Entry, pointer, locked, peer_entry, finish_close, local_socket_destroy, local_socket_close_locked,
  remote_close, smart_close, jdwp_close, tracker_close, local_close, close_notify, sendfailmsg,
  after_failmsg, send_packet, remove_transport_disconnect, dispatch_close, detach, run_close,
  call_close,
}

pub send_packet-IsCalm : (p : Packet) (t : Option ℕ) → IsCalm (send_packet p t)
unfolding send_packet
send_packet-IsCalm p none = λ σ a σ' h. ground arith
send_packet-IsCalm p (some t) =
    set_transport-IsCalm t (λ tr. record tr { sent = tr.sent ++ (stamp p ∷ []) }) (λ tr. refl)

pub remove_disconnect-IsCalm : (t s : ℕ) → IsCalm (remove_transport_disconnect t s)
unfolding remove_transport_disconnect
remove_disconnect-IsCalm t s =
    set_transport-IsCalm t (λ tr. record tr { disconnects = unlink s tr.disconnects }) (λ tr. refl)

pub sendfailmsg-IsCalm : (fd : ℕ) (reason : List ℕ) → IsCalm (sendfailmsg fd reason)
unfolding sendfailmsg after_failmsg
sendfailmsg-IsCalm fd reason σ a σ' h = ground arith

pub unlink-member : (s : ℕ) (xs : List ℕ) → member s xs ≡ true → length (unlink s xs) < length xs
unfolding unlink member
unlink-member s [] h = ground (arith, h)
unlink-member s (x ∷ xs) h = ground (arith, h, unlink-member s xs)

unlink-IsShorter : (s : ℕ) (xs : List ℕ) → IsShorter (unlink s xs) xs
unfolding unlink
unlink-IsShorter s [] = inl refl
unlink-IsShorter s (x ∷ xs) = ground (arith, unlink-IsShorter s xs)

pub remove_socket-IsCalm : (s : ℕ) → IsCalm (remove_socket s)
unfolding remove_socket
remove_socket-IsCalm s σ a σ' h = ground (arith, unlink-IsShorter s σ.locals)

destroy-IsCalm : (s : ℕ) → IsCalm (local_socket_destroy s)
unfolding local_socket_destroy
destroy-IsCalm s σ a σ' h = ground (arith, unlink-IsShorter s σ.locals)

pub finish_close-IsCalm : (s : ℕ) → IsCalm (finish_close s)
unfolding finish_close
finish_close-IsCalm s σ a σ' h = ground (arith, unlink-IsShorter s σ.locals)

module _ (rec : Entry → ℕ → M (Unit {0})) (keeps : (e : Entry) (p : ℕ) → IsCalm (rec e p))
    (s : ℕ) where
  pub cut_local-IsCalm :
      (o : Option ℕ)
      → IsCalm (elim o [
        | none ↦ skip
        | some p ↦ (do
          y ← load p
          rec (peer_entry y.close) p
          modify s (λ z. record z { peer = none }))
      ])
  cut_local-IsCalm none = λ σ a σ' h. ground arith
  cut_local-IsCalm (some p) = >>=-IsCalm (load p) _ (load-IsCalm p) λ y.
      >>=-IsCalm (rec (peer_entry y.close) p) _ (keeps (peer_entry y.close) p)
        λ _. modify-IsCalm s (λ z. record z { peer = none })

  cut_peer : (o : Option ℕ) → IsCalm (elim o [ none ↦ skip | some p ↦ rec pointer p ])
  cut_peer none = λ σ a σ' h. ground arith
  cut_peer (some p) = keeps pointer p

  cut_remote :
      (o : Option ℕ)
      → IsCalm
          (elim o [ none ↦ pure {A = ℕ} 0 | some p ↦ (do y ← load p; rec pointer p; pure y.id) ])
  cut_remote none = λ σ a σ' h. ground arith
  cut_remote (some p) =
      >>=-IsCalm (load p) _ (load-IsCalm p)
        λ y. >>=-IsCalm (rec pointer p) _ (keeps pointer p) λ _ σ a σ' h. ground arith

  close_locked-IsCalm : IsCalm (local_socket_close_locked rec s)
  unfolding local_socket_close_locked
  close_locked-IsCalm =
      >>=-IsCalm (load s) _ (load-IsCalm s)
        λ x. >>=-IsCalm _ _ (cut_local-IsCalm x.peer) λ _. finish_close-IsCalm s

  local_close-IsCalm : IsCalm (local_close rec s)
  unfolding local_close
  local_close-IsCalm = >>=-IsCalm lock _ lock-IsCalm λ _.
      >>=-IsCalm (local_socket_close_locked rec s) _ close_locked-IsCalm λ _ σ a σ' h. ground arith

  remote_close-IsCalm : IsCalm (remote_close rec s)
  unfolding remote_close
  remote_close-IsCalm = >>=-IsCalm (load s) _ (load-IsCalm s) λ x.
      >>=-IsCalm _ _ (cut_remote x.peer) λ arg0.
        >>=-IsCalm (send_packet _ x.transport) _ (send_packet-IsCalm _ x.transport) λ _.
          >>=-IsCalm (deref x.transport) _ (deref-IsCalm x.transport) λ t.
            >>=-IsCalm (remove_transport_disconnect t s) _ (remove_disconnect-IsCalm t s)
              λ _. free-IsCalm s

  smart_close-IsCalm : IsCalm (smart_close rec s)
  unfolding smart_close
  smart_close-IsCalm =
      >>=-IsCalm (load s) _ (load-IsCalm s) λ x. >>=-IsCalm _ _ (cut_peer x.peer) λ _. free-IsCalm s

  jdwp_close-IsCalm : IsCalm (jdwp_close rec s)
  unfolding jdwp_close
  jdwp_close-IsCalm = >>=-IsCalm (load s) _ (load-IsCalm s) λ x.
      >>=-IsCalm (remove_socket s) _ (remove_socket-IsCalm s)
        λ _. >>=-IsCalm _ _ (cut_peer x.peer) λ _. free-IsCalm s

  tracker_close-IsCalm : IsCalm (tracker_close rec s)
  unfolding tracker_close
  tracker_close-IsCalm = >>=-IsCalm (load s) _ (load-IsCalm s) λ x.
      >>=-IsCalm _ _ (cut_peer x.peer)
        λ _. >>=-IsCalm (remove_socket s) _ (remove_socket-IsCalm s) λ _ σ a σ' h. ground arith

  close_notify-IsCalm : IsCalm (close_notify rec s)
  unfolding close_notify
  close_notify-IsCalm = >>=-IsCalm (modify s _) _ (modify-IsCalm s _) λ _.
      >>=-IsCalm (load s) _ (load-IsCalm s)
        λ x. >>=-IsCalm (sendfailmsg x.fd _) _ (sendfailmsg-IsCalm x.fd _) λ _. local_close-IsCalm

  dispatch-IsCalm : (c : Close) → IsCalm (dispatch_close rec c s)
  unfolding dispatch_close
  dispatch-IsCalm local_socket_close = local_close-IsCalm
  dispatch-IsCalm remote_socket_close = remote_close-IsCalm
  dispatch-IsCalm smart_socket_close = smart_close-IsCalm
  dispatch-IsCalm local_socket_close_notify = close_notify-IsCalm
  dispatch-IsCalm jdwp_socket_close = jdwp_close-IsCalm
  dispatch-IsCalm jdwp_tracker_close = tracker_close-IsCalm

pub detach-IsCalm :
    (rec : Entry → ℕ → M (Unit {0}))
    → ((e : Entry) (p : ℕ) → IsCalm (rec e p))
    → (e : Entry) (p : ℕ) → IsCalm (detach rec e p)
unfolding detach
detach-IsCalm rec keeps e p = >>=-IsCalm (modify p _) _ (modify-IsCalm p _) λ _. keeps e p

pub run_close-IsCalm : (n : ℕ) (e : Entry) (s : ℕ) → IsCalm (run_close n e s)
unfolding run_close
run_close-IsCalm zero e s = λ σ a σ' h. ground arith
run_close-IsCalm (suc n) locked s =
    close_locked-IsCalm (detach (run_close n)) (detach-IsCalm (run_close n) (run_close-IsCalm n)) s
run_close-IsCalm (suc n) pointer s = >>=-IsCalm (load s) _ (load-IsCalm s) λ x.
    dispatch-IsCalm (detach (run_close n)) (detach-IsCalm (run_close n) (run_close-IsCalm n)) s
      x.close

pub call_close-IsCalm : (s : ℕ) → IsCalm (call_close s)
unfolding call_close
call_close-IsCalm s = run_close-IsCalm 2 pointer s
