-- ===== src/Orderly/Closing.antt =====
-- The close functions of adbd/src/sockets.c and adbd/src/jdwp_service.c keep the ring of local
-- sockets orderly, and put no socket on it.
use stm32f429_adbd.Common.{
  ℕ, zero, suc, ◌≡◌, Bool, true, false, inl, refl, subst, ◌==◌, Bool-cases, inr, Option, none, some,
  arith, List, [], ◌∷◌, ◌++◌,
}
use stm32f429_adbd.Packet.{Packet, stamp}
use stm32f429_adbd.Engine.{
  Socket, State, Close, local_socket_close, remote_socket_close, smart_socket_close,
  local_socket_close_notify, jdwp_socket_close, jdwp_tracker_close,
}
use stm32f429_adbd.Engine.Monad.{M, ok, ◌>>=◌, ◌>>◌, load, modify, skip, unlock, close_fd, exit}
use stm32f429_adbd.Engine.Session.{>>=-eq-ok}
use stm32f429_adbd.Rings.{remove_socket, unlink, member, set_closings}
use stm32f429_adbd.Socket.{
  Entry, pointer, locked, peer_entry, finish_close, local_socket_destroy, local_socket_close_locked,
  remote_close, smart_close, jdwp_close, tracker_close, local_close, close_notify, sendfailmsg,
  after_failmsg, send_packet, remove_transport_disconnect, dispatch_close, detach, run_close,
  call_close,
}
use stm32f429_adbd.Orderly.{is_local, IsOrderly, Tidy, ◌▷◌, Tidy-if, Tidy-option, Tidy-pure}
use stm32f429_adbd.Orderly.Basic.{
  IsAside-Tidy, load-Tidy, lock-Tidy, deref-Tidy, modify-Tidy, free-Tidy, set_transport-Tidy,
  remove_socket-Tidy,
}
use stm32f429_adbd.Orderly.Ring.{member-unlink, unlink_gone}

off_ring :
    (p : ℕ) (x : Socket) (σ : State)
    → σ.heap p ≡ some x
    → is_local x.close ≡ false
    → IsOrderly σ
    → member p σ.locals ≡ false
off_ring p x σ h far o = elim (Bool-cases (member p σ.locals)) [
  | inl on ↦ let (y, hy, _, loc) = o.allocated p on in absurd (ground (arith, h, far, hy, loc))
  | inr off ↦ off
]

remove_socket_gone :
    (p : ℕ) (σ : State) (a : Unit {0}) (σ' : State)
    → remove_socket p σ ≡ ok a σ'
    → IsOrderly σ
    → member p σ'.locals ≡ false
unfolding remove_socket
remove_socket_gone p σ a σ' h o = ground (arith, h, unlink_gone p σ.locals o.once)

pub send_packet-Tidy : (s : ℕ) (p : Packet) (t : Option ℕ) → Tidy s (send_packet p t)
unfolding send_packet
send_packet-Tidy s p none = IsAside-Tidy s _ λ σ a σ' h. ground arith
send_packet-Tidy s p (some t) =
    set_transport-Tidy s t (λ tr. record tr { sent = tr.sent ++ (stamp p ∷ []) }) λ tr q h. h

pub remove_disconnect-Tidy : (s t p : ℕ) → Tidy s (remove_transport_disconnect t p)
unfolding remove_transport_disconnect
remove_disconnect-Tidy s t p =
    set_transport-Tidy s t (λ tr. record tr { disconnects = unlink p tr.disconnects })
      λ tr q h. member-unlink q p tr.disconnects h

pub sendfailmsg-Tidy : (s fd : ℕ) (reason : List ℕ) → Tidy s (sendfailmsg fd reason)
unfolding sendfailmsg after_failmsg
sendfailmsg-Tidy s fd reason = IsAside-Tidy s _ λ σ a σ' h. ground arith

pub close_fd-Tidy : (s fd : ℕ) → Tidy s (close_fd fd)
close_fd-Tidy s fd = IsAside-Tidy s _ λ σ a σ' h. ground arith

pub unlock-Tidy : (s : ℕ) → Tidy s unlock
unlock-Tidy s = IsAside-Tidy s _ λ σ a σ' h. ground arith

-- After `remove_socket` the socket is on no ring, and may be freed.
removed-Tidy :
    {A : Type 0} (s p : ℕ) {k : Unit {0} → M A}
    → ((a : Unit {0}) → Tidy p (k a))
    → Tidy s (remove_socket p >>= k)
removed-Tidy s p {k} tidy = record {
  keeps = λ σ b σ'' h o away.
      let (a, σ', first, rest) = >>=-eq-ok (remove_socket p) k σ b σ'' h in
      (tidy a).keeps σ' b σ'' rest ((remove_socket-Tidy s p).keeps σ a σ' first o away)
        (remove_socket_gone p σ a σ' first o);
  shrinks = λ σ b σ'' h q away.
      let (a, σ', first, rest) = >>=-eq-ok (remove_socket p) k σ b σ'' h in
      (tidy a).shrinks σ' b σ'' rest q ((remove_socket-Tidy s p).shrinks σ a σ' first q away);
}

destroy-Tidy : (s p : ℕ) → Tidy s (local_socket_destroy p)
unfolding local_socket_destroy
destroy-Tidy s p = load-Tidy s p ▷ λ x. close_fd-Tidy s x.fd ▷ λ _.
    Tidy-if (x.write_fd == x.fd) (Tidy-pure tt) (close_fd-Tidy s x.write_fd) ▷ λ _.
    removed-Tidy s p λ _. free-Tidy p ▷ λ _.
    Tidy-if x.exit_on_close (IsAside-Tidy p exit λ σ a σ' h. ground arith) (Tidy-pure tt)

finish_close-Tidy : (s p : ℕ) → Tidy s (finish_close p)
unfolding finish_close
finish_close-Tidy s p = load-Tidy s p ▷ λ x. by_closing x.closing x.queue
  where
    by_closing :
        (closing : Bool) (queue : List (List ℕ))
        → Tidy s (elim closing [
          | true ↦ local_socket_destroy p
          | false ↦ elim queue [
            | [] ↦ local_socket_destroy p
            | _ ∷ _ ↦ (do
              modify p (λ y. record y { closing = true; want_read = false })
              remove_socket p
              set_closings (λ ring. ring ++ (p ∷ [])))
          ]
        ])
    by_closing true queue = destroy-Tidy s p
    by_closing false [] = destroy-Tidy s p
    by_closing false (b ∷ queue) = modify-Tidy s p _ (λ x. refl) (λ x h. h) ▷ λ _.
        remove_socket-Tidy s p ▷ λ _. IsAside-Tidy s _ λ σ a σ' h. ground arith

module _ (rec : Entry → ℕ → M (Unit {0}))
    (keeps : (s : ℕ) (e : Entry) (p : ℕ) → Tidy s (rec e p)) where
  cut_peer : (s : ℕ) (o : Option ℕ) → Tidy s (elim o [ none ↦ skip | some p ↦ rec pointer p ])
  cut_peer s o = Tidy-option o (Tidy-pure tt) (keeps s pointer)

  close_locked-Tidy : (s p : ℕ) → Tidy s (local_socket_close_locked rec p)
  unfolding local_socket_close_locked
  close_locked-Tidy s p = load-Tidy s p ▷ λ x.
      Tidy-option x.peer (Tidy-pure tt) (λ q. load-Tidy s q ▷ λ y.
      keeps s (peer_entry y.close) q ▷ λ _. modify-Tidy s p _ (λ x. refl) (λ x h. h))
      ▷ λ _. finish_close-Tidy s p

  local_close-Tidy : (s p : ℕ) → Tidy s (local_close rec p)
  unfolding local_close
  local_close-Tidy s p = lock-Tidy s ▷ λ _. close_locked-Tidy s p ▷ λ _. unlock-Tidy s

  remote_close-Tidy : (p : ℕ) → Tidy p (remote_close rec p)
  unfolding remote_close
  remote_close-Tidy p = load-Tidy p p ▷ λ x.
      Tidy-option x.peer (Tidy-pure 0)
        (λ q. load-Tidy p q ▷ λ y. keeps p pointer q ▷ λ _. Tidy-pure y.id)
      ▷ λ arg0. send_packet-Tidy p _ x.transport ▷ λ _.
          deref-Tidy p x.transport ▷ λ t. remove_disconnect-Tidy p t p ▷ λ _. free-Tidy p

  smart_close-Tidy : (p : ℕ) → Tidy p (smart_close rec p)
  unfolding smart_close
  smart_close-Tidy p = load-Tidy p p ▷ λ x. cut_peer p x.peer ▷ λ _. free-Tidy p

  jdwp_close-Tidy : (s p : ℕ) → Tidy s (jdwp_close rec p)
  unfolding jdwp_close
  jdwp_close-Tidy s p =
      load-Tidy s p ▷ λ x. removed-Tidy s p λ _. cut_peer p x.peer ▷ λ _. free-Tidy p

  tracker_close-Tidy : (s p : ℕ) → Tidy s (tracker_close rec p)
  unfolding tracker_close
  tracker_close-Tidy s p = load-Tidy s p ▷ λ x. cut_peer s x.peer ▷ λ _. removed-Tidy s p λ _.
      IsAside-Tidy p (λ σ. ok tt (record σ { trackers = unlink p σ.trackers }))
        (λ σ a σ' h. ground arith)
      ▷ λ _. free-Tidy p

  close_notify-Tidy : (s p : ℕ) → Tidy s (close_notify rec p)
  unfolding close_notify
  close_notify-Tidy s p = modify-Tidy s p _ (λ x. refl) (λ x h. refl) ▷ λ _.
      load-Tidy s p ▷ λ x. sendfailmsg-Tidy s x.fd _ ▷ λ _. local_close-Tidy s p

  dispatch_off-Tidy : (c : Close) (p : ℕ) → Tidy p (dispatch_close rec c p)
  unfolding dispatch_close
  dispatch_off-Tidy local_socket_close p = local_close-Tidy p p
  dispatch_off-Tidy remote_socket_close p = remote_close-Tidy p
  dispatch_off-Tidy smart_socket_close p = smart_close-Tidy p
  dispatch_off-Tidy local_socket_close_notify p = close_notify-Tidy p p
  dispatch_off-Tidy jdwp_socket_close p = jdwp_close-Tidy p p
  dispatch_off-Tidy jdwp_tracker_close p = tracker_close-Tidy p p

  dispatch_local-Tidy : (c : Close) (s p : ℕ) → is_local c ≡ true → Tidy s (dispatch_close rec c p)
  unfolding dispatch_close
  dispatch_local-Tidy local_socket_close s p h = local_close-Tidy s p
  dispatch_local-Tidy remote_socket_close s p h = absurd (ground (arith, h))
  dispatch_local-Tidy smart_socket_close s p h = absurd (ground (arith, h))
  dispatch_local-Tidy local_socket_close_notify s p h = close_notify-Tidy s p
  dispatch_local-Tidy jdwp_socket_close s p h = jdwp_close-Tidy s p
  dispatch_local-Tidy jdwp_tracker_close s p h = tracker_close-Tidy s p

  -- A remote or smart socket frees itself, and is not on the ring.
  pointer-Tidy : (s p : ℕ) → Tidy s (load p >>= λ x. dispatch_close rec x.close p)
  pointer-Tidy s p = record {
    keeps = λ σ b σ'' h o away.
        let (x, σ', first, rest) = >>=-eq-ok (load p) _ σ b σ'' h in
        let here : σ' ≡ σ = ground (arith, first) in
        let at_p : σ.heap p ≡ some x = ground (arith, first) in
        let rest' : dispatch_close rec x.close p σ ≡ ok b σ'' =
          subst (λ τ. dispatch_close rec x.close p τ ≡ ok b σ'') here rest in
        elim (Bool-cases (is_local x.close)) [
          | inl loc ↦ (dispatch_local-Tidy x.close s p loc).keeps σ b σ'' rest' o away
          | inr far ↦
              (dispatch_off-Tidy x.close p).keeps σ b σ'' rest' o (off_ring p x σ at_p far o)
        ];
    shrinks = λ σ b σ'' h q away.
        let (x, σ', first, rest) = >>=-eq-ok (load p) _ σ b σ'' h in
        (dispatch_off-Tidy x.close p).shrinks σ' b σ'' rest q
          ((load-Tidy s p).shrinks σ x σ' first q away);
  }

detach-Tidy :
    (rec : Entry → ℕ → M (Unit {0}))
    → ((s : ℕ) (e : Entry) (p : ℕ) → Tidy s (rec e p))
    → (s : ℕ) (e : Entry) (p : ℕ) → Tidy s (detach rec e p)
unfolding detach
detach-Tidy rec keeps s e p = modify-Tidy s p _ (λ x. refl) (λ x h. h) ▷ λ _. keeps s e p

pub run_close-Tidy : (n s : ℕ) (e : Entry) (p : ℕ) → Tidy s (run_close n e p)
unfolding run_close
run_close-Tidy zero s e p = IsAside-Tidy s _ λ σ a σ' h. ground arith
run_close-Tidy (suc n) s locked p =
    close_locked-Tidy (detach (run_close n)) (detach-Tidy (run_close n) (run_close-Tidy n)) s p
run_close-Tidy (suc n) s pointer p =
    pointer-Tidy (detach (run_close n)) (detach-Tidy (run_close n) (run_close-Tidy n)) s p

pub call_close-Tidy : (s p : ℕ) → Tidy s (call_close p)
unfolding call_close
call_close-Tidy s p = run_close-Tidy 2 s pointer p
