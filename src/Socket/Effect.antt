-- ===== src/Socket/Effect.antt =====
-- What closing a local socket does to it, to its remote peer and to the transport.
use stm32f429_adbd.Common.{
  ℕ, ◌≡◌, ◌≢◌, refl, ◌∙◌, Option, none, some, arith, List, true, false, [], ◌∷◌, ◌++◌, ◌==◌,
  if◌then◌else◌,
}
use stm32f429_adbd.Packet.{stamp, a_clse}
use stm32f429_adbd.Engine.{Socket, State, local_socket_close, remote_socket_close}
use stm32f429_adbd.Engine.Monad.{
  M, ok, load, modify, update, Returns, >>=-ok, modify-eq-ok, update_self, load-eq-ok,
  with_transport,
}
use stm32f429_adbd.Rings.{remove_socket, unlink, member}
use stm32f429_adbd.Socket.{
  Entry, pointer, local_socket_destroy, finish_close, local_socket_close_locked, remote_close,
  local_close, detach, run_close, call_close, control,
}

-- A remote socket whose local peer has cut the link.
abbrev cut : Socket → Socket
cut y = record y { peer = none }

abbrev cut_at : ℕ → Socket → State → State
cut_at p y σ = record σ { heap = update σ.heap p (some (cut y)) }

-- The state after a remote socket has said CLSE(0, id) and is gone.
abbrev after_remote : ℕ → ℕ → ℕ → State → State
after_remote p t id σ =
    let σ' =
      with_transport t (λ tr. record tr { sent = tr.sent ++ (stamp (control a_clse 0 id) ∷ []) })
        σ in
    let σ'' = with_transport t (λ tr. record tr { disconnects = unlink p tr.disconnects }) σ' in
    record σ'' { heap = update σ.heap p none }

remote_alone :
    (p t : ℕ) (y : Socket) (σ : State)
    → σ.heap p ≡ some y
    → y.peer ≡ none
    → y.transport ≡ some t
    → (rec : Entry → ℕ → M (Unit {0})) → remote_close rec p σ ≡ ok tt (after_remote p t y.id σ)
unfolding remote_close
remote_alone p t y σ h alone ht rec = ground arith

-- The state after a local socket that is on a ring is gone.
abbrev after_destroy : ℕ → Socket → State → State
after_destroy s x σ = record σ {
  heap = update (update σ.heap s (some (record x { id = 0 }))) s none;
  closed =
      if x.write_fd == x.fd
      then σ.closed ++ (x.fd ∷ [])
      else (σ.closed ++ (x.fd ∷ [])) ++ (x.write_fd ∷ []);
  locals = unlink s σ.locals;
  closings = unlink s σ.closings;
}

destroy-ok :
    (s : ℕ) (x : Socket) (σ : State)
    → σ.heap s ≡ some x
    → x.exit_on_close ≡ false
    → member s σ.locals ≡ true
    → local_socket_destroy s σ ≡ ok tt (after_destroy s x σ)
unfolding local_socket_destroy remove_socket
destroy-ok s x σ h stays on_ring = ground arith

finish-ok :
    (s : ℕ) (x : Socket) (σ : State)
    → σ.heap s ≡ some x
    → x.exit_on_close ≡ false
    → x.queue ≡ []
    → member s σ.locals ≡ true
    → finish_close s σ ≡ ok tt (after_destroy s x σ)
unfolding finish_close
finish-ok s x σ h stays empty on_ring = ground (arith, destroy-ok s x σ h stays on_ring)

-- A local socket at `s` and the remote socket at `p` that it is linked to.
pub record Linked (s p t : ℕ) (x y : Socket) (heap : ℕ → Option Socket) (ring : List ℕ)
    : Type 0 where
  pub at_s : heap s ≡ some x
  pub at_p : heap p ≡ some y
  pub apart : s ≢ p
  pub x_close : x.close ≡ local_socket_close
  pub y_close : y.close ≡ remote_socket_close
  pub x_peer : x.peer ≡ some p
  pub y_transport : y.transport ≡ some t
  pub on_ring : member s ring ≡ true
  pub stays : x.exit_on_close ≡ false

module _ (s p t : ℕ) (x y : Socket) where
  abbrev after_peer : State → State
  after_peer σ = cut_at s x (after_remote p t y.id (cut_at p y σ))

  detach-remote :
      (σ : State)
      → Linked s p t x y σ.heap σ.locals
      → detach (run_close 1) pointer p σ ≡ ok tt (after_remote p t y.id (cut_at p y σ))
  unfolding detach run_close
  detach-remote σ l =
      >>=-ok (modify p cut) _ σ (modify-eq-ok p cut σ l.at_p)
      ∙ >>=-ok (load p) _ (cut_at p y σ)
          (load-eq-ok p (cut_at p y σ) (update_self σ.heap p (some (cut y))))
      ∙ ground (
        arith,
        l.y_close,
        remote_alone p t (cut y) (cut_at p y σ) (update_self σ.heap p (some (cut y))) refl
            l.y_transport (detach (run_close 0)),
      )

  after_peer-at_s : (σ : State) → (after_peer σ).heap s ≡ some (cut x)
  after_peer-at_s σ = ground arith

  close_locked-Linked :
      (σ : State)
      → Linked s p t x y σ.heap σ.locals
      → x.queue ≡ []
      → local_socket_close_locked (detach (run_close 1)) s σ
        ≡ ok tt (after_destroy s (cut x) (after_peer σ))
  unfolding local_socket_close_locked
  close_locked-Linked σ l empty = ground (
    arith,
    l.at_s,
    l.at_p,
    l.apart,
    l.x_peer,
    l.y_close,
    detach-remote σ l,
    finish-ok s (cut x) (after_peer σ) (after_peer-at_s σ) l.stays empty l.on_ring,
  )

  call_close-Linked :
      (σ : State)
      → Linked s p t x y σ.heap σ.locals
      → x.queue ≡ []
      → σ.locked ≡ false
      → call_close s σ
        ≡ ok tt (record (after_destroy s (cut x) (after_peer (record σ { locked = true }))) {
          locked = false;
        })
  unfolding call_close run_close local_close
  call_close-Linked σ l empty free_lock =
      ground (arith, l.at_s, l.x_close, close_locked-Linked (record σ { locked = true }) l empty)

-- Closing a local socket that has nothing to write, does not exit the process when it closes,
-- stands on a ring and is linked to a remote one, with the lock free: it returns with both freed,
-- the lock released and one entry for the local one taken off the ring; any other socket is as it
-- was; the transport gets one packet, a CLSE with 0 for the local id and the remote's id, and
-- loses one entry for the remote socket from its disconnects.
pub call_close_effect :
    (s p t q : ℕ) (x y : Socket) (σ : State)
    → Linked s p t x y σ.heap σ.locals
    → x.queue ≡ []
    → σ.locked ≡ false
    → q ≢ s
    → q ≢ p
    → Returns (call_close s σ) (λ _ σ'.
      (σ'.heap s ≡ none)
      × (σ'.heap p ≡ none)
      × (σ'.heap q ≡ σ.heap q)
      × (σ'.locked ≡ false)
      × (σ'.locals ≡ unlink s σ.locals)
      × ((σ'.transports t).sent ≡ (σ.transports t).sent ++ (stamp (control a_clse 0 y.id) ∷ []))
      × ((σ'.transports t).disconnects ≡ unlink p (σ.transports t).disconnects))
call_close_effect s p t q x y σ l empty free_lock h k =
    rw (call_close-Linked s p t x y σ l empty free_lock) (
      ground arith,
      ground (arith, l.apart),
      ground arith,
      ground arith,
      ground arith,
      ground arith,
      ground arith,
    )
