-- ===== src/Socket/Fuel.antt =====
-- How deep the close functions of adbd/src/sockets.c and adbd/src/jdwp_service.c call one another.
use stm32f429_adbd.Common.{
  ℕ, suc, ◌≡◌, ◌≢◌, refl, Option, none, some, arith, Option-cases, inl, inr,
}
use stm32f429_adbd.Engine.{
  Socket, State, Close, local_socket_close, remote_socket_close, smart_socket_close,
  local_socket_close_notify, jdwp_socket_close, jdwp_tracker_close,
}
use stm32f429_adbd.Engine.Monad.{
  M, crash, no_fuel, ◌>>=◌, ◌>>◌, load, modify, update, skip, pure, lock, IsFueled, >>=-IsFueled,
  >>=-ok, >>=-crash, modify-eq-ok, modify-eq-crash, update_self, load-eq-ok,
}
use stm32f429_adbd.Rings.{remove_socket}
use stm32f429_adbd.Socket.{
  Entry, pointer, locked, peer_entry, finish_close, local_socket_close_locked, remote_close,
  smart_close, jdwp_close, tracker_close, local_close, close_notify, sendfailmsg, dispatch_close,
  detach, run_close,
}
use stm32f429_adbd.Socket.Termination.{close_locked_alone, dispatch_alone, run_close_depth}

finish_close-IsFueled : (s : ℕ) → IsFueled (finish_close s)
unfolding finish_close
finish_close-IsFueled s σ = ground arith

remove_socket-IsFueled : (s : ℕ) → IsFueled (remove_socket s)
unfolding remove_socket
remove_socket-IsFueled s σ = ground arith

module _ (rec : Entry → ℕ → M (Unit {0})) (fueled : (e : Entry) (p : ℕ) → IsFueled (rec e p))
    (s : ℕ) where
  cut_local :
      (o : Option ℕ)
      → IsFueled (elim o [
        | none ↦ skip
        | some p ↦ (do
          y ← load p
          rec (peer_entry y.close) p
          modify s (λ z. record z { peer = none }))
      ])
  cut_local none = λ σ h. cc
  cut_local (some p) =
      >>=-IsFueled (load p) _ (λ σ. ground arith)
        λ y.
          >>=-IsFueled (rec (peer_entry y.close) p) _ (fueled (peer_entry y.close) p)
            λ _ σ. ground arith

  close_locked-IsFueled : IsFueled (local_socket_close_locked rec s)
  unfolding local_socket_close_locked
  close_locked-IsFueled =
      >>=-IsFueled (load s) _ (λ σ. ground arith)
        λ x. >>=-IsFueled _ _ (cut_local x.peer) λ _. finish_close-IsFueled s

  local_close-IsFueled : IsFueled (local_close rec s)
  unfolding local_close
  local_close-IsFueled =
      >>=-IsFueled lock _ (λ σ. ground arith)
        λ _.
          >>=-IsFueled (local_socket_close_locked rec s) _ close_locked-IsFueled λ _ σ. ground arith

  cut_peer : (o : Option ℕ) → IsFueled (elim o [ none ↦ skip | some p ↦ rec pointer p ])
  cut_peer none = λ σ h. cc
  cut_peer (some p) = fueled pointer p

  cut_remote :
      (o : Option ℕ)
      → IsFueled
          (elim o [ none ↦ pure {A = ℕ} 0 | some p ↦ (do y ← load p; rec pointer p; pure y.id) ])
  cut_remote none = λ σ h. cc
  cut_remote (some p) =
      >>=-IsFueled (load p) _ (λ σ. ground arith)
        λ y. >>=-IsFueled (rec pointer p) _ (fueled pointer p) λ _ σ. ground arith

  remote_close-IsFueled : IsFueled (remote_close rec s)
  unfolding remote_close
  remote_close-IsFueled =
      >>=-IsFueled (load s) _ (λ σ. ground arith)
        λ x. >>=-IsFueled _ _ (cut_remote x.peer) λ arg0 σ. ground arith

  smart_close-IsFueled : IsFueled (smart_close rec s)
  unfolding smart_close
  smart_close-IsFueled =
      >>=-IsFueled (load s) _ (λ σ. ground arith)
        λ x. >>=-IsFueled _ _ (cut_peer x.peer) λ _ σ. ground arith

  jdwp_close-IsFueled : IsFueled (jdwp_close rec s)
  unfolding jdwp_close
  jdwp_close-IsFueled =
      >>=-IsFueled (load s) _ (λ σ. ground arith)
        λ x.
          >>=-IsFueled (remove_socket s) _ (remove_socket-IsFueled s)
            λ _. >>=-IsFueled _ _ (cut_peer x.peer) λ _ σ. ground arith

  tracker_close-IsFueled : IsFueled (tracker_close rec s)
  unfolding tracker_close
  tracker_close-IsFueled =
      >>=-IsFueled (load s) _ (λ σ. ground arith)
        λ x.
          >>=-IsFueled _ _ (cut_peer x.peer)
            λ _. >>=-IsFueled (remove_socket s) _ (remove_socket-IsFueled s) λ _ σ. ground arith

  close_notify-IsFueled : IsFueled (close_notify rec s)
  unfolding close_notify sendfailmsg
  close_notify-IsFueled =
      >>=-IsFueled (modify s _) _ (λ σ. ground arith)
        λ _.
          >>=-IsFueled (load s) _ (λ σ. ground arith)
            λ x. >>=-IsFueled (sendfailmsg x.fd _) _ (λ σ h. cc) λ _. local_close-IsFueled

  dispatch-IsFueled : (c : Close) → IsFueled (dispatch_close rec c s)
  unfolding dispatch_close
  dispatch-IsFueled local_socket_close = local_close-IsFueled
  dispatch-IsFueled remote_socket_close = remote_close-IsFueled
  dispatch-IsFueled smart_socket_close = smart_close-IsFueled
  dispatch-IsFueled local_socket_close_notify = close_notify-IsFueled
  dispatch-IsFueled jdwp_socket_close = jdwp_close-IsFueled
  dispatch-IsFueled jdwp_tracker_close = tracker_close-IsFueled

-- A peer that is never called.
abbrev uncalled : Entry → ℕ → M (Unit {0})
uncalled e p σ = crash

alone-IsFueled :
    (e : Entry) (s : ℕ) (σ : State) (x : Socket)
    → σ.heap s ≡ some x
    → x.peer ≡ none
    → run_close 1 e s σ ≢ no_fuel
unfolding run_close
alone-IsFueled locked s σ x h alone =
    rw (close_locked_alone (detach (run_close 0)) uncalled s x alone σ h)
      (close_locked-IsFueled uncalled (λ e p σ h. cc) s σ)
alone-IsFueled pointer s σ x h alone =
    rw (>>=-ok (load s) (λ y. dispatch_close (detach (run_close 0)) y.close s) σ (load-eq-ok s σ h))
      (rw (dispatch_alone (detach (run_close 0)) uncalled s x alone x.close σ h)
        (dispatch-IsFueled uncalled (λ e p σ h. cc) s x.close σ))

detach-IsFueled : (e : Entry) (p : ℕ) → IsFueled (detach (run_close 1) e p)
unfolding detach
detach-IsFueled e p σ = elim (Option-cases (σ.heap p)) [
  | inl h ↦
      rw (>>=-crash (modify p cut) (λ _. run_close 1 e p) σ (modify-eq-crash p cut σ h)) (λ h. cc)
  | inr (y, h) ↦ rw (>>=-ok (modify p cut) (λ _. run_close 1 e p) σ (modify-eq-ok p cut σ h)) (
      alone-IsFueled e p (record σ { heap = update σ.heap p (some (cut y)) }) (cut y)
        (update_self σ.heap p (some (cut y))) refl)
]
  where
    cut : Socket → Socket
    cut y = record y { peer = none }

-- A close entered in either way never runs out of its depth of two, from any state.
run_close-IsFueled : (e : Entry) (s : ℕ) (σ : State) → run_close 2 e s σ ≢ no_fuel
unfolding run_close
run_close-IsFueled locked s = close_locked-IsFueled (detach (run_close 1)) detach-IsFueled s
run_close-IsFueled pointer s =
    >>=-IsFueled (load s) _ (λ σ. ground arith)
      λ x. dispatch-IsFueled (detach (run_close 1)) detach-IsFueled s x.close

-- Closing ends: from any state and by either entry, every depth of at least two gives what the
-- depth of two gives, and that is never for want of fuel.
pub run_close_total :
    (n : ℕ) (e : Entry) (s : ℕ) (σ : State)
    → (run_close (suc (suc n)) e s σ ≡ run_close 2 e s σ)
      × (run_close (suc (suc n)) e s σ ≢ no_fuel)
run_close_total n e s σ =
    (run_close_depth n e s σ, rw (run_close_depth n e s σ) (run_close-IsFueled e s σ))
