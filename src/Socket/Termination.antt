-- ===== src/Socket/Termination.antt =====
-- The calls that a close function of adbd/src/sockets.c makes of its peer's, by depth.
use stm32f429_adbd.Common.{
  ℕ, suc, ◌≡◌, refl, sym, ◌∙◌, true, none, some, List, arith, Option-cases, inl, inr, codes,
}
use stm32f429_adbd.Engine.{
  Socket, State, Close, local_socket_close, remote_socket_close, smart_socket_close,
  local_socket_close_notify, jdwp_socket_close, jdwp_tracker_close, local_socket_ready,
}
use stm32f429_adbd.Engine.Monad.{
  M, ◌>>=◌, load, update, modify, >>=-ok, >>=-crash, load-eq-ok, modify-eq-ok, modify-eq-crash,
  update_self,
}
use stm32f429_adbd.Socket.{
  Entry, pointer, locked, detach, local_socket_close_locked, remote_close, smart_close, jdwp_close,
  tracker_close, local_close, close_notify, dispatch_close, run_close, sendfailmsg, after_failmsg,
}

module _ (rec rec' : Entry → ℕ → M (Unit {0})) (s : ℕ) (x : Socket) (alone : x.peer ≡ none) where
  pub close_locked_alone :
      (σ : State)
      → σ.heap s ≡ some x
      → local_socket_close_locked rec s σ ≡ local_socket_close_locked rec' s σ
  unfolding local_socket_close_locked
  close_locked_alone σ h = ground arith

  remote_close_alone :
      (σ : State) → σ.heap s ≡ some x → remote_close rec s σ ≡ remote_close rec' s σ
  unfolding remote_close
  remote_close_alone σ h = ground arith

  smart_close_alone : (σ : State) → σ.heap s ≡ some x → smart_close rec s σ ≡ smart_close rec' s σ
  unfolding smart_close
  smart_close_alone σ h = ground arith

  jdwp_close_alone : (σ : State) → σ.heap s ≡ some x → jdwp_close rec s σ ≡ jdwp_close rec' s σ
  unfolding jdwp_close
  jdwp_close_alone σ h = ground arith

  tracker_close_alone :
      (σ : State) → σ.heap s ≡ some x → tracker_close rec s σ ≡ tracker_close rec' s σ
  unfolding tracker_close
  tracker_close_alone σ h = ground arith

  local_close_alone : (σ : State) → σ.heap s ≡ some x → local_close rec s σ ≡ local_close rec' s σ
  unfolding local_close
  local_close_alone σ h = ground (arith, close_locked_alone (record σ { locked = true }) h)

pub heap-after_failmsg :
    (fd : ℕ) (reason : List ℕ) (σ : State) → (after_failmsg fd reason σ).heap ≡ σ.heap
unfolding after_failmsg
heap-after_failmsg fd reason σ = ground arith

abbrev notified : Socket → Socket
notified x = record x { ready = local_socket_ready; close = local_socket_close }

abbrev after_notify : ℕ → Socket → State → State
after_notify s x σ =
    after_failmsg x.fd (codes "closed") (record σ { heap = update σ.heap s (some (notified x)) })

heap-after_notify :
    (s : ℕ) (x : Socket) (σ : State) → (after_notify s x σ).heap s ≡ some (notified x)
unfolding after_failmsg
heap-after_notify s x σ = ground arith

close_notify-eq-local_close :
    (rec : Entry → ℕ → M (Unit {0})) (s : ℕ) (x : Socket) (σ : State)
    → σ.heap s ≡ some x
    → close_notify rec s σ ≡ local_close rec s (after_notify s x σ)
unfolding close_notify sendfailmsg
close_notify-eq-local_close rec s x σ h =
    >>=-ok (modify s notified) _ σ (modify-eq-ok s notified σ h)
    ∙ >>=-ok (load s) _ (record σ { heap = update σ.heap s (some (notified x)) })
        (load-eq-ok s _ (update_self σ.heap s (some (notified x))))

module _ (rec rec' : Entry → ℕ → M (Unit {0})) (s : ℕ) (x : Socket) (alone : x.peer ≡ none) where
  close_notify_alone :
      (σ : State) → σ.heap s ≡ some x → close_notify rec s σ ≡ close_notify rec' s σ
  unfolding close_notify
  close_notify_alone σ h =
      close_notify-eq-local_close rec s x σ h
      ∙ local_close_alone rec rec' s (notified x) alone (after_notify s x σ)
          (heap-after_notify s x σ)
      ∙ sym (close_notify-eq-local_close rec' s x σ h)

  pub dispatch_alone :
      (c : Close) (σ : State)
      → σ.heap s ≡ some x
      → dispatch_close rec c s σ ≡ dispatch_close rec' c s σ
  unfolding dispatch_close
  dispatch_alone local_socket_close σ h = local_close_alone rec rec' s x alone σ h
  dispatch_alone remote_socket_close σ h = remote_close_alone rec rec' s x alone σ h
  dispatch_alone smart_socket_close σ h = smart_close_alone rec rec' s x alone σ h
  dispatch_alone local_socket_close_notify σ h = close_notify_alone σ h
  dispatch_alone jdwp_socket_close σ h = jdwp_close_alone rec rec' s x alone σ h
  dispatch_alone jdwp_tracker_close σ h = tracker_close_alone rec rec' s x alone σ h

-- A socket with no peer is closed without a further close.
pub run_close_alone :
    (n : ℕ) (e : Entry) (s : ℕ) (σ : State) (x : Socket)
    → σ.heap s ≡ some x
    → x.peer ≡ none
    → run_close (suc n) e s σ ≡ run_close 1 e s σ
unfolding run_close
run_close_alone n locked s σ x h alone =
    close_locked_alone (detach (run_close n)) (detach (run_close 0)) s x alone σ h
run_close_alone n pointer s σ x h alone =
    >>=-ok (load s) _ σ (load-eq-ok s σ h)
    ∙ dispatch_alone (detach (run_close n)) (detach (run_close 0)) s x alone x.close σ h
    ∙ sym (>>=-ok (load s) _ σ (load-eq-ok s σ h))

-- The recursive calls of a close function: a peer whose link back was cut.
detach_alone :
    (n : ℕ) (e : Entry) (p : ℕ) (σ : State)
    → detach (run_close (suc n)) e p σ ≡ detach (run_close 1) e p σ
unfolding detach
detach_alone n e p σ = elim (Option-cases (σ.heap p)) [
  | inl h ↦
      >>=-crash (modify p cut) (λ _. run_close (suc n) e p) σ (modify-eq-crash p cut σ h)
      ∙ sym (>>=-crash (modify p cut) (λ _. run_close 1 e p) σ (modify-eq-crash p cut σ h))
  | inr (y, h) ↦
      >>=-ok (modify p cut) (λ _. run_close (suc n) e p) σ (modify-eq-ok p cut σ h)
      ∙ run_close_alone n e p _ (cut y) (update_self σ.heap p (some (cut y))) refl
      ∙ sym (>>=-ok (modify p cut) (λ _. run_close 1 e p) σ (modify-eq-ok p cut σ h))
]
  where
    cut : Socket → Socket
    cut y = record y { peer = none }

detach_path : (n : ℕ) → detach (run_close (suc n)) ≡ detach (run_close 1)
detach_path n = λ i e p σ. detach_alone n e p σ i

-- A close never needs more than two calls below one another: a greater depth changes nothing, from
-- any state, for any socket and whichever way it is entered.
pub run_close_depth :
    (n : ℕ) (e : Entry) (s : ℕ) (σ : State) → run_close (suc (suc n)) e s σ ≡ run_close 2 e s σ
unfolding run_close
run_close_depth n locked s σ = λ i. local_socket_close_locked (detach_path n i) s σ
run_close_depth n pointer s σ = λ i. (load s >>= λ x. dispatch_close (detach_path n i) x.close s) σ
