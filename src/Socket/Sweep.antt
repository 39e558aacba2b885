-- ===== src/Socket/Sweep.antt =====
-- `close_all_sockets` of adbd/src/sockets.c.
pub mod Find
pub mod Ring
pub mod Total
use stm32f429_adbd.Common.{
  ℕ, zero, suc, ◌+◌, ◌<◌, ◌≤◌, ◌≡◌, ◌≢◌, refl, sym, ap, subst, ◌∙◌, Bool, true, false, Option, none,
  some, List, [], ◌∷◌, ◌==◌, ==_iff, length, arith, ◌⊎◌, inl, inr, ◌||◌,
}
use stm32f429_adbd.Engine.{Socket, State}
use stm32f429_adbd.Engine.Monad.{
  M, Result, ok, crash, deadlock, exits, no_fuel, >>=-ok, >>=-crash, ◌>>=◌, ◌>>◌, pure, skip, gets,
  load, modify, lock, unlock, IsFueled, >>=-IsFueled,
}
use stm32f429_adbd.Engine.Session.{>>=-eq-ok}
use stm32f429_adbd.Engine.Calm.{IsCalm, IsShorter, IsShorter-trans}
use stm32f429_adbd.Rings.{member, unlink, remove_socket}
use stm32f429_adbd.Socket.{
  locked, run_close, local_socket_close_locked, finish_close, local_socket_destroy, detach,
  peer_entry,
}
use stm32f429_adbd.Socket.Calm.{
  unlink-member, finish_close-IsCalm, cut_local-IsCalm, detach-IsCalm, run_close-IsCalm,
}
use stm32f429_adbd.Socket.Fuel.{run_close_total}

-- `transport == t`
unfoldable pub is_of : ℕ → Option ℕ → Bool
is_of t none = false
is_of t (some u) = u == t

-- `s->peer && s->peer->transport == t`
unfoldable pub peer_is_of : ℕ → Option ℕ → M Bool
peer_is_of t none = pure false
peer_is_of t (some p) = do y ← load p; pure (is_of t y.transport)

unfoldable pub belongs_to : ℕ → Socket → M Bool
belongs_to t s = elim (is_of t s.transport) [ true ↦ pure true | false ↦ peer_is_of t s.peer ]

unfoldable pub pick : ℕ → M (Option ℕ) → Bool → M (Option ℕ)
pick s next true = pure (some s)
pick s next false = next

-- The `for` loop, from a place of the ring on: the first socket that belongs to the transport.
unfoldable pub find_owned : ℕ → List ℕ → M (Option ℕ)
find_owned t [] = pure none
find_owned t (s ∷ ring) = do
  x ← load s
  is_owned ← belongs_to t x
  pick s (find_owned t ring) is_owned

-- What follows the loop: `next` is the next round.
unfoldable pub close_found : M (Unit {0}) → Option ℕ → M (Unit {0})
close_found next none = skip
close_found next (some s) = do run_close 2 locked s; next

-- From `restart` on, with at most that many rounds. `local_socket_close_locked` goes to a depth of
-- two, as every close.
unfoldable pub sweep : ℕ → ℕ → M (Unit {0})
sweep zero t = λ σ. no_fuel
sweep (suc n) t = do
  ring ← gets (λ σ. σ.locals)
  found ← find_owned t ring
  close_found (sweep n t) found

unfoldable pub close_all_sockets : ℕ → ℕ → M (Unit {0})
close_all_sockets n t = do lock; sweep n t; unlock
