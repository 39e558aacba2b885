-- ===== src/Orderly/Sweep.antt =====
-- `close_all_sockets` of adbd/src/sockets.c, and the ring of local sockets.
use stm32f429_adbd.Common.{
  ℕ, zero, suc, Bool, true, false, Option, none, some, List, [], ◌∷◌, arith,
}
use stm32f429_adbd.Engine.{Socket}
use stm32f429_adbd.Engine.Monad.{M, pure}
use stm32f429_adbd.Socket.{locked}
use stm32f429_adbd.Socket.Sweep.{
  is_of, peer_is_of, belongs_to, pick, find_owned, close_found, sweep, close_all_sockets,
}
use stm32f429_adbd.Orderly.{Tidy, ◌▷◌, Tidy-pure}
use stm32f429_adbd.Orderly.Basic.{IsAside-Tidy, load-Tidy, lock-Tidy}
use stm32f429_adbd.Orderly.Closing.{unlock-Tidy, run_close-Tidy}
use stm32f429_adbd.Orderly.Delivery.{gets-Tidy}

module _ (k t : ℕ) where
  belongs-Tidy : (x : Socket) → Tidy k (belongs_to t x)
  unfolding belongs_to peer_is_of
  belongs-Tidy x = by_transport (is_of t x.transport) x.peer
    where
      by_peer : (peer : Option ℕ) → Tidy k (peer_is_of t peer)
      by_peer none = Tidy-pure false
      by_peer (some p) = load-Tidy k p ▷ λ y. Tidy-pure (is_of t y.transport)

      by_transport :
          (own : Bool) (peer : Option ℕ)
          → Tidy k (elim own [ true ↦ pure true | false ↦ peer_is_of t peer ])
      by_transport true peer = Tidy-pure true
      by_transport false peer = by_peer peer

  pick-Tidy : (s : ℕ) (next : M (Option ℕ)) (own : Bool) → Tidy k next → Tidy k (pick s next own)
  unfolding pick
  pick-Tidy s next true tidy = Tidy-pure (some s)
  pick-Tidy s next false tidy = tidy

  find_owned-Tidy : (ring : List ℕ) → Tidy k (find_owned t ring)
  unfolding find_owned
  find_owned-Tidy [] = Tidy-pure none
  find_owned-Tidy (s ∷ ring) = load-Tidy k s ▷ λ x.
      belongs-Tidy x ▷ λ own. pick-Tidy s (find_owned t ring) own (find_owned-Tidy ring)

  close_found-Tidy :
      (next : M (Unit {0})) (o : Option ℕ) → Tidy k next → Tidy k (close_found next o)
  unfolding close_found
  close_found-Tidy next none tidy = Tidy-pure tt
  close_found-Tidy next (some s) tidy = run_close-Tidy 2 k locked s ▷ λ _. tidy

  sweep-Tidy : (n : ℕ) → Tidy k (sweep n t)
  unfolding sweep
  sweep-Tidy zero = IsAside-Tidy k _ λ σ a σ' h. ground arith
  sweep-Tidy (suc n) = gets-Tidy k (λ σ. σ.locals) ▷ λ ring.
      find_owned-Tidy ring ▷ λ found. close_found-Tidy (sweep n t) found (sweep-Tidy n)

  pub close_all_sockets-Tidy : (n : ℕ) → Tidy k (close_all_sockets n t)
  unfolding close_all_sockets
  close_all_sockets-Tidy n = lock-Tidy k ▷ λ _. sweep-Tidy n ▷ λ _. unlock-Tidy k
