-- ===== src/Rings.antt =====
-- The rings on which a socket can stand, and the identifiers, adbd/src/sockets.c. A ring linked by
-- `next` and `prev` is the list of its members from the head on.
pub mod Identifiers
use stm32f429_adbd.Common.{
  ℕ, zero, suc, ◌+◌, ◌%◌, Bool, true, false, ◌||◌, Option, none, some, List, [], ◌∷◌, ◌++◌, ◌==◌,
  if◌then◌else◌,
}
use stm32f429_adbd.Common.Words.{add32}
use stm32f429_adbd.Engine.{Socket, State}
use stm32f429_adbd.Engine.Monad.{
  M, ok, crash, ◌>>=◌, ◌>>◌, pure, skip, gets, load, store, modify, lock, unlock, update,
}

-- Whether the ring holds the socket.
unfoldable pub member : ℕ → List ℕ → Bool
member s [] = false
member s (x ∷ ring) = x == s || member s ring

-- The ring without the socket.
unfoldable pub unlink : ℕ → List ℕ → List ℕ
unlink s [] = []
unlink s (x ∷ ring) = if x == s then ring else x ∷ unlink s ring

-- The loop of `find_local_socket`, from a place of the ring on.
unfoldable pub find_from : ℕ → List ℕ → M (Option ℕ)
find_from id [] = pure none
find_from id (x ∷ ring) = do s ← load x; if s.id == id then pure (some x) else find_from id ring

unfoldable pub find_local_socket : ℕ → M (Option ℕ)
find_local_socket id = do
  lock
  ring ← gets (λ s. s.locals)
  result ← find_from id ring
  unlock
  pure result

abbrev pub set_locals : (List ℕ → List ℕ) → M (Unit {0})
set_locals f s = ok tt (record s { locals = f s.locals })

abbrev pub set_closings : (List ℕ → List ℕ) → M (Unit {0})
set_closings f s = ok tt (record s { closings = f s.closings })

-- `s->id = local_socket_next_id++`
abbrev next_socket_id : M ℕ
next_socket_id s = ok s.next_id (record s { next_id = add32 s.next_id 1 })

unfoldable pub install_local_socket : ℕ → M (Unit {0})
install_local_socket p = do
  lock
  id ← next_socket_id
  modify p (λ x. record x { id = id })
  set_locals (λ ring. ring ++ (p ∷ []))
  unlock

-- `s->prev && s->next` holds of a socket that stands on a ring.
unfoldable pub remove_socket : ℕ → M (Unit {0})
unfolding member unlink
remove_socket p = do
  linked ← gets (λ s. member p s.locals || member p s.closings)
  if linked
      then (do set_locals (unlink p); set_closings (unlink p); modify p (λ x. record x { id = 0 }))
      else skip
