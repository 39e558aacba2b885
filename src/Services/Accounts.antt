-- ===== src/Services/Accounts.antt =====
-- Who owns each descriptor that a service was started with, adbd/src/services.c and
-- adbd/src/backup_service.c.
use stm32f429_adbd.Common.{
  ℕ, ◌+◌, ◌≡◌, Bool, true, false, Option, none, some, List, [], ◌∷◌, ◌++◌, if◌then◌else◌, ◌==◌,
  arith,
}
use stm32f429_adbd.Services.{
  Thread, service, subproc_waiter, backup_child_waiter, Kernel, Process, Fds, no_fds, same, two,
  fds_of_pair, fds_of_one, new_pipe, new_fd, asks, adb_close, create_thread, fds_of, connect,
}

-- How often a descriptor is in a list.
unfoldable pub count : ℕ → List ℕ → ℕ
count x [] = 0
count x (y ∷ ys) = (if y == x then 1 else 0) + count x ys

pub count-append : (x : ℕ) (xs ys : List ℕ) → count x (xs ++ ys) ≡ count x xs + count x ys
unfolding count
count-append x [] ys = omega arith
count-append x (y ∷ xs) ys = omega (arith, count-append x xs ys)

-- The descriptors that the threads close before they end.
abbrev pub owned : {Z : Type 0} → List (Thread Z) → List ℕ
owned [] = []
owned (service func rfd wfd ∷ ts) = rfd ∷ wfd ∷ owned ts
owned (subproc_waiter fd pid ∷ ts) = owned ts
owned (backup_child_waiter pid fd ∷ ts) = fd ∷ owned ts

-- The descriptors that the caller gets.
abbrev pub given : Fds → List ℕ
given no_fds = []
given (same fd) = fd ∷ []
given (two a b) = a ∷ b ∷ []

-- Each descriptor that was opened is closed, a thread's, or held by the caller, as often as opened.
abbrev pub IsAccounted : {D Z : Type 0} → List ℕ → Process D Z → Type 0
IsAccounted held s =
    (x : ℕ) → count x s.opened ≡ count x s.closed + count x (owned s.threads) + count x held

module _ {D Z : Type 0} (k : Kernel D Z) where
  pub new_pipe-IsAccounted :
      (held : List ℕ) (s : Process D Z)
      → IsAccounted held s
      → IsAccounted (held ++ fds_of_pair k (new_pipe k s).0) (new_pipe k s).1
  unfolding new_pipe
  new_pipe-IsAccounted held s h x = omega (
    arith,
    h x,
    count-append x s.opened (fds_of_pair k (k.pipe s.world).0),
    count-append x held (fds_of_pair k (k.pipe s.world).0),
  )

  pub new_fd-IsAccounted :
      (call : D → Option ℕ × D) (s : Process D Z)
      → IsAccounted [] s
      → IsAccounted (fds_of_one k (new_fd k call s).0) (new_fd k call s).1
  unfolding new_fd count
  new_fd-IsAccounted call s h x =
      omega (arith, h x, count-append x s.opened (fds_of_one k (call s.world).0))

  -- Closing a descriptor that is held somewhere in the list.
  pub adb_close-IsAccounted :
      (fd : ℕ) (before after : List ℕ) (s : Process D Z)
      → IsAccounted (before ++ (fd ∷ after)) s
      → IsAccounted (before ++ after) (adb_close k fd s).1
  unfolding adb_close count
  adb_close-IsAccounted fd before after s h x = omega (
    arith,
    h x,
    count-append x before (fd ∷ after),
    count-append x before after,
    count-append x s.closed (fd ∷ []),
  )

  pub connect-IsAccounted :
      (call : D → Option ℕ × D) (s : Process D Z)
      → IsAccounted [] s
      → IsAccounted (given (connect k call s).0) (connect k call s).1
  unfolding connect fds_of
  connect-IsAccounted call s h =
      by_reply (new_fd k call s).0 (new_fd k call s).1 (new_fd-IsAccounted call s h)
    where
      by_reply :
          (r : Option ℕ) (s : Process D Z)
          → IsAccounted (fds_of_one k r) s
          → IsAccounted (given (fds_of k r)) s
      by_reply none s h = h
      by_reply (some fd) s h = h

  -- A thread that starts takes what is its own out of what is held.
  pub create_thread-IsAccounted :
      (t : Thread Z) (held rest : List ℕ) (s : Process D Z)
      → ((x : ℕ) → count x held ≡ count x (owned (t ∷ [])) + count x rest)
      → IsAccounted held s
      → IsAccounted (if (create_thread k t s).0 then rest else held) (create_thread k t s).1
  unfolding create_thread count
  create_thread-IsAccounted t held rest s split h = by_reply (k.thread_create t s.world).0
    where
      own :
          (t : Thread Z) (ts : List (Thread Z)) (x : ℕ)
          → count x (owned (t ∷ ts)) ≡ count x (owned (t ∷ [])) + count x (owned ts)
      own (service func rfd wfd) ts x = omega arith
      own (subproc_waiter fd pid) ts x = omega arith
      own (backup_child_waiter pid fd) ts x = omega arith

      by_reply :
          (r : Bool)
          → IsAccounted (if r then rest else held) (record s {
            world = (k.thread_create t s.world).1;
            threads = if r then t ∷ s.threads else s.threads;
          })
      by_reply true x = omega (arith, h x, split x, own t s.threads x)
      by_reply false x = h x

  pub asks-IsAccounted :
      {A : Type 0} (held : List ℕ) (call : D → A × D) (s : Process D Z)
      → IsAccounted held s
      → IsAccounted held (asks k call s).1
  unfolding asks
  asks-IsAccounted held call s h x = h x
