-- ===== src/FileSync/Invariant.antt =====
-- What every operation of the sync service keeps, adbd/src/file_sync_service.c: the descriptors
-- that are open, the size of the buffer, and a bound on what is still to come and to go.
use stm32f429_adbd.Common.{
  ℕ, ◌+◌, ◌-◌, ◌≤◌, ◌≡◌, refl, sym, ap, ◌∙◌, Bool, true, false, Option, none, some, List, [], ◌∷◌,
  ◌++◌, length, drop, arith, length-append, length-take, length-drop, append-nil,
}
use stm32f429_adbd.FileSync.{
  sync_data_max, Call, done, denied, System, Sync, readx_pipe, keep_bytes, readx_buffer,
  store_buffer, writex_pipe, writex_next, writex_both, fail_message, on_disk, note_open, fail_errno,
  adb_close, adb_unlink, adb_open_mode,
}

-- The descriptor that a call of open returns.
abbrev pub fd_of : Call ℕ → List ℕ
fd_of (done fd) = fd ∷ []
fd_of (denied errno) = []

module _ {D : Type 0} where
  -- The descriptors of `held` are open, the buffer has its size, and at most n bytes can still come
  -- from one end of the pipes and go to the other.
  pub record IsSound (held : List ℕ) (n : ℕ) (s : Sync D) : Type 0 where
    pub balance : s.opened ≡ s.closed ++ held
    pub size : length s.buffer ≡ sync_data_max
    pub bound : length s.incoming + s.room ≤ n

  pub IsSound-weaken :
      (held : List ℕ) (m n : ℕ) (s : Sync D) → m ≤ n → IsSound held m s → IsSound held n s
  IsSound-weaken held m n s h i = record {
    balance = i.balance;
    size = i.size;
    bound = omega (arith, h, i.bound);
  }

  pub readx_pipe-IsSound :
      (held : List ℕ) (n len : ℕ) (s : Sync D)
      → IsSound held n s
      → IsSound held n (readx_pipe len s).1
  unfolding readx_pipe
  readx_pipe-IsSound held n len s i = ground (arith, i, length-drop len s.incoming)

  -- Bytes that were read do not come again.
  pub readx_pipe-some :
      (held : List ℕ) (n len : ℕ) (s : Sync D) (b : List ℕ)
      → (readx_pipe len s).0 ≡ some b
      → IsSound held n s
      → (length b ≡ len) × (len ≤ n) × IsSound held (n - len) (readx_pipe len s).1
  unfolding readx_pipe
  readx_pipe-some held n len s b e i =
      ground (arith, e, i, length-take len s.incoming, length-drop len s.incoming)

  pub store_buffer-IsSound :
      (held : List ℕ) (n : ℕ) (s : Sync D) (b : List ℕ)
      → length b ≤ sync_data_max
      → IsSound held n s
      → IsSound held n (store_buffer b s).1
  store_buffer-IsSound held n s b h i = record {
    balance = i.balance;
    size = omega (
      arith,
      h,
      i.size,
      length-append b (drop (length b) s.buffer),
      length-drop (length b) s.buffer,
    );
    bound = i.bound;
  }

  pub readx_buffer-IsSound :
      (held : List ℕ) (n len : ℕ) (s : Sync D)
      → len ≤ sync_data_max
      → IsSound held n s
      → IsSound held n (readx_buffer len s).1
  unfolding readx_buffer keep_bytes
  readx_buffer-IsSound held n len s h i =
      keeps (readx_pipe len s).0 (readx_pipe-some held n len s) (readx_pipe-IsSound held n len s i)
    where
      keeps :
          (r : Option (List ℕ))
          → ((b : List ℕ)
              → r ≡ some b
              → IsSound held n s
              → (length b ≡ len) × (len ≤ n) × IsSound held (n - len) (readx_pipe len s).1)
          → IsSound held n (readx_pipe len s).1
          → IsSound held n (keep_bytes r (readx_pipe len s).1).1
      keeps none some_ j = j
      keeps (some b) some_ j =
          store_buffer-IsSound held n (readx_pipe len s).1 b (omega (arith, h, (some_ b refl i).0))
            j

  pub writex_pipe-IsSound :
      (held : List ℕ) (n : ℕ) (b : List ℕ) (s : Sync D)
      → IsSound held n s
      → IsSound held n (writex_pipe b s).1
  unfolding writex_pipe
  writex_pipe-IsSound held n b s i = ground (arith, i)

  -- A write that succeeds uses up the room of its bytes.
  pub writex_pipe-true :
      (held : List ℕ) (n : ℕ) (b : List ℕ) (s : Sync D)
      → (writex_pipe b s).0 ≡ true
      → IsSound held n s
      → (length b ≤ n) × IsSound held (n - length b) (writex_pipe b s).1
  unfolding writex_pipe
  writex_pipe-true held n b s e i = ground (arith, e, i)

  pub writex_both-IsSound :
      (held : List ℕ) (n : ℕ) (a b : List ℕ) (s : Sync D)
      → IsSound held n s
      → IsSound held n (writex_both a b s).1
  unfolding writex_both writex_next
  writex_both-IsSound held n a b s i =
      next (writex_pipe a s).0 (writex_pipe a s).1 (writex_pipe-IsSound held n a s i)
    where
      next : (r : Bool) (s : Sync D) → IsSound held n s → IsSound held n (writex_next b r s).1
      next false s j = j
      next true s j = writex_pipe-IsSound held n b s j

  -- A message is not empty, so that it uses up room.
  pub writex_both-true :
      (held : List ℕ) (n : ℕ) (a b : List ℕ) (s : Sync D)
      → (writex_both a b s).0 ≡ true
      → IsSound held n s
      → (length a ≤ n) × IsSound held (n - length a) (writex_both a b s).1
  unfolding writex_both writex_next
  writex_both-true held n a b s e i = next (writex_pipe a s).0 (writex_pipe-true held n a s) e
    where
      next :
          (r : Bool)
          → (r ≡ true
              → IsSound held n s
              → (length a ≤ n) × IsSound held (n - length a) (writex_pipe a s).1)
          → (writex_next b r (writex_pipe a s).1).0 ≡ true
          → (length a ≤ n) × IsSound held (n - length a) (writex_next b r (writex_pipe a s).1).1
      next false f e = absurd (ground (arith, e))
      next true f e = ((f refl i).0, writex_pipe-IsSound held _ b _ (f refl i).1)

  pub fail_message-IsSound :
      (held : List ℕ) (n : ℕ) (reason : List ℕ) (s : Sync D)
      → IsSound held n s
      → IsSound held n (fail_message reason s).1
  unfolding fail_message
  fail_message-IsSound held n reason s i = writex_both-IsSound held n _ reason s i

  pub on_disk-IsSound :
      {A : Type 0} (held : List ℕ) (n : ℕ) (call : D → A × D) (s : Sync D)
      → IsSound held n s
      → IsSound held n (on_disk call s).1
  unfolding on_disk
  on_disk-IsSound held n call s i = record { balance = i.balance; size = i.size; bound = i.bound }

  pub note_open-IsSound :
      (n : ℕ) (r : Call ℕ) (s : Sync D) → IsSound [] n s → IsSound (fd_of r) n (note_open r s).1
  unfolding note_open
  note_open-IsSound n (done fd) s i = record {
    balance = ap (λ x. x ++ (fd ∷ [])) (i.balance ∙ append-nil s.closed);
    size = i.size;
    bound = i.bound;
  }
  note_open-IsSound n (denied errno) s i = i

  module _ (sys : System D) where
    pub fail_errno-IsSound :
        (held : List ℕ) (n errno : ℕ) (s : Sync D)
        → IsSound held n s
        → IsSound held n (fail_errno sys errno s).1
    unfolding fail_errno
    fail_errno-IsSound held n errno s i = fail_message-IsSound held n (sys.strerror errno) s i

    pub adb_close-IsSound :
        (n fd : ℕ) (s : Sync D) → IsSound (fd ∷ []) n s → IsSound [] n (adb_close sys fd s).1
    unfolding adb_close
    adb_close-IsSound n fd s i = record {
      balance = i.balance ∙ sym (append-nil (s.closed ++ (fd ∷ [])));
      size = i.size;
      bound = i.bound;
    }

    pub adb_unlink-IsSound :
        (held : List ℕ) (n : ℕ) (path : List ℕ) (s : Sync D)
        → IsSound held n s
        → IsSound held n (adb_unlink sys path s).1
    unfolding adb_unlink
    adb_unlink-IsSound held n path s i = record {
      balance = i.balance;
      size = i.size;
      bound = i.bound;
    }

    pub adb_open_mode-IsSound :
        (n : ℕ) (path : List ℕ) (creates : Bool) (mode : ℕ) (s : Sync D)
        → IsSound [] n s
        → IsSound
            (fd_of (adb_open_mode sys path creates mode s).0)
            n
            (adb_open_mode sys path creates mode s).1
    unfolding adb_open_mode
    adb_open_mode-IsSound n path creates mode s i =
        note_open-IsSound n _ _ (on_disk-IsSound [] n (sys.open_write path creates mode) s i)
