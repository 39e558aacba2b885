-- ===== src/FileSync/Receiving.antt =====
-- That the answers to STAT, LIST and RECV end, close what they opened, and stay in the buffer,
-- adbd/src/file_sync_service.c.
use stm32f429_adbd.Common.{
  ℕ, zero, suc, ◌-◌, ◌≤◌, ◌≡◌, ◌≢◌, refl, ap, Bool, true, false, Option, none, some, List, [], ◌∷◌,
  ◌++◌, leb, ◌==◌, length, arith, if-branches, ==_iff, subst,
}
use stm32f429_adbd.Common.Words.{word_bytes}
use stm32f429_adbd.FileSync.{
  sync_data_max, eintr, Call, done, denied, Stat, System, Sync, Return, no_fuel, Prog, on_disk,
}
use stm32f429_adbd.FileSync.Serve.{
  return_of, stat_or, do_stat, send_entry, list_entry, if_whole, list_entries, names_of, do_list,
  after_send, give_up, on_read, send_file, after_open_read, do_recv,
}
use stm32f429_adbd.FileSync.Invariant.{
  IsSound, IsSound-weaken, store_buffer-IsSound, writex_pipe-IsSound, writex_both-IsSound,
  writex_both-true, on_disk-IsSound, fd_of, note_open-IsSound, fail_errno-IsSound,
  adb_close-IsSound,
}
use stm32f429_adbd.FileSync.Opening.{Keeps, Ends}

return_of-ne : (r : Bool) → return_of r ≢ no_fuel
unfolding return_of
return_of-ne true e = ground (arith, e)
return_of-ne false e = ground (arith, e)

module _ {D : Type 0} where
  -- What the reads of a file return: at most as much as asked, and no interruption.
  pub record IsReading (sys : System D) : Type 0 where
    pub short :
        (fd len : ℕ) (d : D) (b : List ℕ) → (sys.read_some fd len d).0 ≡ done b → length b ≤ len
    pub steady : (fd len : ℕ) (d : D) → (sys.read_some fd len d).0 ≢ denied eintr

  module _ (sys : System D) where
    pub do_stat-Ends : (n : ℕ) (path : List ℕ) → Ends [] n (do_stat sys path)
    unfolding do_stat
    do_stat-Ends n path s i = (
      return_of-ne _,
      writex_pipe-IsSound [] n _ _ (on_disk-IsSound [] n (λ d. (stat_or sys path d, d)) s i),
    )

    send_entry-Keeps :
        (n : ℕ) (name : List ℕ) (st : Option Stat) → Keeps [] n (send_entry sys name st)
    unfolding send_entry
    send_entry-Keeps n name none s i = i
    send_entry-Keeps n name (some st) s i = writex_both-IsSound [] n _ name s i

    list_entry-Keeps : (n : ℕ) (path name : List ℕ) → Keeps [] n (list_entry sys path name)
    unfolding list_entry
    list_entry-Keeps n path name =
        if-branches (Keeps [] n) (leb 256 (length name)) (λ _ s i. i)
          (λ _ s i.
            send_entry-Keeps n name _ _
              (on_disk-IsSound [] n (λ d. (sys.lstat (path ++ (b'/' ∷ name)) d, d)) s i))

    if_whole-Keeps :
        (n : ℕ) (next : Prog D Bool) (r : Bool) → Keeps [] n next → Keeps [] n (if_whole sys next r)
    unfolding if_whole
    if_whole-Keeps n next false k s i = i
    if_whole-Keeps n next true k s i = k s i

    list_entries-Keeps :
        (n : ℕ) (path : List ℕ) (names : List (List ℕ)) → Keeps [] n (list_entries sys path names)
    unfolding list_entries
    list_entries-Keeps n path [] s i = i
    list_entries-Keeps n path (name ∷ names) s i =
        if_whole-Keeps n (list_entries sys path names) _ (list_entries-Keeps n path names) _
          (list_entry-Keeps n path name s i)

    pub do_list-Ends : (n : ℕ) (path : List ℕ) → Ends [] n (do_list sys path)
    unfolding do_list
    do_list-Ends n path s i = (
      return_of-ne _,
      if_whole-Keeps n _ _ (λ s. writex_pipe-IsSound [] n _ s) _
          (list_entries-Keeps n path _ _
            (on_disk-IsSound [] n (λ d. (names_of sys path d, d)) s i)),
    )

    after_send-Ends :
        (n k fd : ℕ) (next : Prog D Return) (r : Bool) (s : Sync D)
        → IsSound (fd ∷ []) n s
        → (r ≡ true → (suc k ≤ n) × IsSound (fd ∷ []) (n - suc k) s)
        → ((m : ℕ) → n ≡ suc m → Ends (fd ∷ []) m next)
        → ((after_send sys next fd r s).0 ≢ no_fuel) × IsSound [] n (after_send sys next fd r s).1
    unfolding after_send
    after_send-Ends n k fd next false s i j rest =
        (λ e. ground (arith, e), adb_close-IsSound sys n fd s i)
    after_send-Ends zero k fd next true s i j rest = absurd (omega (arith, (j refl).0))
    after_send-Ends (suc n) k fd next true s i j rest =
        let (returned, h) =
          rest n refl s (IsSound-weaken (fd ∷ []) _ n s (omega arith) (j refl).1) in
        (returned, IsSound-weaken [] n (suc n) _ (omega arith) h)

    give_up-Ends : (n fd errno : ℕ) → Ends (fd ∷ []) n (give_up sys fd errno)
    unfolding give_up
    give_up-Ends n fd errno s i = (
      return_of-ne _,
      adb_close-IsSound sys n fd _ (fail_errno-IsSound sys (fd ∷ []) n errno s i),
    )

    on_read-Ends :
        (n fd : ℕ) (next : Prog D Return) (r : Call (List ℕ))
        → ((b : List ℕ) → r ≡ done b → length b ≤ sync_data_max)
        → r ≢ denied eintr
        → ((m : ℕ) → n ≡ suc m → Ends (fd ∷ []) m next)
        → Ends (fd ∷ []) n (on_read sys next fd r)
    unfolding on_read word_bytes
    on_read-Ends n fd next (done []) short steady rest s i =
        (return_of-ne _, writex_pipe-IsSound [] n _ _ (adb_close-IsSound sys n fd s i))
    on_read-Ends n fd next (done (c ∷ b)) short steady rest s i =
        let kept = store_buffer-IsSound (fd ∷ []) n s (c ∷ b) (short (c ∷ b) refl) i in
        after_send-Ends n 7 fd next _ _ (writex_both-IsSound (fd ∷ []) n _ (c ∷ b) _ kept)
          (λ e. writex_both-true (fd ∷ []) n _ (c ∷ b) _ e kept) rest
    on_read-Ends n fd next (denied errno) short steady rest s i =
        if-branches (Ends (fd ∷ []) n) (errno == eintr) {x = next} {y = give_up sys fd errno}
          (λ e. absurd (steady (ap denied ((==_iff _ _).0 e)))) (λ _. give_up-Ends n fd errno) s i

    -- Each round that goes on has written at least a header, so that room bounds the rounds.
    send_file-Ends : IsReading sys → (n fd : ℕ) → Ends (fd ∷ []) n (send_file sys (suc n) fd)
    unfolding send_file on_disk
    send_file-Ends reading zero fd s i =
        on_read-Ends zero fd (send_file sys zero fd) _ (reading.short fd sync_data_max s.disk)
          (reading.steady fd sync_data_max s.disk) (λ m e. absurd (omega (arith, e))) _
          (on_disk-IsSound (fd ∷ []) zero (sys.read_some fd sync_data_max) s i)
    send_file-Ends reading (suc n) fd s i =
        on_read-Ends (suc n) fd (send_file sys (suc n) fd) _ (reading.short fd sync_data_max s.disk)
          (reading.steady fd sync_data_max s.disk)
          (λ m e.
            subst (λ k. Ends (fd ∷ []) k (send_file sys (suc n) fd)) (omega (arith, e))
              (send_file-Ends reading n fd))
          _ (on_disk-IsSound (fd ∷ []) (suc n) (sys.read_some fd sync_data_max) s i)

    after_open_read-Ends :
        IsReading sys → (n : ℕ) (r : Call ℕ) → Ends (fd_of r) n (after_open_read sys (suc n) r)
    unfolding after_open_read
    after_open_read-Ends reading n (done fd) s i = send_file-Ends reading n fd s i
    after_open_read-Ends reading n (denied errno) s i =
        (return_of-ne _, fail_errno-IsSound sys [] n errno s i)

    pub do_recv-Ends :
        IsReading sys → (n : ℕ) (path : List ℕ) → Ends [] n (do_recv sys (suc n) path)
    unfolding do_recv
    do_recv-Ends reading n path s i =
        after_open_read-Ends reading n _ _
          (note_open-IsSound n _ _ (on_disk-IsSound [] n (sys.open_read path) s i))
