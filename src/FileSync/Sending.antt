-- ===== src/FileSync/Sending.antt =====
-- That the functions of a SEND request end, close what they opened, and stay in the buffer,
-- adbd/src/file_sync_service.c.
use stm32f429_adbd.Common.{
  ℕ, zero, suc, ◌-◌, Bool, true, false, not, Option, none, some, List, [], ◌∷◌, ltb, ◌==◌, arith,
  if-branches, inl, inr,
}
use stm32f429_adbd.Common.Words.{word_at}
use stm32f429_adbd.FileSync.{
  sync_data_max, id_data, id_done, enoent, Call, done, denied, System, Sync, Return, c_string, Prog,
}
use stm32f429_adbd.FileSync.Send.{
  Chunk, lost, bad, oversize, finished, bytes, abandon, finish, still_open, after_file_write,
  write_chunk, after_chunk, on_chunk, receive_file, unopened, after_open, handle_send_file,
  link_done, after_symlink, symlink_buffer, symlink_again, make_link, link_target, link_header,
  handle_send_link, split_mode, spread_mode, do_send,
}
use stm32f429_adbd.FileSync.Invariant.{
  IsSound, IsSound-weaken, readx_pipe-IsSound, readx_buffer-IsSound, fail_message-IsSound,
  on_disk-IsSound, fd_of, fail_errno-IsSound, adb_close-IsSound, adb_unlink-IsSound,
}
use stm32f429_adbd.FileSync.Opening.{
  Keeps, Ends, held_of, kept_of, send_okay-Ends, fail_with-Ends, read_chunk-Keeps,
  read_chunk-IsSound, mkdirs-Keeps, open_target-IsSound,
}

module _ {D : Type 0} (sys : System D) where
  abandon-Ends : (n : ℕ) (path : List ℕ) (fd : Option ℕ) → Ends (held_of fd) n (abandon sys path fd)
  unfolding abandon
  abandon-Ends n path none s i = (λ e. ground (arith, e), adb_unlink-IsSound sys [] n path s i)
  abandon-Ends n path (some fd) s i =
      (λ e. ground (arith, e), adb_unlink-IsSound sys [] n path _ (adb_close-IsSound sys n fd s i))

  finish-Ends :
      (n : ℕ) (path : List ℕ) (fd : Option ℕ) (timestamp : ℕ)
      → Ends (held_of fd) n (finish sys path fd timestamp)
  unfolding finish
  finish-Ends n path none timestamp s i = (λ e. ground (arith, e), i)
  finish-Ends n path (some fd) timestamp s i = send_okay-Ends n _ (
      on_disk-IsSound [] n (λ d. (tt, sys.utime path timestamp d)) _
        (adb_close-IsSound sys n fd s i))

  still_open-IsSound :
      (n : ℕ) (told : Bool) (s : Sync D)
      → IsSound [] n s
      → IsSound (kept_of (still_open sys told s).0) n s
  unfolding still_open
  still_open-IsSound n true s i = i
  still_open-IsSound n false s i = i

  after_file_write-IsSound :
      (n : ℕ) (path : List ℕ) (fd : ℕ) (r : Call (Unit {0})) (s : Sync D)
      → IsSound (fd ∷ []) n s
      → IsSound
          (kept_of (after_file_write sys path fd r s).0)
          n
          (after_file_write sys path fd r s).1
  unfolding after_file_write still_open
  after_file_write-IsSound n path fd (done _) s i = i
  after_file_write-IsSound n path fd (denied errno) s i = still_open-IsSound n _ _ (
      fail_errno-IsSound sys [] n errno _
        (adb_unlink-IsSound sys [] n path _ (adb_close-IsSound sys n fd s i)))

  write_chunk-IsSound :
      (n : ℕ) (path : List ℕ) (fd : Option ℕ) (b : List ℕ) (s : Sync D)
      → IsSound (held_of fd) n s
      → IsSound (kept_of (write_chunk sys path fd b s).0) n (write_chunk sys path fd b s).1
  unfolding write_chunk
  write_chunk-IsSound n path none b s i = i
  write_chunk-IsSound n path (some fd) b s i =
      after_file_write-IsSound n path fd _ _ (on_disk-IsSound (fd ∷ []) n (sys.write_all fd b) s i)

  after_chunk-Ends :
      (n : ℕ) (next : Option ℕ → Prog D Return) (r : Option (Option ℕ))
      → ((fd : Option ℕ) → Ends (held_of fd) n (next fd))
      → Ends (kept_of r) n (after_chunk sys next r)
  unfolding after_chunk
  after_chunk-Ends n next none k s i = (λ e. ground (arith, e), i)
  after_chunk-Ends n next (some fd) k s i = k fd s i

  on_chunk-Ends :
      (n : ℕ) (next : Option ℕ → Prog D Return) (path : List ℕ) (fd : Option ℕ) (chunk : Chunk)
      → ((fd : Option ℕ) → Ends (held_of fd) n (next fd))
      → Ends (held_of fd) n (on_chunk sys next path fd chunk)
  unfolding on_chunk
  on_chunk-Ends n next path fd lost k s i = abandon-Ends n path fd s i
  on_chunk-Ends n next path fd bad k s i =
      abandon-Ends n path fd _ (fail_message-IsSound (held_of fd) n _ s i)
  on_chunk-Ends n next path fd oversize k s i =
      abandon-Ends n path fd _ (fail_message-IsSound (held_of fd) n _ s i)
  on_chunk-Ends n next path fd (finished timestamp) k s i = finish-Ends n path fd timestamp s i
  on_chunk-Ends n next path fd (bytes b) k s i =
      after_chunk-Ends n next _ k _ (write_chunk-IsSound n path fd b s i)

  -- One message of fuel more than there are bytes to come is enough.
  receive_file-Ends :
      (n : ℕ) (path : List ℕ) (fd : Option ℕ)
      → Ends (held_of fd) n (receive_file sys (suc n) path fd)
  unfolding receive_file on_chunk
  receive_file-Ends zero path fd s i = elim (read_chunk-IsSound (held_of fd) zero s i) [
    | inl e ↦
        rw (e, on_chunk) (abandon-Ends zero path fd _ (read_chunk-Keeps (held_of fd) zero s i))
    | inr (h, j) ↦ absurd (omega (arith, h))
  ]
  receive_file-Ends (suc n) path fd s i = elim (read_chunk-IsSound (held_of fd) (suc n) s i) [
    | inl e ↦
        rw (e, on_chunk)
          (abandon-Ends (suc n) path fd _ (read_chunk-Keeps (held_of fd) (suc n) s i))
    | inr (h, j) ↦
        let (returned, k) =
          on_chunk-Ends n (receive_file sys (suc n) path) path fd _ (receive_file-Ends n path) _
            (IsSound-weaken (held_of fd) (suc n - 8) n _ (omega arith) j) in
        (returned, IsSound-weaken [] n (suc n) _ (omega arith) k)
  ]

  unopened-Ends :
      (n : ℕ) (loop : Option ℕ → Prog D Return) (told : Bool)
      → ((fd : Option ℕ) → Ends (held_of fd) n (loop fd))
      → Ends [] n (unopened sys loop told)
  unfolding unopened
  unopened-Ends n loop false k s i = (λ e. ground (arith, e), i)
  unopened-Ends n loop true k s i = k none s i

  after_open-Ends :
      (n : ℕ) (loop : Option ℕ → Prog D Return) (r : Call ℕ)
      → ((fd : Option ℕ) → Ends (held_of fd) n (loop fd))
      → Ends (fd_of r) n (after_open sys loop r)
  unfolding after_open
  after_open-Ends n loop (done fd) k s i = k (some fd) s i
  after_open-Ends n loop (denied errno) k s i =
      unopened-Ends n loop _ k _ (fail_errno-IsSound sys [] n errno s i)

  handle_send_file-Ends :
      (n : ℕ) (path : List ℕ) (mode : ℕ) → Ends [] n (handle_send_file sys (suc n) path mode)
  unfolding handle_send_file
  handle_send_file-Ends n path mode s i =
      after_open-Ends n (receive_file sys (suc n) path) _ (receive_file-Ends n path) _
        (open_target-IsSound sys n path mode s i)

  link_done-Ends : (n : ℕ) (r : Option (List ℕ)) → Ends [] n (link_done sys r)
  unfolding link_done
  link_done-Ends n none s i = (λ e. ground (arith, e), i)
  link_done-Ends n (some m) s i =
      if-branches (Ends [] n) (word_at m 0 == id_done) (λ _. send_okay-Ends n)
        (λ _. fail_with-Ends n _) s i

  after_symlink-Ends : (n : ℕ) (r : Call (Unit {0})) → Ends [] n (after_symlink sys r)
  unfolding after_symlink
  after_symlink-Ends n (denied errno) s i =
      (λ e. ground (arith, e), fail_errno-IsSound sys [] n errno s i)
  after_symlink-Ends n (done _) s i = link_done-Ends n _ _ (readx_pipe-IsSound [] n 8 s i)

  symlink_buffer-Keeps : (n : ℕ) (path : List ℕ) → Keeps [] n (symlink_buffer sys path)
  unfolding symlink_buffer
  symlink_buffer-Keeps n path s i = on_disk-IsSound [] n (sys.symlink (c_string s.buffer) path) s i

  symlink_again-Keeps :
      (n : ℕ) (path : List ℕ) (r : Call (Unit {0})) → Keeps [] n (symlink_again sys path r)
  unfolding symlink_again
  symlink_again-Keeps n path (done _) s i = i
  symlink_again-Keeps n path (denied errno) s i =
      if-branches (Keeps [] n) (errno == enoent)
        (λ _ s i. symlink_buffer-Keeps n path _ (mkdirs-Keeps sys [] n path s i)) (λ _ s i. i) s i

  make_link-Ends : (n : ℕ) (path : List ℕ) (r : Option (List ℕ)) → Ends [] n (make_link sys path r)
  unfolding make_link
  make_link-Ends n path none s i = (λ e. ground (arith, e), i)
  make_link-Ends n path (some _) s i =
      after_symlink-Ends n _ _ (symlink_again-Keeps n path _ _ (symlink_buffer-Keeps n path s i))

  link_header-Ends :
      (n : ℕ) (path : List ℕ) (r : Option (List ℕ)) → Ends [] n (link_header sys path r)
  unfolding link_header link_target
  link_header-Ends n path none s i = (λ e. ground (arith, e), i)
  link_header-Ends n path (some m) s i =
      if-branches (Ends [] n) (not (word_at m 0 == id_data)) (λ _. fail_with-Ends n _)
        (λ _.
          if-branches (Ends [] n) (ltb sync_data_max (word_at m 4)) (λ _. fail_with-Ends n _)
            (λ h s i.
              make_link-Ends n path _ _
                (readx_buffer-IsSound [] n (word_at m 4) s (ground (arith, h)) i)))
        s i

  handle_send_link-Ends : (n : ℕ) (path : List ℕ) → Ends [] n (handle_send_link sys path)
  unfolding handle_send_link
  handle_send_link-Ends n path s i = link_header-Ends n path _ _ (readx_pipe-IsSound [] n 8 s i)

  pub do_send-Ends : (n : ℕ) (path : List ℕ) → Ends [] n (do_send sys (suc n) path)
  unfolding do_send
  do_send-Ends n path s i =
      let (name, mode, is_link) = split_mode sys path in
      if-branches (Ends [] n) is_link {x = handle_send_link sys name}
        {y = handle_send_file sys (suc n) name (spread_mode sys mode)}
        (λ _. handle_send_link-Ends n name)
        (λ _. handle_send_file-Ends n name (spread_mode sys mode)) _
        (adb_unlink-IsSound sys [] n name s i)
