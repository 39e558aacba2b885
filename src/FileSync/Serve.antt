-- ===== src/FileSync/Serve.antt =====
-- The requests of the sync service: `do_stat`, `do_list`, `do_recv` and the loop of
-- `file_sync_service`, adbd/src/file_sync_service.c.
use stm32f429_adbd.Common.{
  ℕ, zero, suc, Bool, true, false, Option, none, some, List, [], ◌∷◌, ◌++◌, if◌then◌else◌, leb, ltb,
  ◌==◌, length, codes,
}
use stm32f429_adbd.Common.Words.{word_bytes, word_at}
use stm32f429_adbd.FileSync.{
  sync_data_max, id_stat, id_list, id_send, id_recv, id_dent, id_done, id_data, id_quit, eintr,
  Call, done, denied, Stat, System, Return, ok_zero, minus_one, no_fuel, c_string, Prog, ◌>>=◌,
  ◌>>◌, pure, readx_pipe, store_buffer, writex_pipe, writex_both, on_disk, note_open, fail_errno,
  adb_close,
}
use stm32f429_adbd.FileSync.Send.{do_send, fail_with}

-- The return value of a function that ends with `writex`.
unfoldable pub return_of : Bool → Return
return_of true = ok_zero
return_of false = minus_one

unfoldable pub stat_bytes : Stat → List ℕ
stat_bytes st = word_bytes st.mode ++ word_bytes st.size ++ word_bytes st.mtime

abbrev pub no_stat : Stat
no_stat = record { mode = 0; size = 0; mtime = 0 }

module _ {D : Type 0} (sys : System D) where
  unfoldable pub stat_or : List ℕ → D → Stat
  stat_or path d = elim (sys.lstat path d) [ none ↦ no_stat | some st ↦ st ]

  unfoldable pub do_stat : List ℕ → Prog D Return
  do_stat path = do
    st ← on_disk (λ d. (stat_or path d, d))
    whole ← writex_pipe (word_bytes id_stat ++ stat_bytes st)
    pure (return_of whole)

  unfoldable pub send_entry : List ℕ → Option Stat → Prog D Bool
  send_entry name none = pure true
  send_entry name (some st) =
      writex_both (word_bytes id_dent ++ stat_bytes st ++ word_bytes (length name)) name

  -- A name of the directory: true unless a write failed.
  unfoldable pub list_entry : List ℕ → List ℕ → Prog D Bool
  list_entry path name =
      if leb 256 (length name)
      then pure true
      else on_disk (λ d. (sys.lstat (path ++ (b'/' ∷ name)) d, d)) >>= send_entry name

  unfoldable pub if_whole : Prog D Bool → Bool → Prog D Bool
  if_whole next false = pure false
  if_whole next true = next

  unfoldable pub list_entries : List ℕ → List (List ℕ) → Prog D Bool
  list_entries path [] = pure true
  list_entries path (name ∷ names) = do
    whole ← list_entry path name
    if_whole (list_entries path names) whole

  -- `d = opendir(path)`: no names if it fails.
  unfoldable pub names_of : List ℕ → D → List (List ℕ)
  names_of path d = elim (sys.list_dir path d) [ none ↦ [] | some names ↦ names ]

  unfoldable pub do_list : List ℕ → Prog D Return
  do_list path = do
    names ← on_disk (λ d. (names_of path d, d))
    whole ← list_entries path names
    last ← if_whole (writex_pipe (word_bytes id_done ++ stat_bytes no_stat ++ word_bytes 0)) whole
    pure (return_of last)

  unfoldable pub after_send : Prog D Return → ℕ → Bool → Prog D Return
  after_send next fd false = do adb_close sys fd; pure minus_one
  after_send next fd true = next

  unfoldable pub give_up : ℕ → ℕ → Prog D Return
  give_up fd errno = do told ← fail_errno sys errno; adb_close sys fd; pure (return_of told)

  -- One read of `do_recv` that has returned; `next` is the loop's next round.
  unfoldable pub on_read : Prog D Return → ℕ → Call (List ℕ) → Prog D Return
  on_read next fd (done []) = do
    adb_close sys fd
    whole ← writex_pipe (word_bytes id_done ++ word_bytes 0)
    pure (return_of whole)
  on_read next fd (done (c ∷ b)) = do
    store_buffer (c ∷ b)
    whole ← writex_both (word_bytes id_data ++ word_bytes (length (c ∷ b))) (c ∷ b)
    after_send next fd whole
  on_read next fd (denied errno) = if errno == eintr then next else give_up fd errno

  unfoldable pub send_file : ℕ → ℕ → Prog D Return
  send_file zero fd = pure no_fuel
  send_file (suc n) fd = do
    r ← on_disk (sys.read_some fd sync_data_max)
    on_read (send_file n fd) fd r

  unfoldable pub after_open_read : ℕ → Call ℕ → Prog D Return
  after_open_read n (done fd) = send_file n fd
  after_open_read n (denied errno) = do told ← fail_errno sys errno; pure (return_of told)

  unfoldable pub do_recv : ℕ → List ℕ → Prog D Return
  do_recv n path = do fd ← on_disk (sys.open_read path); note_open fd; after_open_read n fd

  -- The `switch` of `file_sync_service`; `next` is the loop's next round, and a return value that
  -- is not 0 ends the loop.
  unfoldable pub proceed : Prog D Return → Return → Prog D Return
  proceed next ok_zero = next
  proceed next minus_one = pure minus_one
  proceed next no_fuel = pure no_fuel

  unfoldable pub answer_request : ℕ → ℕ → List ℕ → Prog D Return
  answer_request n id path =
      if id == id_stat
      then do_stat path
      else if id == id_list
      then do_list path
      else if id == id_send
      then do_send sys n path
      else if id == id_recv
      then do_recv n path
      else if id == id_quit
      then pure minus_one
      else fail_with (codes "unknown command")

  -- A request whose name has come, and one whose first 8 bytes have come.
  unfoldable pub on_name : ℕ → Prog D Return → ℕ → Option (List ℕ) → Prog D Return
  on_name n next id none = fail_with (codes "filename read failure")
  on_name n next id (some name) = do r ← answer_request n id (c_string name); proceed next r

  unfoldable pub on_request : ℕ → Prog D Return → Option (List ℕ) → Prog D Return
  on_request n next none = fail_with (codes "command read failure")
  on_request n next (some req) =
      if ltb 1024 (word_at req 4)
      then fail_with (codes "invalid namelen")
      else readx_pipe (word_at req 4) >>= on_name n next (word_at req 0)

  unfoldable pub serve : ℕ → Prog D Return
  serve zero = pure no_fuel
  serve (suc n) = do req ← readx_pipe 8; on_request n (serve n) req

  unfoldable pub hang_up : ℕ → ℕ → Return → Prog D Return
  hang_up rfd wfd no_fuel = pure no_fuel
  hang_up rfd wfd _ = do adb_close sys rfd; adb_close sys wfd; pure ok_zero

  -- `file_sync_service` with its two descriptors.
  unfoldable pub file_sync_service : ℕ → ℕ → ℕ → Prog D Return
  file_sync_service n rfd wfd = do end ← serve n; hang_up rfd wfd end
