-- ===== src/FileSync/Refusal.antt =====
-- A file that the device cannot make, adbd/src/file_sync_service.c.
use stm32f429_adbd.Common.{
  ℕ, zero, suc, ◌+◌, ◌-◌, ◌^◌, ◌≤◌, ◌<◌, ◌≡◌, refl, ap, ◌∙◌, true, none, List, [], ◌∷◌, ◌++◌,
  length, arith, drop, append_assoc,
}
use stm32f429_adbd.Common.Words.{word_bytes}
use stm32f429_adbd.FileSync.{
  sync_data_max, id_data, id_done, id_fail, denied, System, Sync, ok_zero, fail_message, fail_errno,
}
use stm32f429_adbd.FileSync.Send.{
  on_chunk, finish, write_chunk, after_chunk, receive_file, unopened, after_open, open_target,
  handle_send_file,
}
use stm32f429_adbd.FileSync.Transfer.{
  message, stream, AllShort, read_chunk-data, read_chunk-done, writex_both-room,
}

module _ {D : Type 0} (sys : System D) where
  drain_done :
      (n : ℕ) (path : List ℕ) (timestamp : ℕ) (rest : List ℕ) (s : Sync D)
      → s.incoming ≡ message id_done timestamp ++ rest
      → timestamp < 2 ^ 32
      → receive_file sys (suc n) path none s ≡ (ok_zero, record s { incoming = rest })
  unfolding receive_file on_chunk finish
  drain_done n path timestamp rest s e h = rw (read_chunk-done timestamp rest s e h) refl

  drain_data :
      (n : ℕ) (path b rest : List ℕ) (s : Sync D)
      → s.incoming ≡ message id_data (length b) ++ (b ++ rest)
      → length b ≤ sync_data_max
      → receive_file sys (suc n) path none s
        ≡ receive_file sys n path none
            (record s { incoming = rest; buffer = b ++ drop (length b) s.buffer })
  unfolding receive_file on_chunk write_chunk after_chunk
  drain_data n path b rest s e h = rw (read_chunk-data b rest s e h) refl

  receive_file-drain :
      (n : ℕ) (path : List ℕ) (timestamp : ℕ) (pieces : List (List ℕ)) (rest : List ℕ) (s : Sync D)
      → length pieces < n
      → AllShort pieces
      → timestamp < 2 ^ 32
      → s.incoming ≡ stream pieces timestamp ++ rest
      → let (r, s') = receive_file sys n path none s in
        (r ≡ ok_zero) × (s'.incoming ≡ rest) × (s'.outgoing ≡ s.outgoing) × (s'.disk ≡ s.disk)
  receive_file-drain zero path timestamp pieces rest s fuel short h e = absurd (omega (arith, fuel))
  receive_file-drain (suc n) path timestamp [] rest s fuel short h e =
      rw (drain_done n path timestamp rest s e h) (refl, refl, refl, refl)
  receive_file-drain (suc n) path timestamp (b ∷ bs) rest s fuel short h e =
      let more = stream bs timestamp ++ rest in
      rw
        (drain_data n path b more s
          (e
            ∙ append_assoc (message id_data (length b)) (b ++ stream bs timestamp) rest
            ∙ ap (◌++◌ (message id_data (length b))) (append_assoc b (stream bs timestamp) rest))
          short.0)
        (receive_file-drain n path timestamp bs rest
          (record s { incoming = more; buffer = b ++ drop (length b) s.buffer })
          (omega (arith, fuel)) short.1 h refl)

  fail_errno-room :
      (errno : ℕ) (s : Sync D)
      → 8 + length (sys.strerror errno) ≤ s.room
      → fail_errno sys errno s ≡ (
        true,
        record s {
          outgoing =
              (s.outgoing ++ message id_fail (length (sys.strerror errno))) ++ sys.strerror errno;
          room = s.room - 8 - length (sys.strerror errno);
        },
      )
  unfolding fail_errno fail_message word_bytes
  fail_errno-room errno s h =
      writex_both-room (message id_fail (length (sys.strerror errno))) (sys.strerror errno) s h

  -- If the file cannot be opened, and the client has room for the reason and sends a whole stream
  -- of pieces of at most the largest size, `handle_send_file` sends one FAIL with the reason, then
  -- takes the stream off the pipe, writing nothing to the disk and nothing more to the client, and
  -- returns 0: the next request is read from the right place.
  pub handle_send_file-refused :
      (n : ℕ) (path : List ℕ) (mode errno timestamp : ℕ) (pieces : List (List ℕ)) (rest : List ℕ)
      (s : Sync D)
      → length pieces < n
      → AllShort pieces
      → timestamp < 2 ^ 32
      → (open_target sys path mode s).0 ≡ denied errno
      → (open_target sys path mode s).1.incoming ≡ stream pieces timestamp ++ rest
      → 8 + length (sys.strerror errno) ≤ (open_target sys path mode s).1.room
      → let tried = (open_target sys path mode s).1 in
        let (r, s') = handle_send_file sys n path mode s in
        (r ≡ ok_zero)
        × (s'.incoming ≡ rest)
        × (s'.outgoing
            ≡ (tried.outgoing ++ message id_fail (length (sys.strerror errno)))
              ++ sys.strerror errno)
        × (s'.disk ≡ tried.disk)
  unfolding handle_send_file after_open unopened
  handle_send_file-refused n path mode errno timestamp pieces rest s fuel short h e arrives room =
      rw (e, fail_errno-room errno (open_target sys path mode s).1 room)
        (receive_file-drain n path timestamp pieces rest _ fuel short h arrives)
