-- ===== src/Tests/FileSync.antt =====
-- The sync service on a device with one file.
use stm32f429_adbd.Common.{
  ℕ, ◌≤◌, ◌≡◌, refl, true, none, some, List, [], ◌∷◌, ◌++◌, arith, length, take, length-take,
  replicate, length-replicate,
}
use stm32f429_adbd.Common.Words.{word_bytes}
use stm32f429_adbd.FileSync.{
  sync_data_max, id_okay, id_fail, Call, done, denied, System, Sync, ok_zero, adb_open_mode,
  on_disk, note_open,
}
use stm32f429_adbd.FileSync.Send.{
  receive_file, handle_send_file, open_target, after_enoent, after_eexist,
}
use stm32f429_adbd.FileSync.Serve.{send_file, file_sync_service}
use stm32f429_adbd.FileSync.Transfer.{message, stream}
use stm32f429_adbd.FileSync.Receiving.{IsReading}
use stm32f429_adbd.FileSync.Termination.{file_sync_service_lem}
use stm32f429_adbd.FileSync.Copy.{ended, piece, receive_file-send_file}
use stm32f429_adbd.FileSync.Refusal.{handle_send_file-refused}

-- What is left to read of the file, and what was written.
abbrev Disk : Type 0
Disk = List (List ℕ) × List ℕ

abbrev next_piece : ℕ → Disk → Call (List ℕ) × Disk
next_piece len ([], w) = (done [], ([], w))
next_piece len (b ∷ bs, w) = (done (take len b), (bs, w))

abbrev memory : System Disk
memory = record {
  open_write = λ path creates mode d. (done 5, d);
  open_read = λ path d. (done 4, d);
  read_some = λ fd len d. next_piece len d;
  write_all = λ fd b d. (done tt, (d.0, d.1 ++ b));
  close = λ fd d. d;
  mkdir = λ path mode d. (done tt, d);
  unlink = λ path d. d;
  symlink = λ target path d. (done tt, d);
  utime = λ path time d. d;
  lstat = λ path d. none;
  list_dir = λ path d. none;
  strerror = λ errno. 69 ∷ errno ∷ [];
  strtoul = λ text. (0, true);
}

memory-IsReading : IsReading memory
memory-IsReading = record { short = bounded; steady = quiet }
  where
    bounded : (fd len : ℕ) (d : Disk) (b : List ℕ) → (next_piece len d).0 ≡ done b → length b ≤ len
    bounded fd len ([], w) b e = ground (arith, e)
    bounded fd len (c ∷ bs, w) b e = ground (arith, e, length-take len c)

    quiet : (fd len : ℕ) (d : Disk) → (next_piece len d).0 ≡ denied 4 → ⊥
    quiet fd len ([], w) e = ground (arith, e)
    quiet fd len (c ∷ bs, w) e = ground (arith, e)

-- A request for the file "/a".
abbrev request : Sync Disk
request = record {
  incoming = 82 ∷ 69 ∷ 67 ∷ 86 ∷ 2 ∷ 0 ∷ 0 ∷ 0 ∷ 47 ∷ 97 ∷ [];
  outgoing = [];
  room = 100;
  buffer = replicate sync_data_max 0;
  opened = [];
  closed = [];
  disk = ((1 ∷ 2 ∷ []) ∷ (3 ∷ []) ∷ [], []);
}

file_sync_service_lem_example :
    let (r, s') = file_sync_service memory 200 7 8 request in
    (r ≡ ok_zero) × (s'.closed ≡ s'.opened ++ (7 ∷ 8 ∷ [])) × (length s'.buffer ≡ sync_data_max)
file_sync_service_lem_example =
    file_sync_service_lem memory 200 7 8 request memory-IsReading (omega arith)
      (length-replicate {A = ℕ} sync_data_max 0) refl

-- Where the copy arrives.
abbrev copy : Sync Disk
copy = record {
  incoming = (send_file memory 3 4 request).1.outgoing ++ (9 ∷ []);
  outgoing = [];
  room = 50;
  buffer = [];
  opened = 5 ∷ [];
  closed = [];
  disk = ([], []);
}

receive_file-send_file_example :
    let (r, t') = receive_file memory 3 (47 ∷ 98 ∷ []) (some 5) copy in
    (r ≡ ok_zero)
    × (t'.incoming ≡ 9 ∷ [])
    × (t'.outgoing ≡ message id_okay 0)
    × (t'.disk ≡ ([], 1 ∷ 2 ∷ 3 ∷ []))
unfolding word_bytes
receive_file-send_file_example =
    receive_file-send_file memory memory 3 3 4 5 (47 ∷ 98 ∷ []) ((1 ∷ 2 ∷ []) ∷ (3 ∷ []) ∷ [])
      (9 ∷ []) ([], []) ([], 1 ∷ 2 ∷ 3 ∷ []) request copy
      (piece refl (omega arith) (piece refl (omega arith) (ended refl))) (omega arith) refl refl
      (refl, (refl, refl)) (omega arith) (omega arith)

abbrev stored : Sync Disk
stored = record copy { incoming = stream ((1 ∷ 2 ∷ []) ∷ (3 ∷ []) ∷ []) 77 ++ (9 ∷ []) }

-- A disk that is full.
abbrev full : System Disk
full = record memory { open_write = λ path creates mode d. (denied 28, d) }

handle_send_file-refused_example :
    let (r, t') = handle_send_file full 3 (47 ∷ 98 ∷ []) 420 stored in
    (r ≡ ok_zero)
    × (t'.incoming ≡ 9 ∷ [])
    × (t'.outgoing ≡ message id_fail 2 ++ (69 ∷ 28 ∷ []))
    × (t'.disk ≡ ([], []))
unfolding open_target after_enoent after_eexist adb_open_mode on_disk note_open
handle_send_file-refused_example =
    handle_send_file-refused full 3 (47 ∷ 98 ∷ []) 420 28 77 ((1 ∷ 2 ∷ []) ∷ (3 ∷ []) ∷ []) (9 ∷ [])
      stored (omega arith) (omega arith, (omega arith, tt)) (omega arith) refl refl (omega arith)
