-- ===== src/FileSync/Transfer.antt =====
-- The contents of a file on the wire, adbd/src/file_sync_service.c: what `do_recv` sends of a
-- file and what `handle_send_file` makes of such a stream.
use stm32f429_adbd.Common.{
  ℕ, zero, suc, ◌+◌, ◌-◌, ◌^◌, ◌≤◌, ◌<◌, ◌≡◌, refl, ap, ◌∙◌, true, false, some, List, [], ◌∷◌, ◌++◌,
  leb, ltb, length, arith, drop, append_assoc, length-append, take-append_self,
}
use stm32f429_adbd.Common.Words.{word_bytes, word_at, word_lem}
use stm32f429_adbd.FileSync.{
  sync_data_max, id_data, id_done, id_okay, done, System, Sync, ok_zero, readx_pipe, readx_buffer,
  keep_bytes, writex_pipe, writex_both, writex_next, on_disk, adb_close,
}
use stm32f429_adbd.FileSync.Send.{
  finished, bytes, chunk_of, by_header, after_header, read_chunk, send_okay, finish,
  after_file_write, write_chunk, after_chunk, on_chunk, receive_file,
}

-- The messages of a file: its pieces in DATA messages, and DONE with a number.
abbrev pub message : ℕ → ℕ → List ℕ
message id size = word_bytes id ++ word_bytes size

abbrev pub stream : List (List ℕ) → ℕ → List ℕ
stream [] timestamp = message id_done timestamp
stream (b ∷ bs) timestamp = message id_data (length b) ++ (b ++ stream bs timestamp)

-- No piece is larger than a message may be.
abbrev pub AllShort : List (List ℕ) → Type 0
AllShort [] = Unit {0}
AllShort (b ∷ bs) = (length b ≤ sync_data_max) × AllShort bs

drop-append_self : (xs ys : List ℕ) → drop (length xs) (xs ++ ys) ≡ ys
drop-append_self [] ys = refl
drop-append_self (x ∷ xs) ys = drop-append_self xs ys

word_at-message : (id size : ℕ) → id < 2 ^ 32 → word_at (message id size) 0 ≡ id
unfolding word_at word_bytes
word_at-message id size h = word_lem id h

word_at-message_size : (id size : ℕ) → size < 2 ^ 32 → word_at (message id size) 4 ≡ size
unfolding word_at word_bytes
word_at-message_size id size h = word_lem size h

module _ {D : Type 0} where
  readx_pipe-front :
      (xs rest : List ℕ) (s : Sync D)
      → s.incoming ≡ xs ++ rest
      → readx_pipe (length xs) s ≡ (some xs, record s { incoming = rest })
  unfolding readx_pipe
  readx_pipe-front xs rest s e =
      rw (e, take-append_self xs rest, drop-append_self xs rest, enough) refl
    where
      enough : leb (length xs) (length (xs ++ rest)) ≡ true
      enough = ground (arith, length-append xs rest)

  header-front :
      (id size : ℕ) (rest : List ℕ) (s : Sync D)
      → s.incoming ≡ message id size ++ rest
      → readx_pipe 8 s ≡ (some (message id size), record s { incoming = rest })
  unfolding word_bytes
  header-front id size rest s e = readx_pipe-front (message id size) rest s e

  pub read_chunk-data :
      (b rest : List ℕ) (s : Sync D)
      → s.incoming ≡ message id_data (length b) ++ (b ++ rest)
      → length b ≤ sync_data_max
      → read_chunk s
        ≡ (bytes b, record s { incoming = rest; buffer = b ++ drop (length b) s.buffer })
  unfolding read_chunk after_header by_header readx_buffer keep_bytes chunk_of
  read_chunk-data b rest s e h =
      let first = header-front id_data (length b) (b ++ rest) s e in
      let second = readx_pipe-front b rest (record s { incoming = b ++ rest }) refl in
      let id = word_at-message id_data (length b) (omega arith) in
      let size = word_at-message_size id_data (length b) (omega (arith, h)) in
      rw (first, id, size, short, second) refl
    where
      short : ltb sync_data_max (length b) ≡ false
      short = ground (arith, h)

  pub read_chunk-done :
      (timestamp : ℕ) (rest : List ℕ) (s : Sync D)
      → s.incoming ≡ message id_done timestamp ++ rest
      → timestamp < 2 ^ 32
      → read_chunk s ≡ (finished timestamp, record s { incoming = rest })
  unfolding read_chunk after_header by_header
  read_chunk-done timestamp rest s e h =
      let first = header-front id_done timestamp rest s e in
      let id = word_at-message id_done timestamp (omega arith) in
      let size = word_at-message_size id_done timestamp h in rw (first, id, size) refl

  pub writex_pipe-room :
      (b : List ℕ) (s : Sync D)
      → length b ≤ s.room
      → writex_pipe b s ≡ (true, record s { outgoing = s.outgoing ++ b; room = s.room - length b })
  unfolding writex_pipe
  writex_pipe-room b s h = rw enough refl
    where
      enough : leb (length b) s.room ≡ true
      enough = ground (arith, h)

  pub writex_both-room :
      (a b : List ℕ) (s : Sync D)
      → length a + length b ≤ s.room
      → writex_both a b s ≡ (
        true,
        record s { outgoing = (s.outgoing ++ a) ++ b; room = s.room - length a - length b },
      )
  unfolding writex_both writex_next
  writex_both-room a b s h = rw (writex_pipe-room a s (omega (arith, h))) (
      writex_pipe-room b (record s { outgoing = s.outgoing ++ a; room = s.room - length a })
        (omega (arith, h)))

  module _ (sys : System D) where
    -- The writes of the pieces to a file all succeed, and take the disk from one state to another.
    abbrev pub Accepts : ℕ → D → List (List ℕ) → D → Type 0
    Accepts fd d [] d' = d ≡ d'
    Accepts fd d (b ∷ bs) d' =
        ((sys.write_all fd b d).0 ≡ done tt) × Accepts fd (sys.write_all fd b d).1 bs d'

    write_chunk-done :
        (path : List ℕ) (fd : ℕ) (b : List ℕ) (s : Sync D)
        → (sys.write_all fd b s.disk).0 ≡ done tt
        → write_chunk sys path (some fd) b s
          ≡ (some (some fd), record s { disk = (sys.write_all fd b s.disk).1 })
    unfolding write_chunk after_file_write on_disk
    write_chunk-done path fd b s e = rw e refl

    finish-room :
        (path : List ℕ) (fd timestamp : ℕ) (s : Sync D)
        → 8 ≤ s.room
        → finish sys path (some fd) timestamp s ≡ (
          ok_zero,
          record s {
            outgoing = s.outgoing ++ message id_okay 0;
            room = s.room - 8;
            closed = s.closed ++ (fd ∷ []);
            disk = sys.utime path timestamp (sys.close fd s.disk);
          },
        )
    unfolding finish send_okay on_disk adb_close word_bytes
    finish-room path fd timestamp s h =
        rw
          (writex_pipe-room (message id_okay 0)
            (record s {
              closed = s.closed ++ (fd ∷ []);
              disk = sys.utime path timestamp (sys.close fd s.disk);
            })
            h)
          refl

    receive_file-done :
        (n : ℕ) (path : List ℕ) (fd timestamp : ℕ) (rest : List ℕ) (s : Sync D)
        → s.incoming ≡ message id_done timestamp ++ rest
        → timestamp < 2 ^ 32
        → receive_file sys (suc n) path (some fd) s
          ≡ finish sys path (some fd) timestamp (record s { incoming = rest })
    unfolding receive_file on_chunk
    receive_file-done n path fd timestamp rest s e h =
        rw (read_chunk-done timestamp rest s e h) refl

    -- One round of the loop that goes on.
    abbrev round_state : ℕ → List ℕ → List ℕ → Sync D → Sync D
    round_state fd b rest s = record s {
      incoming = rest;
      buffer = b ++ drop (length b) s.buffer;
      disk = (sys.write_all fd b s.disk).1;
    }

    receive_file-data :
        (n : ℕ) (path : List ℕ) (fd : ℕ) (b rest : List ℕ) (s : Sync D)
        → s.incoming ≡ message id_data (length b) ++ (b ++ rest)
        → length b ≤ sync_data_max
        → (sys.write_all fd b s.disk).0 ≡ done tt
        → receive_file sys (suc n) path (some fd) s
          ≡ receive_file sys n path (some fd) (round_state fd b rest s)
    unfolding receive_file on_chunk after_chunk
    receive_file-data n path fd b rest s e h wrote =
        rw
          (
            read_chunk-data b rest s e h,
            write_chunk-done path fd b
                (record s { incoming = rest; buffer = b ++ drop (length b) s.buffer }) wrote,
          )
          refl

    -- A stream of DATA messages and DONE on the pipe, with a file open to which every write
    -- succeeds: the loop of `handle_send_file` writes the pieces in their order, each once,
    -- closes the file, sets its time to DONE's number, and answers OKAY. It leaves what follows
    -- the stream.
    pub receive_file-stream :
        (n : ℕ) (path : List ℕ) (fd timestamp : ℕ) (pieces : List (List ℕ)) (rest : List ℕ) (d : D)
        (s : Sync D)
        → length pieces < n
        → AllShort pieces
        → timestamp < 2 ^ 32
        → s.incoming ≡ stream pieces timestamp ++ rest
        → Accepts fd s.disk pieces d
        → 8 ≤ s.room
        → let (r, s') = receive_file sys n path (some fd) s in
          (r ≡ ok_zero)
          × (s'.incoming ≡ rest)
          × (s'.outgoing ≡ s.outgoing ++ message id_okay 0)
          × (s'.disk ≡ sys.utime path timestamp (sys.close fd d))
    receive_file-stream zero path fd timestamp pieces rest d s fuel short h e accepts room =
        absurd (omega (arith, fuel))
    receive_file-stream (suc n) path fd timestamp [] rest d s fuel short h e accepts room =
        rw
          (
            receive_file-done n path fd timestamp rest s e h,
            finish-room path fd timestamp (record s { incoming = rest }) room,
          )
          (refl, refl, refl, ap (λ x. sys.utime path timestamp (sys.close fd x)) accepts)
    receive_file-stream (suc n) path fd timestamp (b ∷ bs) rest d s fuel short h e accepts room =
        let more = stream bs timestamp ++ rest in
        let arrives : s.incoming ≡ message id_data (length b) ++ (b ++ more) =
          e
          ∙ append_assoc (message id_data (length b)) (b ++ stream bs timestamp) rest
          ∙ ap (◌++◌ (message id_data (length b))) (append_assoc b (stream bs timestamp) rest) in
        rw (receive_file-data n path fd b more s arrives short.0 accepts.0) (
          receive_file-stream n path fd timestamp bs rest d (round_state fd b more s)
            (omega (arith, fuel)) short.1 h refl accepts.1 room)
