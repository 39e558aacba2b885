-- ===== src/FileSync/Copy.antt =====
-- That a file read with `do_recv` and sent on to `handle_send_file` is the same file,
-- adbd/src/file_sync_service.c.
use stm32f429_adbd.Common.{
  ℕ, zero, suc, ◌+◌, ◌-◌, ◌≤◌, ◌<◌, ◌≡◌, refl, ap, ◌∙◌, some, List, [], ◌∷◌, ◌++◌, length, arith,
  drop, append_assoc, length-append,
}
use stm32f429_adbd.Common.Words.{word_bytes}
use stm32f429_adbd.FileSync.{
  sync_data_max, id_data, id_done, id_okay, eintr, done, denied, System, Sync, ok_zero, on_disk,
  adb_close,
}
use stm32f429_adbd.FileSync.Send.{receive_file}
use stm32f429_adbd.FileSync.Serve.{return_of, after_send, on_read, send_file}
use stm32f429_adbd.FileSync.Transfer.{
  message, stream, AllShort, Accepts, writex_pipe-room, writex_both-room, receive_file-stream,
}

module _ {D : Type 0} (sys : System D) where
  -- The reads of an open file, in at most n calls: its pieces, interruptions between them, and
  -- the end.
  pub data Delivers (fd : ℕ) : ℕ → D → List (List ℕ) → D → Type 0 where
    ended :
        {n : ℕ} {d : D}
        → (sys.read_some fd sync_data_max d).0 ≡ done []
        → Delivers fd (suc n) d [] (sys.read_some fd sync_data_max d).1
    piece :
        {n : ℕ} {d d' : D} {c : ℕ} {b : List ℕ} {bs : List (List ℕ)}
        → (sys.read_some fd sync_data_max d).0 ≡ done (c ∷ b)
        → length (c ∷ b) ≤ sync_data_max
        → Delivers fd n (sys.read_some fd sync_data_max d).1 bs d'
        → Delivers fd (suc n) d ((c ∷ b) ∷ bs) d'
    interrupted :
        {n : ℕ} {d d' : D} {bs : List (List ℕ)}
        → (sys.read_some fd sync_data_max d).0 ≡ denied eintr
        → Delivers fd n (sys.read_some fd sync_data_max d).1 bs d'
        → Delivers fd (suc n) d bs d'

  pub Delivers-AllShort :
      {fd n : ℕ} {d d' : D} {bs : List (List ℕ)} → Delivers fd n d bs d' → AllShort bs
  Delivers-AllShort (ended e) = tt
  Delivers-AllShort (piece e h r) = (h, Delivers-AllShort r)
  Delivers-AllShort (interrupted e r) = Delivers-AllShort r

  abbrev read_state : ℕ → Sync D → Sync D
  read_state fd s = record s { disk = (sys.read_some fd sync_data_max s.disk).1 }

  -- The state after a DATA message.
  abbrev sent_state : ℕ → List ℕ → Sync D → Sync D
  sent_state fd b s = record s {
    disk = (sys.read_some fd sync_data_max s.disk).1;
    buffer = b ++ drop (length b) s.buffer;
    outgoing = (s.outgoing ++ message id_data (length b)) ++ b;
    room = s.room - 8 - length b;
  }

  send_file-ended :
      (n fd : ℕ) (s : Sync D)
      → (sys.read_some fd sync_data_max s.disk).0 ≡ done []
      → 8 ≤ s.room
      → send_file sys (suc n) fd s ≡ (
        ok_zero,
        record s {
          disk = sys.close fd (sys.read_some fd sync_data_max s.disk).1;
          closed = s.closed ++ (fd ∷ []);
          outgoing = s.outgoing ++ message id_done 0;
          room = s.room - 8;
        },
      )
  unfolding send_file on_disk adb_close on_read return_of word_bytes
  send_file-ended n fd s e h =
      rw
        (
          e,
          writex_pipe-room (message id_done 0)
              (record s {
                disk = sys.close fd (sys.read_some fd sync_data_max s.disk).1;
                closed = s.closed ++ (fd ∷ []);
              })
              h,
        )
        refl

  send_file-piece :
      (n fd c : ℕ) (b : List ℕ) (s : Sync D)
      → (sys.read_some fd sync_data_max s.disk).0 ≡ done (c ∷ b)
      → 8 + length (c ∷ b) ≤ s.room
      → send_file sys (suc n) fd s ≡ send_file sys n fd (sent_state fd (c ∷ b) s)
  unfolding send_file on_disk on_read after_send word_bytes
  send_file-piece n fd c b s e h =
      rw
        (
          e,
          writex_both-room (message id_data (length (c ∷ b))) (c ∷ b)
              (record s {
                disk = (sys.read_some fd sync_data_max s.disk).1;
                buffer = (c ∷ b) ++ drop (length (c ∷ b)) s.buffer;
              })
              h,
        )
        refl

  send_file-interrupted :
      (n fd : ℕ) (s : Sync D)
      → (sys.read_some fd sync_data_max s.disk).0 ≡ denied eintr
      → send_file sys (suc n) fd s ≡ send_file sys n fd (read_state fd s)
  unfolding send_file on_disk on_read
  send_file-interrupted n fd s e = rw e refl

  length-stream :
      (b : List ℕ) (bs : List (List ℕ)) (t : ℕ)
      → length (stream (b ∷ bs) t) ≡ 8 + length b + length (stream bs t)
  unfolding word_bytes
  length-stream b bs t = omega (arith, length-append b (stream bs t))

  -- The loop of `do_recv` sends the pieces of the file, however its reads cut it, in DATA messages
  -- and then DONE, and closes the file, if the other end takes that much.
  pub send_file-stream :
      (n fd : ℕ) (pieces : List (List ℕ)) (s : Sync D) (d : D)
      → Delivers fd n s.disk pieces d
      → length (stream pieces 0) ≤ s.room
      → let (r, s') = send_file sys n fd s in
        (r ≡ ok_zero) × (s'.outgoing ≡ s.outgoing ++ stream pieces 0) × (s'.disk ≡ sys.close fd d)
  unfolding word_bytes
  send_file-stream zero fd pieces s d delivers room = elim delivers [ ]
  send_file-stream (suc n) fd [] s d (ended e) room =
      rw (send_file-ended n fd s e room) (refl, refl, refl)
  send_file-stream (suc n) fd ((c ∷ b) ∷ bs) s d (piece e short rest) room =
      let (r, out, disk) =
        send_file-stream n fd bs (sent_state fd (c ∷ b) s) d rest
          (omega (arith, room, length-append b (stream bs 0))) in
      rw (send_file-piece n fd c b s e (omega (arith, room, length-append b (stream bs 0)))) (
        r,
        out
            ∙ append_assoc (s.outgoing ++ message id_data (length (c ∷ b))) (c ∷ b) (stream bs 0)
            ∙ append_assoc s.outgoing (message id_data (length (c ∷ b))) ((c ∷ b) ++ stream bs 0),
        disk,
      )
  send_file-stream (suc n) fd bs s d (interrupted e rest) room =
      rw (send_file-interrupted n fd s e) (send_file-stream n fd bs (read_state fd s) d rest room)

-- What `do_recv` has sent of a file on one device is a stream that the loop of `handle_send_file`
-- on another takes whole: it returns 0 after writing the same pieces in the same order, closing the
-- file and answering OKAY, and leaves what follows the stream. The conditions: the file's reads end
-- after these pieces, both ends take what is written to them, and every write to the copy succeeds.
pub receive_file-send_file :
    {D E : Type 0} (sys : System D) (sys' : System E) (n m fd fd' : ℕ) (path : List ℕ)
    (pieces : List (List ℕ)) (rest : List ℕ) (d : D) (d' : E) (s : Sync D) (t : Sync E)
    → Delivers sys fd n s.disk pieces d
    → length (stream pieces 0) ≤ s.room
    → s.outgoing ≡ []
    → t.incoming ≡ (send_file sys n fd s).1.outgoing ++ rest
    → Accepts sys' fd' t.disk pieces d'
    → length pieces < m
    → 8 ≤ t.room
    → let (r, t') = receive_file sys' m path (some fd') t in
      (r ≡ ok_zero)
      × (t'.incoming ≡ rest)
      × (t'.outgoing ≡ t.outgoing ++ message id_okay 0)
      × (t'.disk ≡ sys'.utime path 0 (sys'.close fd' d'))
receive_file-send_file sys sys' n m fd fd' path pieces rest d d' s t delivers room fresh arrives
      accepts fuel answer =
    let (r, out, disk) = send_file-stream sys n fd pieces s d delivers room in
    let sent : (send_file sys n fd s).1.outgoing ≡ stream pieces 0 =
      out ∙ ap (λ x. x ++ stream pieces 0) fresh in
    receive_file-stream sys' m path fd' 0 pieces rest d' t fuel (Delivers-AllShort sys delivers)
      (omega arith) (arrives ∙ ap (λ x. x ++ rest) sent) accepts answer
