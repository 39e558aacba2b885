-- ===== src/FileSync/Send.antt =====
-- Files that are sent to the device: `mkdirs`, `handle_send_file`, `handle_send_link` and `do_send`
-- of adbd/src/file_sync_service.c.
use stm32f429_adbd.Common.{
  ℕ, zero, suc, ◌/◌, Bool, true, false, not, Option, none, some, List, [], ◌∷◌, ◌++◌, if◌then◌else◌,
  ltb, ◌==◌, codes, bit_and, bit_or,
}
use stm32f429_adbd.Common.Words.{word_bytes, word_at}
use stm32f429_adbd.FileSync.{
  sync_data_max, id_data, id_done, id_okay, enoent, eexist, Call, done, denied, System, Return,
  ok_zero, minus_one, no_fuel, c_string, Prog, ◌>>=◌, ◌>>◌, pure, readx_pipe, readx_buffer,
  writex_pipe, fail_message, on_disk, fail_errno, adb_close, adb_unlink, adb_open_mode,
}

-- One DATA message, as the loop of `handle_send_file` takes it: an end of the pipe, another
-- message, DONE with its timestamp, a size that is too large, or the bytes.
pub data Chunk : Type 0 where
  lost bad oversize : Chunk
  finished : ℕ → Chunk
  bytes : List ℕ → Chunk

module _ {D : Type 0} where
  unfoldable pub chunk_of : Option (List ℕ) → Prog D Chunk
  chunk_of none = pure lost
  chunk_of (some b) = pure (bytes b)

  unfoldable pub by_header : ℕ → ℕ → Prog D Chunk
  by_header id size =
      if not (id == id_data)
      then if id == id_done then pure (finished size) else pure bad
      else if ltb sync_data_max size
      then pure oversize
      else readx_buffer size >>= chunk_of

  unfoldable pub after_header : Option (List ℕ) → Prog D Chunk
  after_header none = pure lost
  after_header (some m) = by_header (word_at m 0) (word_at m 4)

  unfoldable pub read_chunk : Prog D Chunk
  read_chunk = do msg ← readx_pipe 8; after_header msg

  -- `writex(wfd, &msg.status, sizeof(msg.status))` with OKAY.
  unfoldable pub send_okay : Prog D Return
  send_okay = do
    whole ← writex_pipe (word_bytes id_okay ++ word_bytes 0)
    pure (if whole then ok_zero else minus_one)

  unfoldable pub fail_with : List ℕ → Prog D Return
  fail_with reason = do _ ← fail_message reason; pure minus_one

  module _ (sys : System D) where
    -- What follows one `adb_mkdir` of `mkdirs`.
    unfoldable pub mkdir_then : Prog D Bool → Call (Unit {0}) → Prog D Bool
    mkdir_then next (done _) = next
    mkdir_then next (denied errno) = if not (errno == eexist) then pure false else next

    -- A character of the path, and whether it is a slash; `next` is the loop's way on.
    unfoldable pub step_dir : Bool → List ℕ → Prog D Bool → Prog D Bool
    step_dir false before next = next
    step_dir true before next = do made ← on_disk (sys.mkdir before 509); mkdir_then next made

    -- The loop of `mkdirs`, with the characters before and from `x` on.
    unfoldable pub mkdirs_from : List ℕ → List ℕ → Prog D Bool
    mkdirs_from before [] = pure true
    mkdirs_from before (c ∷ x) = step_dir (c == b'/') before (mkdirs_from (before ++ (c ∷ [])) x)

    -- True for 0. The first test reads `name[0]`, which is the NUL of an empty name.
    unfoldable pub mkdirs : List ℕ → Prog D Bool
    mkdirs [] = pure false
    mkdirs (c ∷ x) = if not (c == b'/') then pure false else mkdirs_from (c ∷ []) x

    unfoldable pub after_enoent : List ℕ → ℕ → Call ℕ → Prog D (Call ℕ)
    after_enoent path mode (done fd) = pure (done fd)
    after_enoent path mode (denied errno) =
        if errno == enoent
        then mkdirs path >>= (λ _. adb_open_mode sys path true mode)
        else pure (denied errno)

    unfoldable pub after_eexist : List ℕ → ℕ → Call ℕ → Prog D (Call ℕ)
    after_eexist path mode (done fd) = pure (done fd)
    after_eexist path mode (denied errno) =
        if errno == eexist then adb_open_mode sys path false mode else pure (denied errno)

    -- The three attempts to open the file.
    unfoldable pub open_target : List ℕ → ℕ → Prog D (Call ℕ)
    open_target path mode = do
      first ← adb_open_mode sys path true mode
      second ← after_enoent path mode first
      after_eexist path mode second

    -- `fail:`
    unfoldable pub abandon : List ℕ → Option ℕ → Prog D Return
    abandon path none = do adb_unlink sys path; pure minus_one
    abandon path (some fd) = do adb_close sys fd; adb_unlink sys path; pure minus_one

    -- After DONE.
    unfoldable pub finish : List ℕ → Option ℕ → ℕ → Prog D Return
    finish path none timestamp = pure ok_zero
    finish path (some fd) timestamp = do
      adb_close sys fd
      on_disk (λ d. (tt, sys.utime path timestamp d))
      send_okay

    unfoldable pub still_open : Bool → Prog D (Option (Option ℕ))
    still_open told = pure (if told then some none else none)

    unfoldable pub after_file_write : List ℕ → ℕ → Call (Unit {0}) → Prog D (Option (Option ℕ))
    after_file_write path fd (done _) = pure (some (some fd))
    after_file_write path fd (denied errno) = do
      adb_close sys fd
      adb_unlink sys path
      told ← fail_errno sys errno
      still_open told

    -- A chunk to the file, if it is open: none where the function returns -1, else the descriptor
    -- that the loop goes on with.
    unfoldable pub write_chunk : List ℕ → Option ℕ → List ℕ → Prog D (Option (Option ℕ))
    write_chunk path none b = pure (some none)
    write_chunk path (some fd) b = do
      wrote ← on_disk (sys.write_all fd b)
      after_file_write path fd wrote

    unfoldable pub after_chunk : (Option ℕ → Prog D Return) → Option (Option ℕ) → Prog D Return
    after_chunk next none = pure minus_one
    after_chunk next (some fd) = next fd

    -- What the loop of `handle_send_file` does with a message; `next` is the loop's next round.
    unfoldable pub on_chunk : (Option ℕ → Prog D Return) → List ℕ → Option ℕ → Chunk → Prog D Return
    on_chunk next path fd lost = abandon path fd
    on_chunk next path fd bad = do _ ← fail_message (codes "invalid data message"); abandon path fd
    on_chunk next path fd oversize = do
      _ ← fail_message (codes "oversize data message")
      abandon path fd
    on_chunk next path fd (finished timestamp) = finish path fd timestamp
    on_chunk next path fd (bytes b) = do kept ← write_chunk path fd b; after_chunk next kept

    unfoldable pub receive_file : ℕ → List ℕ → Option ℕ → Prog D Return
    receive_file zero path fd = pure no_fuel
    receive_file (suc n) path fd = do
      chunk ← read_chunk
      on_chunk (receive_file n path) path fd chunk

    unfoldable pub unopened : (Option ℕ → Prog D Return) → Bool → Prog D Return
    unopened loop false = pure minus_one
    unopened loop true = loop none

    unfoldable pub after_open : (Option ℕ → Prog D Return) → Call ℕ → Prog D Return
    after_open loop (done fd) = loop (some fd)
    after_open loop (denied errno) = do told ← fail_errno sys errno; unopened loop told

    unfoldable pub handle_send_file : ℕ → List ℕ → ℕ → Prog D Return
    handle_send_file n path mode = do
      fd ← open_target path mode
      after_open (receive_file n path) fd

    -- The message after the link's target.
    unfoldable pub link_done : Option (List ℕ) → Prog D Return
    link_done none = pure minus_one
    link_done (some m) =
        if word_at m 0 == id_done
        then send_okay
        else fail_with (codes "invalid data message: expected ID_DONE")

    unfoldable pub after_symlink : Call (Unit {0}) → Prog D Return
    after_symlink (denied errno) = do _ ← fail_errno sys errno; pure minus_one
    after_symlink (done _) = do msg ← readx_pipe 8; link_done msg

    -- `symlink(buffer, path)`
    unfoldable pub symlink_buffer : List ℕ → Prog D (Call (Unit {0}))
    symlink_buffer path s = on_disk (sys.symlink (c_string s.buffer) path) s

    unfoldable pub symlink_again : List ℕ → Call (Unit {0}) → Prog D (Call (Unit {0}))
    symlink_again path (done _) = pure (done tt)
    symlink_again path (denied errno) =
        if errno == enoent then mkdirs path >>= (λ _. symlink_buffer path) else pure (denied errno)

    unfoldable pub make_link : List ℕ → Option (List ℕ) → Prog D Return
    make_link path none = pure minus_one
    make_link path (some _) = do
      first ← symlink_buffer path
      second ← symlink_again path first
      after_symlink second

    unfoldable pub link_target : List ℕ → ℕ → ℕ → Prog D Return
    link_target path id size =
        if not (id == id_data)
        then fail_with (codes "invalid data message: expected ID_DATA")
        else if ltb sync_data_max size
        then fail_with (codes "oversize data message")
        else readx_buffer size >>= make_link path

    unfoldable pub link_header : List ℕ → Option (List ℕ) → Prog D Return
    link_header path none = pure minus_one
    link_header path (some m) = link_target path (word_at m 0) (word_at m 4)

    unfoldable pub handle_send_link : List ℕ → Prog D Return
    handle_send_link path = do msg ← readx_pipe 8; link_header path msg

    -- Where the last comma of a path is: the characters before it and after it.
    unfoldable pub last_comma : List ℕ → Option (List ℕ × List ℕ)
    last_comma [] = none
    last_comma (c ∷ x) = elim (last_comma x) [
      | none ↦ if c == b',' then some ([], x) else none
      | some cut ↦ some (c ∷ cut.0, cut.1)
    ]

    -- The path, the mode of a new file, and whether a symbolic link is sent.
    unfoldable pub split_mode : List ℕ → List ℕ × ℕ × Bool
    split_mode path = elim (last_comma path) [
      | none ↦ (path, 420, false)
      | some cut ↦ with_mode cut.0 (sys.strtoul cut.1)
    ]
      where
        with_mode : List ℕ → ℕ × Bool → List ℕ × ℕ × Bool
        with_mode name (mode, true) = (name, 420, false)
        with_mode name (mode, false) = (name, bit_and mode 511, bit_and mode 61440 == 40960)

    -- `mode |= ((mode >> 3) & 0070); mode |= ((mode >> 3) & 0007);`
    unfoldable pub spread_mode : ℕ → ℕ
    spread_mode mode =
        let group = bit_or mode (bit_and (mode / 8) 56) in bit_or group (bit_and (group / 8) 7)

    unfoldable pub do_send : ℕ → List ℕ → Prog D Return
    do_send n path =
        let (name, mode, is_link) = split_mode path in
        adb_unlink sys name
        >> (if is_link then handle_send_link name else handle_send_file n name (spread_mode mode))
