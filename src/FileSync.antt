-- ===== src/FileSync.antt =====
-- The sync service of adbd/src/file_sync_service.c and adbd/include/file_sync_service.h: its
-- messages, the pipes that it talks over, and the file system that it works on, which is a
-- parameter.
pub mod Send
pub mod Serve
pub mod Invariant
pub mod Opening
pub mod Sending
pub mod Receiving
pub mod Termination
pub mod Transfer
pub mod Copy
pub mod Refusal
pub use stm32f429_adbd.Common.Programs.{◌>>=◌, ◌>>◌, pure}
use stm32f429_adbd.Common.{
  ℕ, zero, suc, ◌+◌, ◌-◌, ◌*◌, ◌/◌, ◌%◌, Bool, true, false, Option, none, some, List, [], ◌∷◌, ◌++◌,
  if◌then◌else◌, leb, ◌==◌, length, take, drop, codes,
}
use stm32f429_adbd.Common.Words.{word_bytes, word_at}

abbrev pub sync_data_max : ℕ
sync_data_max = 65536

abbrev pub id_stat : ℕ
id_stat = 0x54415453

abbrev pub id_list : ℕ
id_list = 0x5453494c

abbrev pub id_send : ℕ
id_send = 0x444e4553

abbrev pub id_recv : ℕ
id_recv = 0x56434552

abbrev pub id_dent : ℕ
id_dent = 0x544e4544

abbrev pub id_done : ℕ
id_done = 0x454e4f44

abbrev pub id_data : ℕ
id_data = 0x41544144

abbrev pub id_okay : ℕ
id_okay = 0x59414b4f

abbrev pub id_fail : ℕ
id_fail = 0x4c494146

abbrev pub id_quit : ℕ
id_quit = 0x54495551

abbrev pub enoent : ℕ
enoent = 2

abbrev pub eintr : ℕ
eintr = 4

abbrev pub eexist : ℕ
eexist = 17

-- The return of a system call: a value, or -1 with `errno`.
pub data Call {ℓ} (A : Type ℓ) : Type ℓ where
  done : A → Call A
  denied : ℕ → Call A

-- The fields of a `struct stat` that are sent.
pub record Stat : Type 0 where
  pub mode : ℕ
  pub size : ℕ
  pub mtime : ℕ

-- The system calls on files and the C library. A path is the characters before its NUL.
-- `open_write` is with O_WRONLY, and with O_CREAT and O_EXCL if its flag is set. `write_all` is
-- what `writex` on a file comes to. `strtoul` is with base 0, and tells whether it has set
-- `errno`.
pub record System (D : Type 0) : Type 0 where
  pub open_write : List ℕ → Bool → ℕ → D → Call ℕ × D
  pub open_read : List ℕ → D → Call ℕ × D
  pub read_some : ℕ → ℕ → D → Call (List ℕ) × D
  pub write_all : ℕ → List ℕ → D → Call (Unit {0}) × D
  pub close : ℕ → D → D
  pub mkdir : List ℕ → ℕ → D → Call (Unit {0}) × D
  pub unlink : List ℕ → D → D
  pub symlink : List ℕ → List ℕ → D → Call (Unit {0}) × D
  pub utime : List ℕ → ℕ → D → D
  pub lstat : List ℕ → D → Option Stat
  pub list_dir : List ℕ → D → Option (List (List ℕ))
  pub strerror : ℕ → List ℕ
  pub strtoul : List ℕ → ℕ × Bool

-- The service's surroundings. `incoming` is what still arrives on `rfd` before it ends, `outgoing`
-- what was written to `wfd`, of which the other end takes `room` bytes more before it goes away.
-- `buffer` is the memory of SYNC_DATA_MAX bytes. `opened` and `closed` are the calls of open and
-- close, in order.
pub record Sync (D : Type 0) : Type 0 where
  pub incoming : List ℕ
  pub outgoing : List ℕ
  pub room : ℕ
  pub buffer : List ℕ
  pub opened : List ℕ
  pub closed : List ℕ
  pub disk : D

-- What a function returns: 0, -1, or nothing when the model's bound on its loop is met.
pub data Return : Type 0 where
  ok_zero minus_one no_fuel : Return

-- A string in memory ends at its NUL.
unfoldable pub c_string : List ℕ → List ℕ
c_string [] = []
c_string (zero ∷ bytes) = []
c_string (suc c ∷ bytes) = suc c ∷ c_string bytes

-- Programs over the surroundings.
abbrev pub Prog : Type 0 → Type 0 → Type 0
Prog D A = Sync D → A × Sync D

module _ {D : Type 0} where
  -- `readx(rfd, ptr, len)`: what it stores, or none for -1.
  unfoldable pub readx_pipe : ℕ → Prog D (Option (List ℕ))
  readx_pipe len s =
      if leb len (length s.incoming)
      then (some (take len s.incoming), record s { incoming = drop len s.incoming })
      else (none, record s { incoming = [] })

  abbrev pub store_buffer : List ℕ → Prog D (Unit {0})
  store_buffer bytes s = (tt, record s { buffer = bytes ++ drop (length bytes) s.buffer })

  -- `readx(rfd, buffer, len)`
  unfoldable pub keep_bytes : Option (List ℕ) → Prog D (Option (List ℕ))
  keep_bytes none = pure none
  keep_bytes (some bytes) = do store_buffer bytes; pure (some bytes)

  unfoldable pub readx_buffer : ℕ → Prog D (Option (List ℕ))
  readx_buffer len = do got ← readx_pipe len; keep_bytes got

  -- `writex(wfd, bytes, length)`: true for 0.
  unfoldable pub writex_pipe : List ℕ → Prog D Bool
  writex_pipe bytes s =
      if leb (length bytes) s.room
      then (true, record s { outgoing = s.outgoing ++ bytes; room = s.room - length bytes })
      else (false, record s { outgoing = s.outgoing ++ take s.room bytes; room = 0 })

  -- `writex(...) || writex(...)`
  unfoldable pub writex_next : List ℕ → Bool → Prog D Bool
  writex_next second false = pure false
  writex_next second true = writex_pipe second

  unfoldable pub writex_both : List ℕ → List ℕ → Prog D Bool
  writex_both first second = do whole ← writex_pipe first; writex_next second whole

  unfoldable pub fail_message : List ℕ → Prog D Bool
  fail_message reason = writex_both (word_bytes id_fail ++ word_bytes (length reason)) reason

  -- A call on the file system.
  unfoldable pub on_disk : {A : Type 0} → (D → A × D) → Prog D A
  on_disk call s = ((call s.disk).0, record s { disk = (call s.disk).1 })

  -- An open that succeeds is noted.
  unfoldable pub note_open : Call ℕ → Prog D (Unit {0})
  note_open (done fd) s = (tt, record s { opened = s.opened ++ (fd ∷ []) })
  note_open (denied errno) s = (tt, s)

  module _ (sys : System D) where
    unfoldable pub fail_errno : ℕ → Prog D Bool
    fail_errno errno = fail_message (sys.strerror errno)

    unfoldable pub adb_close : ℕ → Prog D (Unit {0})
    adb_close fd s = (tt, record s { disk = sys.close fd s.disk; closed = s.closed ++ (fd ∷ []) })

    unfoldable pub adb_unlink : List ℕ → Prog D (Unit {0})
    adb_unlink path s = (tt, record s { disk = sys.unlink path s.disk })

    unfoldable pub adb_open_mode : List ℕ → Bool → ℕ → Prog D (Call ℕ)
    adb_open_mode path creates mode = do
      fd ← on_disk (sys.open_write path creates mode)
      note_open fd
      pure fd
