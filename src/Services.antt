-- ===== src/Services.antt =====
-- How the daemon starts a service, adbd/src/services.c and adbd/src/backup_service.c: pipes,
-- threads, processes, and the table of names in `service_to_fd`, as the Makefile builds it. The
-- system calls are parameters; the descriptors that they return, those that are closed and the
-- threads that are started are recorded. Memory does not run out.
pub mod Accounts
pub mod Starting
pub mod Backup
use stm32f429_adbd.Common.{
  ℕ, Bool, true, false, not, ◌&&◌, Option, none, some, List, [], ◌∷◌, ◌++◌, if◌then◌else◌, drop,
  codes, has_prefix, ◌||◌, ◌==◌,
}
use stm32f429_adbd.Common.Programs.{◌>>=◌, ◌>>◌, pure}

-- The namespaces of `socket_local_client`.
pub data Namespace : Type 0 where
  reserved abstract filesystem : Namespace

-- What a thread runs, with its cookie. Z holds the values of `int`.
pub data Func (Z : Type 0) : Type 0 where
  framebuffer_service file_sync remount_service restart_usb_service : Func Z
  recover_service restart_tcp_service : Z → Func Z
  log_service reboot_service : List ℕ → Func Z

-- A thread with its descriptors. The waiters get the number of a descriptor that others use;
-- -1 and a pid that was never set are none.
pub data Thread (Z : Type 0) : Type 0 where
  service : Func Z → ℕ → ℕ → Thread Z
  subproc_waiter : Option ℕ → Option ℕ → Thread Z
  backup_child_waiter : ℕ → ℕ → Thread Z

-- The system calls, `create_jdwp_connection_fd` of the JDWP component, and `atoi` and `sscanf`. A
-- call that fails returns none or false. `pty_ready` is grantpt, unlockpt and ptsname.
pub record Kernel (D Z : Type 0) : Type 0 where
  pub pipe : D → Option (ℕ × ℕ) × D
  pub thread_create : Thread Z → D → Bool × D
  pub fork : D → Option ℕ × D
  pub open_ptmx : D → Option ℕ × D
  pub pty_ready : ℕ → D → Bool × D
  pub unix_open : List ℕ → D → Option ℕ × D
  pub loopback_client : Z → D → Option ℕ × D
  pub local_client : Namespace → List ℕ → D → Option ℕ × D
  pub jdwp_connection : Z → D → Option ℕ × D
  pub close : ℕ → D → D
  pub atoi : List ℕ → Z
  pub scan_port : List ℕ → Z
  pub recovery_mode : Bool
  pub is_host : Bool

pub record Process (D Z : Type 0) : Type 0 where
  pub world : D
  pub opened : List ℕ
  pub closed : List ℕ
  pub threads : List (Thread Z)

-- What is left in `out_fds`: nothing and the return value -1, one descriptor twice, or two.
pub data Fds : Type 0 where
  no_fds : Fds
  same : ℕ → Fds
  two : ℕ → ℕ → Fds

-- The characters from the first colon on, if there is one.
unfoldable pub has_colon : List ℕ → Bool
has_colon [] = false
has_colon (c ∷ text) = c == b':' || has_colon text

abbrev pub Prog : Type 0 → Type 0 → Type 0 → Type 0
Prog D Z A = Process D Z → A × Process D Z

module _ {D Z : Type 0} (k : Kernel D Z) where
  abbrev pub fds_of_pair : Option (ℕ × ℕ) → List ℕ
  fds_of_pair none = []
  fds_of_pair (some (r, w)) = r ∷ w ∷ []

  abbrev pub fds_of_one : Option ℕ → List ℕ
  fds_of_one none = []
  fds_of_one (some fd) = fd ∷ []

  -- A call that returns descriptors, which are noted.
  unfoldable pub new_pipe : Prog D Z (Option (ℕ × ℕ))
  new_pipe s =
      let (r, d) = k.pipe s.world in (r, record s { world = d; opened = s.opened ++ fds_of_pair r })

  unfoldable pub new_fd : (D → Option ℕ × D) → Prog D Z (Option ℕ)
  new_fd call s =
      let (r, d) = call s.world in (r, record s { world = d; opened = s.opened ++ fds_of_one r })

  unfoldable pub asks : {A : Type 0} → (D → A × D) → Prog D Z A
  asks call s = ((call s.world).0, record s { world = (call s.world).1 })

  unfoldable pub adb_close : ℕ → Prog D Z (Unit {0})
  adb_close fd s = (tt, record s { world = k.close fd s.world; closed = s.closed ++ (fd ∷ []) })

  -- `adb_thread_create`: true for 0.
  unfoldable pub create_thread : Thread Z → Prog D Z Bool
  create_thread t s =
      let (r, d) = k.thread_create t s.world in
      (r, record s { world = d; threads = if r then t ∷ s.threads else s.threads })

  -- `create_service_thread` once it has both pipes: `svc_to_fw`, then `fw_to_svc`.
  unfoldable pub launched : ℕ → ℕ → ℕ → ℕ → Bool → Prog D Z Fds
  launched svc0 svc1 fw0 fw1 true = pure (two svc0 fw1)
  launched svc0 svc1 fw0 fw1 false = do
    adb_close svc0
    adb_close svc1
    adb_close fw0
    adb_close fw1
    pure no_fds

  unfoldable pub with_second : Func Z → ℕ → ℕ → Option (ℕ × ℕ) → Prog D Z Fds
  with_second func svc0 svc1 none = pure no_fds
  with_second func svc0 svc1 (some (fw0, fw1)) = do
    started ← create_thread (service func fw0 svc1)
    launched svc0 svc1 fw0 fw1 started

  unfoldable pub with_first : Func Z → Option (ℕ × ℕ) → Prog D Z Fds
  with_first func none = pure no_fds
  with_first func (some (svc0, svc1)) = do second ← new_pipe; with_second func svc0 svc1 second

  unfoldable pub create_service_thread : Func Z → Prog D Z Fds
  create_service_thread func = do first ← new_pipe; with_first func first

  -- `create_subprocess` in its PTY mode: the descriptor, and `*pid` where it was set.
  unfoldable pub after_fork : ℕ → Option ℕ → Prog D Z (Option ℕ × Option ℕ)
  after_fork ptm none = do adb_close ptm; pure (none, none)
  after_fork ptm (some pid) = pure (some ptm, some pid)

  unfoldable pub after_pty : ℕ → Bool → Prog D Z (Option ℕ × Option ℕ)
  after_pty ptm false = do adb_close ptm; pure (none, none)
  after_pty ptm true = do pid ← asks k.fork; after_fork ptm pid

  unfoldable pub after_ptmx : Option ℕ → Prog D Z (Option ℕ × Option ℕ)
  after_ptmx none = pure (none, none)
  after_ptmx (some ptm) = do is_ready ← asks (k.pty_ready ptm); after_pty ptm is_ready

  unfoldable pub create_subprocess : Prog D Z (Option ℕ × Option ℕ)
  create_subprocess = do ptm ← new_fd k.open_ptmx; after_ptmx ptm

  -- The descriptor that both ends of `out_fds` are.
  unfoldable pub fds_of : Option ℕ → Fds
  fds_of none = no_fds
  fds_of (some fd) = same fd

  -- `adb_close(ret_fd)`: of -1 it does nothing.
  unfoldable pub after_waiter : Option ℕ → Bool → Prog D Z Fds
  after_waiter fd true = pure (fds_of fd)
  after_waiter none false = pure no_fds
  after_waiter (some fd) false = do adb_close fd; pure no_fds

  unfoldable pub create_subproc_thread : Prog D Z Fds
  create_subproc_thread = do
    child ← create_subprocess
    started ← create_thread (subproc_waiter child.0 child.1)
    after_waiter child.0 started

  -- `backup_service` in the parent, with its six descriptors: `parent_fd`, `dummy_fd`, and those
  -- that it closes before it starts the waiter.
  unfoldable pub harvest : ℕ → ℕ → Bool → Prog D Z Fds
  harvest parent_fd dummy_fd true = pure (two parent_fd dummy_fd)
  harvest parent_fd dummy_fd false = do adb_close parent_fd; adb_close dummy_fd; pure no_fds

  unfoldable pub after_backup_fork : Bool → ℕ × ℕ → ℕ × ℕ → ℕ × ℕ → Option ℕ → Prog D Z Fds
  after_backup_fork is_backup (up0, up1) (down0, down1) (dummy0, dummy1) none = do
    adb_close up0
    adb_close up1
    adb_close down0
    adb_close down1
    adb_close dummy0
    adb_close dummy1
    pure no_fds
  after_backup_fork true (up0, up1) (down0, down1) (dummy0, dummy1) (some pid) = do
    adb_close up1
    adb_close down0
    adb_close down1
    started ← create_thread (backup_child_waiter pid up0)
    harvest up0 dummy1 started
  after_backup_fork false (up0, up1) (down0, down1) (dummy0, dummy1) (some pid) = do
    adb_close down0
    adb_close up0
    adb_close up1
    started ← create_thread (backup_child_waiter pid dummy0)
    harvest dummy0 down1 started

  unfoldable pub with_dummy : Bool → ℕ × ℕ → ℕ × ℕ → Option (ℕ × ℕ) → Prog D Z Fds
  with_dummy is_backup up down none = pure no_fds
  with_dummy is_backup up down (some dummy) = do
    pid ← asks k.fork
    after_backup_fork is_backup up down dummy pid

  unfoldable pub with_down : Bool → ℕ × ℕ → Option (ℕ × ℕ) → Prog D Z Fds
  with_down is_backup up none = pure no_fds
  with_down is_backup up (some down) = do dummy ← new_pipe; with_dummy is_backup up down dummy

  unfoldable pub with_up : Bool → Option (ℕ × ℕ) → Prog D Z Fds
  with_up is_backup none = pure no_fds
  with_up is_backup (some up) = do down ← new_pipe; with_down is_backup up down

  unfoldable pub backup_service : Bool → Prog D Z Fds
  backup_service is_backup = do up ← new_pipe; with_up is_backup up

  -- One call that returns a descriptor, which is both ends.
  unfoldable pub connect : (D → Option ℕ × D) → Prog D Z Fds
  connect call = do fd ← new_fd call; pure (fds_of fd)

  unfoldable pub service_to_fd : List ℕ → Prog D Z Fds
  service_to_fd name =
      if has_prefix (codes "tcp:") name
      then (if has_colon (drop 4 name)
          then pure no_fds
          else connect (k.loopback_client (k.atoi (drop 4 name))))
      else if has_prefix (codes "local:") name
      then connect (k.local_client reserved (drop 6 name))
      else if has_prefix (codes "localreserved:") name
      then connect (k.local_client reserved (drop 14 name))
      else if has_prefix (codes "localabstract:") name
      then connect (k.local_client abstract (drop 14 name))
      else if has_prefix (codes "localfilesystem:") name
      then connect (k.local_client filesystem (drop 16 name))
      else if has_prefix (codes "dev:") name
      then connect (k.unix_open (drop 4 name))
      else if has_prefix (codes "framebuffer:") name
      then create_service_thread framebuffer_service
      else if k.recovery_mode && has_prefix (codes "recover:") name
      then create_service_thread (recover_service (k.atoi (drop 8 name)))
      else if has_prefix (codes "jdwp:") name
      then connect (k.jdwp_connection (k.atoi (drop 5 name)))
      else if has_prefix (codes "log:") name
      then create_service_thread (log_service (drop 4 name))
      else if not k.is_host && has_prefix (codes "shell:") name
      then create_subproc_thread
      else if has_prefix (codes "sync:") name
      then create_service_thread file_sync
      else if has_prefix (codes "remount:") name
      then create_service_thread remount_service
      else if has_prefix (codes "reboot:") name
      then create_service_thread (reboot_service (drop 7 name))
      else if has_prefix (codes "backup:") name
      then backup_service true
      else if has_prefix (codes "restore:") name
      then backup_service false
      else if has_prefix (codes "tcpip:") name
      then create_service_thread (restart_tcp_service (k.scan_port (drop 6 name)))
      else if has_prefix (codes "usb:") name
      then create_service_thread restart_usb_service
      else pure no_fds
