-- ===== src/Tests/Services.antt =====
-- Services started on a system that numbers its descriptors.
use stm32f429_adbd.Common.{ℕ, ◌+◌, true, false, none, some, []}
use stm32f429_adbd.Services.{Kernel, Process}

-- The state is the next descriptor.
abbrev kernel : Kernel ℕ ℕ
kernel = record {
  pipe = λ d. (some (d, d + 1), d + 2);
  thread_create = λ t d. (true, d);
  fork = λ d. (some 100, d);
  open_ptmx = λ d. (some d, d + 1);
  pty_ready = λ fd d. (true, d);
  unix_open = λ path d. (some d, d + 1);
  loopback_client = λ port d. (some d, d + 1);
  local_client = λ space path d. (none, d);
  jdwp_connection = λ pid d. (none, d);
  close = λ fd d. d;
  atoi = λ text. 0;
  scan_port = λ text. 0;
  recovery_mode = false;
  is_host = false;
}

abbrev idle : Process ℕ ℕ
idle = record { world = 3; opened = []; closed = []; threads = [] }
