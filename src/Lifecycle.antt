-- ===== src/Lifecycle.antt =====
-- A transport's two threads and the main thread's part in its life, adbd/src/transport.c: the SYNC
-- handshake over two pipes, kicking, the reference count, and removal, interleaved in any order. A
-- section under `transport_lock` is one step; what the remote end and the pipes do is open.
pub mod Invariant
pub mod Safety
pub mod Progress
use stm32f429_adbd.Common.{
  ℕ, zero, suc, ◌+◌, ◌-◌, ◌≡◌, ◌≢◌, Bool, true, false, List, [], ◌∷◌, ◌++◌, if◌then◌else◌,
}
use stm32f429_adbd.Common.Words.{add32}
use stm32f429_adbd.Packet.{Packet, Message, get_apacket, stamp, a_sync}

-- The end of both threads: `kick_transport`, whose first test is outside the lock, and
-- `transport_unref`.
pub data Exit : Type 0 where
  kick_test kick_lock kick_call unref ended : Exit

-- Where `output_thread` stands.
pub data OutputThread : Type 0 where
  starting reading posting : OutputThread
  forwarding : Packet → OutputThread
  output_exit : Exit → OutputThread

-- Where `input_thread` stands; closing is its call of `close_all_sockets`.
pub data InputThread : Type 0 where
  listening closing : InputThread
  input_exit : Exit → InputThread

-- The fields of the atransport that `transport_lock` guards, with the calls of its kick and close
-- functions and the removal messages that were written.
pub record Core : Type 0 where
  pub kicked : Bool
  pub ref_count : ℕ
  pub kicks : ℕ
  pub closes : ℕ
  pub removals : ℕ

-- `to_main` and `to_input` are the packets in the two pipes, `active` is the input thread's local.
-- `is_removed`: the main thread has freed the atransport. `is_broken`: a write to a pipe failed.
pub record Pump : Type 0 where
  pub core : Core
  pub sync_token : ℕ
  pub active : Bool
  pub to_main : List Packet
  pub to_input : List Packet
  pub output : OutputThread
  pub input : InputThread
  pub written : List Packet
  pub is_removed : Bool
  pub is_broken : Bool

-- As the output thread makes it: SYNC with its two arguments.
unfoldable pub sync_packet : ℕ → ℕ → Packet
unfolding get_apacket
sync_packet arg0 arg1 = record get_apacket {
  msg = record (get_apacket.msg) { command = a_sync; arg0 = arg0; arg1 = arg1; magic = 0xbcb1a6ac };
}

-- `transport_registration_func` with action 1, up to the start of the threads.
abbrev pub registered : ℕ → Pump
registered token = record {
  core = record { kicked = false; ref_count = 2; kicks = 0; closes = 0; removals = 0 };
  sync_token = token;
  active = false;
  to_main = [];
  to_input = [];
  output = starting;
  input = listening;
  written = [];
  is_removed = false;
  is_broken = false;
}

-- The last unref: kicks if nobody has, closes, and posts the removal.
abbrev pub closed : Core → Core
closed c = record {
  kicked = true;
  ref_count = 0;
  kicks = if c.kicked then c.kicks else suc c.kicks;
  closes = suc c.closes;
  removals = suc c.removals;
}

-- A step of `kick_transport` and `transport_unref`.
pub data Leave (c : Core) : Exit → Core → Exit → Type 0 where
  test_kicked : c.kicked ≡ true → Leave c kick_test c unref
  test_open : c.kicked ≡ false → Leave c kick_test c kick_lock
  lock_late : c.kicked ≡ true → Leave c kick_lock c unref
  lock_first : c.kicked ≡ false → Leave c kick_lock (record c { kicked = true }) kick_call
  kick : Leave c kick_call (record c { kicks = suc c.kicks }) unref
  unref_more :
      (n : ℕ) → c.ref_count ≡ suc (suc n) → Leave c unref (record c { ref_count = suc n }) ended
  unref_last : c.ref_count ≡ 1 → Leave c unref (closed c) ended

-- A step of a thread, or of the main thread on what it was sent. The main thread forwards SYNC, as
-- `handle_packet` does on a device; on another packet it may send any that are not SYNC.
pub data Work (s : Pump) : Pump → Type 0 where
  announce :
      s.output ≡ starting
      → Work s (record s {
        sync_token = add32 s.sync_token 1;
        to_main = s.to_main ++ (sync_packet 1 (add32 s.sync_token 1) ∷ []);
        output = reading;
      })
  announce_fails :
      s.output ≡ starting
      → Work s (record s {
        sync_token = add32 s.sync_token 1;
        output = output_exit kick_test;
        is_broken = true;
      })
  receive : (p : Packet) → s.output ≡ reading → Work s (record s { output = forwarding p })
  lose : s.output ≡ reading → Work s (record s { output = posting })
  forward :
      (p : Packet)
      → s.output ≡ forwarding p
      → Work s (record s { to_main = s.to_main ++ (p ∷ []); output = reading })
  forward_fails :
      (p : Packet)
      → s.output ≡ forwarding p
      → Work s (record s { output = output_exit kick_test; is_broken = true })
  post :
      s.output ≡ posting
      → Work s (record s {
        to_main = s.to_main ++ (sync_packet 0 0 ∷ []);
        output = output_exit kick_test;
      })
  post_fails :
      s.output ≡ posting → Work s (record s { output = output_exit kick_test; is_broken = true })
  leave_output :
      (e e' : Exit) (c : Core)
      → s.output ≡ output_exit e
      → Leave s.core e c e'
      → Work s (record s { core = c; output = output_exit e' })
  hear_offline :
      (p : Packet) (rest : List Packet)
      → s.input ≡ listening
      → s.to_input ≡ p ∷ rest
      → p.command ≡ a_sync
      → p.arg0 ≡ 0
      → Work s (record s { to_input = rest; input = closing })
  hear_online :
      (p : Packet) (rest : List Packet)
      → s.input ≡ listening
      → s.to_input ≡ p ∷ rest
      → p.command ≡ a_sync
      → p.arg0 ≢ 0
      → p.arg1 ≡ s.sync_token
      → Work s (record s { to_input = rest; active = true })
  hear_stale :
      (p : Packet) (rest : List Packet)
      → s.input ≡ listening
      → s.to_input ≡ p ∷ rest
      → p.command ≡ a_sync
      → p.arg0 ≢ 0
      → p.arg1 ≢ s.sync_token
      → Work s (record s { to_input = rest })
  write_remote :
      (p : Packet) (rest : List Packet)
      → s.input ≡ listening
      → s.to_input ≡ p ∷ rest
      → p.command ≢ a_sync
      → Work s (record s {
        to_input = rest;
        written = if s.active then s.written ++ (p ∷ []) else s.written;
      })
  listen_fails : s.input ≡ listening → Work s (record s { input = closing; is_broken = true })
  close_sockets : s.input ≡ closing → Work s (record s { input = input_exit kick_test })
  leave_input :
      (e e' : Exit) (c : Core)
      → s.input ≡ input_exit e
      → Leave s.core e c e'
      → Work s (record s { core = c; input = input_exit e' })
  main_sync :
      (p : Packet) (rest : List Packet)
      → s.is_removed ≡ false
      → s.to_main ≡ p ∷ rest
      → p.command ≡ a_sync
      → Work s (record s { to_main = rest; to_input = s.to_input ++ (stamp p ∷ []) })
  main_packet :
      (p : Packet) (rest : List Packet)
      → s.is_removed ≡ false
      → s.to_main ≡ p ∷ rest
      → p.command ≢ a_sync
      → Work s (record s { to_main = rest })
  main_removes :
      (n : ℕ)
      → s.core.removals ≡ suc n
      → Work s (record s { core = record (s.core) { removals = n }; is_removed = true })

-- The main thread may also send a packet of a socket at any time.
pub data Step (s : Pump) : Pump → Type 0 where
  works : {u : Pump} → Work s u → Step s u
  main_sends :
      (q : Packet)
      → s.is_removed ≡ false
      → q.command ≢ a_sync
      → Step s (record s { to_input = s.to_input ++ (q ∷ []) })

pub data Reach (token : ℕ) : Pump → Type 0 where
  start : Reach token (registered token)
  later : {s u : Pump} → Reach token s → Step s u → Reach token u
