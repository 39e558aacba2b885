-- ===== src/Tests/Daemon.antt =====
-- The sockets, the store and the authorization on small states.
use stm32f429_adbd.Common.{
  ℕ, ◌≡◌, ◌≢◌, refl, true, false, Option, none, some, [], ◌∷◌, ◌++◌, ◌==◌, if◌then◌else◌, arith,
  Bool-cases, inl, inr, replicate, length,
}
use stm32f429_adbd.Packet.{Packet, stamp, a_clse, a_auth}
use stm32f429_adbd.Io.{accepted}
use stm32f429_adbd.Stream.{push}
use stm32f429_adbd.Engine.{
  Socket, State, remote_socket_enqueue, remote_socket_ready, remote_socket_close,
}
use stm32f429_adbd.Engine.Monad.{no_fuel, Returns}
use stm32f429_adbd.Rings.{member, unlink}
use stm32f429_adbd.Rings.Identifiers.{AreNumbered}
use stm32f429_adbd.Socket.{pointer, run_close, call_close, control}
use stm32f429_adbd.Socket.Fuel.{run_close_total}
use stm32f429_adbd.Socket.Effect.{Linked, call_close_effect}
use stm32f429_adbd.Flow.{Verdict, payload_packet}
use stm32f429_adbd.Flow.Stream.{Takes, local_enqueue_lem}
use stm32f429_adbd.Service.{Env, local_socket}
use stm32f429_adbd.Connection.{token_size}
use stm32f429_adbd.Tests.Wire.{quiet_transport}

-- A local socket at 1, linked to a remote one at 2 on transport 0.
abbrev near : Socket
near = record (local_socket 7 7) { id = 5; peer = some 2 }

abbrev far : Socket
far = record (local_socket 0 0) {
  id = 9;
  peer = some 1;
  enqueue = remote_socket_enqueue;
  ready = remote_socket_ready;
  close = remote_socket_close;
  transport = some 0;
}

-- A local socket at 3 on no ring yet, and one at 4 with a packet waiting and no peer.
abbrev lone : Socket
lone = local_socket 8 8

abbrev waiting : Socket
waiting = record (local_socket 9 9) { id = 6; queue = (1 ∷ 2 ∷ []) ∷ [] }

abbrev heap : ℕ → Option Socket
heap p =
    if p == 1
    then some near
    else if p == 2
    then some far
    else if p == 3
    then some lone
    else if p == 4
    then some waiting
    else none

abbrev pub store : State
store = record {
  heap = heap;
  fresh = 10;
  locals = 1 ∷ 4 ∷ [];
  closings = [];
  trackers = [];
  jdwp_text = [];
  next_id = 7;
  locked = false;
  transports = λ t. record quiet_transport { token = replicate token_size 3; disconnects = 2 ∷ [] };
  transport_list = 0 ∷ [];
  write_replies = accepted 2 ∷ [];
  random = replicate token_size 4 ∷ [];
  framework_fd = none;
  written = [];
  closed = [];
}

store-Linked : Linked 1 2 0 near far heap (1 ∷ 4 ∷ [])
unfolding member
store-Linked = record {
  at_s = refl;
  at_p = refl;
  apart = λ e. omega (arith, e);
  x_close = refl;
  y_close = refl;
  x_peer = refl;
  y_transport = refl;
  on_ring = refl;
  stays = refl;
}

call_close_effect_example : Returns (call_close 1 store) (λ _ σ'.
    (σ'.heap 1 ≡ none)
    × (σ'.heap 2 ≡ none)
    × (σ'.heap 3 ≡ heap 3)
    × (σ'.locked ≡ false)
    × (σ'.locals ≡ unlink 1 store.locals)
    × ((σ'.transports 0).sent ≡ (store.transports 0).sent ++ (stamp (control a_clse 0 9) ∷ []))
    × ((σ'.transports 0).disconnects ≡ unlink 2 (store.transports 0).disconnects))
call_close_effect_example =
    call_close_effect 1 2 0 3 near far store store-Linked refl refl (λ e. omega (arith, e))
      (λ e. omega (arith, e))

run_close_total_example :
    (run_close 7 pointer 1 store ≡ run_close 2 pointer 1 store)
    × (run_close 7 pointer 1 store ≢ no_fuel)
run_close_total_example = run_close_total 5 pointer 1 store

store_numbered : AreNumbered heap (1 ∷ 4 ∷ []) 7
unfolding member
store_numbered q on = elim (Bool-cases (1 == q)) [
  | inl one ↦ (near, ground (arith, one), omega arith)
  | inr other ↦ (waiting, ground (arith, other, on), omega arith)
]

local_enqueue_lem_example :
    (verdict : Verdict) × (y : Socket) × (σ' : State) × Takes 1
      (5 ∷ 6 ∷ 7 ∷ [])
      near
      store
      verdict
      y
      σ'
unfolding push
local_enqueue_lem_example = local_enqueue_lem 1 (5 ∷ 6 ∷ 7 ∷ []) near store refl (λ e. cc)

-- A device that requires authorization and trusts the key 1, which signs a token as itself.
abbrev pub device : Env
device = record {
  service_to_fd = λ name. none;
  is_root = true;
  host = false;
  auth_enabled = true;
  banner = [];
  keys = 1 ∷ [];
  rsa_verify = λ key sig token. length sig == 256;
}

abbrev signature : Packet
signature = payload_packet a_auth 2 0 (replicate 256 0)

abbrev forged : Packet
forged = payload_packet a_auth 2 0 (replicate 5 0)

-- The random source has two tokens.
abbrev guessed : State
guessed = record store { random = replicate token_size 4 ∷ replicate token_size 5 ∷ [] }
