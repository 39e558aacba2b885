-- ===== src/Tests/Trackers.antt =====
-- The list of JDWP processes and the trackers that are told of it.
use stm32f429_adbd.Common.{
  ℕ, ◌≡◌, ◌<◌, ◌-◌, ◌++◌, refl, Option, none, some, List, [], ◌∷◌, ◌==◌, if◌then◌else◌, arith,
  codes, take, drop, length,
}
use stm32f429_adbd.Hex.{unhex}
use stm32f429_adbd.Engine.{
  Socket, State, jdwp_tracker_enqueue, jdwp_tracker_ready, jdwp_tracker_close,
}
use stm32f429_adbd.Engine.Monad.{ok}
use stm32f429_adbd.Service.{local_socket, remote_socket}
use stm32f429_adbd.Jdwp.{JdwpProcess, jdwp_process_alloc}
use stm32f429_adbd.Jdwp.Known.{
  jdwp_process_list, jdwp_process_list_msg, known, IsLongest, jdwp_process_list_msg_lem,
}
use stm32f429_adbd.Jdwp.Trackers.{
  all_news, jdwp_process_list_updated, jdwp_process_list_updated_lem,
}
use stm32f429_adbd.Tests.Daemon.{store}

-- The second has not sent its pid yet.
abbrev processes : List JdwpProcess
processes =
    record (jdwp_process_alloc 5) { pid = some 77 }
    ∷ jdwp_process_alloc 6
    ∷ record (jdwp_process_alloc 7) { pid = some 1234 }
    ∷ []

jdwp_process_list_test : jdwp_process_list processes 100 ≡ codes "77\n1234\n"
unfolding jdwp_process_list jdwp_process_alloc
jdwp_process_list_test = refl

-- One byte too few for the last line and its NUL.
jdwp_process_list_cut_test : jdwp_process_list processes 8 ≡ codes "77\n"
unfolding jdwp_process_list jdwp_process_alloc
jdwp_process_list_cut_test = refl

jdwp_process_list_msg_lem_example :
    let msg = jdwp_process_list_msg processes 1024 in
    (length msg < 1024)
    × (unhex (take 4 msg) ≡ length (drop 4 msg))
    × IsLongest (drop 4 msg) (1024 - 4) (known processes)
jdwp_process_list_msg_lem_example =
    jdwp_process_list_msg_lem processes 1024 (omega arith) (omega arith)

-- Two trackers, linked to remote sockets on two transports.
abbrev tracker : ℕ → ℕ → Socket
tracker id p = record (local_socket 0 0) {
  id = id;
  peer = some p;
  enqueue = jdwp_tracker_enqueue;
  ready = jdwp_tracker_ready;
  close = jdwp_tracker_close;
}

abbrev heap : ℕ → Option Socket
heap p =
    if p == 1
    then some (tracker 5 2)
    else if p == 2
    then some (record (remote_socket 9 0) { peer = some 1 })
    else if p == 3
    then some (tracker 6 4)
    else if p == 4
    then some (record (remote_socket 8 1) { peer = some 3 })
    else none

abbrev watched : State
watched = record store { heap = heap; trackers = 1 ∷ 3 ∷ [] }

jdwp_process_list_updated_lem_example :
    (σ' : State) × (jdwp_process_list_updated (codes "0000") watched ≡ ok tt σ')
    × (σ'.heap ≡ heap)
    × ((k : ℕ)
        → (σ'.transports k).sent
          ≡ (watched.transports k).sent ++ all_news (codes "0000") k heap (1 ∷ 3 ∷ []))
jdwp_process_list_updated_lem_example = jdwp_process_list_updated_lem (codes "0000") watched (
  (
    tracker 5 2,
    2,
    record (remote_socket 9 0) { peer = some 1 },
    0,
    refl,
    refl,
    refl,
    refl,
    refl,
    refl,
  ),
  (
    (
      tracker 6 4,
      4,
      record (remote_socket 8 1) { peer = some 3 },
      1,
      refl,
      refl,
      refl,
      refl,
      refl,
      refl,
    ),
    tt,
  ),
)
