-- ===== src/Tests/Lifecycle.antt =====
-- A transport that goes online, loses its remote end, and is freed.
use stm32f429_adbd.Common.{◌≤◌, ◌≡◌, refl, true, false, [], ◌∷◌, arith}
use stm32f429_adbd.Packet.{stamp, get_apacket}
use stm32f429_adbd.Lifecycle.{
  kick_test, kick_lock, kick_call, unref, ended, output_exit, closing, input_exit, Pump,
  sync_packet, registered, test_kicked, test_open, lock_first, kick, unref_more, unref_last, Work,
  announce, lose, post, leave_output, hear_offline, hear_online, close_sockets, leave_input,
  main_sync, main_removes, works, Reach, start, later,
}
use stm32f429_adbd.Lifecycle.Safety.{kick_once, removed_lem}
use stm32f429_adbd.Lifecycle.Progress.{Works, no_deadlock, shutdown_completes}

-- The output thread has posted that the remote end is gone, and begins to leave.
abbrev leaving : Pump
leaving = record (registered 1) {
  sync_token = 2;
  to_main = sync_packet 1 2 ∷ sync_packet 0 0 ∷ [];
  output = output_exit kick_test;
}

leaving-Reach : Reach 1 leaving
leaving-Reach =
    later (later (later start (works (announce refl))) (works (lose refl))) (works (post refl))

-- The input thread has heard both messages.
abbrev heard : Pump
heard = record (registered 1) {
  sync_token = 2;
  active = true;
  output = output_exit kick_test;
  input = closing;
}

heard-Reach : Reach 1 heard
unfolding stamp sync_packet get_apacket
heard-Reach =
    later
      (later
        (later (later leaving-Reach (works (main_sync _ _ refl refl refl)))
          (works (main_sync _ _ refl refl refl)))
        (works (hear_online _ _ refl refl refl (ground arith) refl)))
      (works (hear_offline _ _ refl refl refl refl))

abbrev half : Pump
half = record heard {
  core = record { kicked = true; ref_count = 1; kicks = 1; closes = 0; removals = 0 };
  output = output_exit ended;
}

half-Reach : Reach 1 half
half-Reach =
    later
      (later
        (later
          (later heard-Reach (works (leave_output kick_test kick_lock _ refl (test_open refl))))
          (works (leave_output kick_lock kick_call _ refl (lock_first refl))))
        (works (leave_output kick_call unref _ refl kick)))
      (works (leave_output unref ended _ refl (unref_more 0 refl)))

abbrev gone : Pump
gone = record half {
  core = record { kicked = true; ref_count = 0; kicks = 1; closes = 1; removals = 0 };
  input = input_exit ended;
  is_removed = true;
}

gone-Reach : Reach 1 gone
gone-Reach =
    later
      (later
        (later (later half-Reach (works (close_sockets refl)))
          (works (leave_input kick_test unref _ refl (test_kicked refl))))
        (works (leave_input unref ended _ refl (unref_last refl))))
      (works (main_removes 0 refl))

kick_once_example : (gone.core.closes ≤ gone.core.kicks) × (gone.core.kicks ≤ 1)
kick_once_example = kick_once 1 gone gone-Reach

removed_lem_example :
    (gone.output ≡ output_exit ended)
    × (gone.input ≡ input_exit ended)
    × (gone.core.ref_count ≡ 0)
    × (gone.core.kicks ≡ 1)
    × (gone.core.closes ≡ 1)
removed_lem_example = removed_lem 1 gone gone-Reach refl

no_deadlock_example : (u : Pump) × Work leaving u × (u.is_broken ≡ false)
no_deadlock_example = no_deadlock 1 leaving leaving-Reach refl refl

shutdown_completes_example : (u : Pump) × Works leaving u × (u.is_removed ≡ true)
shutdown_completes_example = shutdown_completes 1 leaving leaving-Reach refl refl
