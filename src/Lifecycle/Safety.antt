-- ===== src/Lifecycle/Safety.antt =====
-- What holds of a transport in every reachable state of its threads, adbd/src/transport.c.
use stm32f429_adbd.Common.{ℕ, ◌≤◌, ◌≡◌, Bool, true, arith}
use stm32f429_adbd.Lifecycle.{
  Exit, ended, OutputThread, output_exit, InputThread, input_exit, Core, Pump, Reach,
}
use stm32f429_adbd.Lifecycle.Invariant.{holds, output_stage, input_stage, IsCounted, Reach-IsSound}

-- However the threads interleave, the transport is kicked at most once and closed at most once, and
-- it is not closed before it was kicked.
pub kick_once :
    (token : ℕ) (s : Pump) → Reach token s → (s.core.closes ≤ s.core.kicks) × (s.core.kicks ≤ 1)
kick_once token s r =
    counts s.core (output_stage s.output) (input_stage s.input) s.is_removed
      (Reach-IsSound r).counted
  where
    counts :
        (c : Core) (a b : Exit) (r : Bool)
        → IsCounted c a b r
        → (c.closes ≤ c.kicks) × (c.kicks ≤ 1)
    counts c a b r i = ground (arith, i)

output_ended : (o : OutputThread) → holds (output_stage o) ≡ 0 → o ≡ output_exit ended
output_ended o h = ground (arith, h)

input_ended : (i : InputThread) → holds (input_stage i) ≡ 0 → i ≡ input_exit ended
input_ended i h = ground (arith, h)

-- When the main thread frees the atransport, both threads have ended and will not touch it again,
-- and it was kicked once and closed once.
pub removed_lem :
    (token : ℕ) (s : Pump)
    → Reach token s
    → s.is_removed ≡ true
    → (s.output ≡ output_exit ended)
      × (s.input ≡ input_exit ended)
      × (s.core.ref_count ≡ 0)
      × (s.core.kicks ≡ 1)
      × (s.core.closes ≡ 1)
removed_lem token s r gone =
    let (none_a, none_b, zero_refs, one_kick, one_close) =
      done s.core (output_stage s.output) (input_stage s.input) s.is_removed
        (Reach-IsSound r).counted gone in
    (output_ended s.output none_a, input_ended s.input none_b, zero_refs, one_kick, one_close)
  where
    done :
        (c : Core) (a b : Exit) (r : Bool)
        → IsCounted c a b r
        → r ≡ true
        → (holds a ≡ 0) × (holds b ≡ 0) × (c.ref_count ≡ 0) × (c.kicks ≡ 1) × (c.closes ≡ 1)
    done c a b r i e = ground (arith, i, e)
