-- ===== src/Fdevent/Process/Daemon.antt =====
-- The event loop of adbd/src/fdevent.c with the callbacks of the daemon:
-- `fdevent_subproc_event_func` on the descriptor that `fdevent_subproc_setup` watches, and calls
-- of the loop's functions on the others.
use stm32f429_adbd.Common.{ℕ, ◌≤◌, ◌≡◌, ◌≢◌, Option, none, some, List, length, if◌then◌else◌, ◌==◌}
use stm32f429_adbd.Fdevent.{Bits, Loop}
use stm32f429_adbd.Fdevent.Invariant.{IsSynced}
use stm32f429_adbd.Fdevent.Process.Subproc.{
  Told, broken, told, Handled, fatal, crashes, returns, calls, fdevent_subproc_event_func,
}
use stm32f429_adbd.Fdevent.Process.Callback.{Operation, performs, AreProper}

-- What the callbacks other than that of the subprocesses call, and what the pipe of the waiters and
-- FIONREAD answer.
pub record Answers : Type 0 where
  pub script : ℕ → Bits → Loop → List Operation
  pub sent : Loop → Told
  pub rcount : Loop → ℕ

-- After the handler, with the callback that it calls.
unfoldable pub finished : Answers → Handled → Option Loop
unfolding performs
finished a fatal = none
finished a crashes = none
finished a (returns τ) = some τ
finished a (calls g events τ) = performs (a.script g events τ) τ

-- `fde->func`, where `own` is the descriptor that the waiters write to.
unfoldable pub daemon_callback : Answers → ℕ → ℕ → Bits → Loop → Option Loop
unfolding finished fdevent_subproc_event_func performs
daemon_callback a own fd events σ =
    if fd == own
    then finished a (fdevent_subproc_event_func fd events.read (a.sent σ) (a.rcount σ) σ)
    else performs (a.script fd events σ) σ

-- The pipe is not broken, no waiter names the pipe's own descriptor, and each callback uses the
-- loop properly.
pub record IsDaemon (a : Answers) (own : ℕ) : Type 0 where
  pub unbroken : (σ : Loop) → a.sent σ ≢ broken
  pub apart : (σ : Loop) → a.sent σ ≢ told own
  pub proper :
      (fd p : ℕ) (events : Bits) (σ : Loop)
      → IsSynced σ
      → σ.fd_table fd ≡ some p
      → fd ≢ own
      → AreProper (a.script fd events σ) σ

-- The handler makes no fdevent pending.
abbrev AtMost : ℕ → Handled → Type 0
AtMost n fatal = Unit {0}
AtMost n crashes = Unit {0}
AtMost n (returns τ) = length τ.list_pending ≤ n
AtMost n (calls g events τ) = length τ.list_pending ≤ n
