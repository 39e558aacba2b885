-- ===== src/Tests/Loop.antt =====
-- The event loop with one fdevent.
use stm32f429_adbd.Common.{
  length, ◌≤◌, ◌≡◌, refl, true, false, none, some, [], ◌∷◌, ◌++◌, ◌==◌, if◌then◌else◌, arith,
}
use stm32f429_adbd.Fdevent.{
  Bits, Loop, no_bits, fresh_fde, fdevent_install, fdevent_remove, fdevent_set,
}
use stm32f429_adbd.Fdevent.Invariant.{IsSynced, times, fdevent_set-IsSynced}
use stm32f429_adbd.Fdevent.Registration.{fdevent_install-IsSynced, fdevent_remove-IsSynced}
use stm32f429_adbd.Fdevent.Process.{Sets, selected, bad_descriptor, fdevent_process, ready_bits}
use stm32f429_adbd.Fdevent.Process.Delivery.{hit, ready_total}
use stm32f429_adbd.Fdevent.Process.Subproc.{
  told, fdevent_subproc_event_func, IsSound, fdevent_subproc_event_func-IsSound,
}
use stm32f429_adbd.Fdevent.Process.Callback.{dels}
use stm32f429_adbd.Fdevent.Process.Daemon.{Answers}
use stm32f429_adbd.Fdevent.Process.Round.{fdevent_process_lem, fdevent_process-bad_descriptor}

abbrev reading : Bits
reading = record no_bits { read = true }

abbrev both : Bits
both = record reading { write = true }

-- The fdevent at 1 reads the descriptor 3.
abbrev busy : Loop
busy = record {
  fds = λ p.
      if p == 1
      then record (fresh_fde 3) { wanted = reading }
      else record (fresh_fde 0) { active = false };
  fd_table = λ f. if f == 3 then some 1 else none;
  fd_table_max = 256;
  read_fds = λ f. f == 3;
  write_fds = λ _. false;
  error_fds = λ _. false;
  select_n = 4;
  list_pending = [];
  closed = [];
  overrun = false;
}

busy-IsSynced : IsSynced busy
busy-IsSynced = record {
  entry = λ f p h. ground (arith, h);
  registered = λ p h. ground (arith, h);
  reads = λ f. ground arith;
  writes = λ f. ground arith;
  errors = λ f. ground arith;
  narrow = omega arith;
  whole = refl;
  live = λ p h. ground (arith, h);
  queued = λ p. ground arith;
}

-- The same with a read pending.
abbrev late : Loop
late = record busy {
  fds = λ p.
      if p == 1
      then record (fresh_fde 3) { wanted = reading; events = reading; pending = true }
      else record (fresh_fde 0) { active = false };
  list_pending = 1 ∷ [];
}

late-IsSynced : IsSynced late
late-IsSynced = record {
  entry = λ f p h. ground (arith, h);
  registered = λ p h. ground (arith, h);
  reads = λ f. ground arith;
  writes = λ f. ground arith;
  errors = λ f. ground arith;
  narrow = omega arith;
  whole = refl;
  live = λ p h. ground (arith, h);
  queued = λ p. ground arith;
}

fdevent_install-IsSynced_example :
    (σ' : Loop) × (fdevent_install 2 600 busy ≡ some σ')
    × IsSynced σ'
    × (σ'.fd_table 600 ≡ some 2)
    × (σ'.list_pending ≡ [])
fdevent_install-IsSynced_example =
    fdevent_install-IsSynced 2 600 busy busy-IsSynced refl refl refl (omega arith)

fdevent_remove-IsSynced_example :
    (σ' : Loop) × (fdevent_remove 1 late ≡ some σ')
    × IsSynced σ'
    × (σ'.fd_table 3 ≡ none)
    × (times 1 σ'.list_pending ≡ 0)
    × (length σ'.list_pending ≤ length late.list_pending)
    × (σ'.closed ≡ [] ++ (3 ∷ []))
fdevent_remove-IsSynced_example = fdevent_remove-IsSynced 1 late late-IsSynced refl

fdevent_set-IsSynced_example : IsSynced (fdevent_set 1 both late)
fdevent_set-IsSynced_example = fdevent_set-IsSynced 1 both late late-IsSynced refl

abbrev answer : Sets
answer = record { readable = λ f. f == 3; writable = λ _. false; failing = λ _. false }

fdevent_process_lem_example :
    (σ' : Loop) × (fdevent_process (λ _. false) (selected 1 answer) busy ≡ some σ')
    × IsSynced σ'
    × (σ'.fds 1 ≡ hit (ready_bits answer 3) (busy.fds 1))
unfolding ready_total
fdevent_process_lem_example =
    fdevent_process_lem (λ _. false) 0 answer busy 1 busy-IsSynced
      (record { readable_asked = λ i h. h; writable_asked = λ i h. h; failing_asked = λ i h. h })
      (omega arith) refl

fdevent_process-bad_descriptor_example :
    (σ' : Loop) × (fdevent_process (λ f. f == 3) bad_descriptor busy ≡ some σ')
    × IsSynced σ'
    × (σ'.fds 1 ≡ hit (record no_bits { read = true }) (busy.fds 1))
fdevent_process-bad_descriptor_example =
    fdevent_process-bad_descriptor (λ f. f == 3) busy 1 busy-IsSynced refl

-- The callback of each fdevent stops reading, as that of a local socket does whose peer is not
-- ready, and the waiters name the descriptor 3.
abbrev answers : Answers
answers = record {
  script = λ fd events σ. elim (σ.fd_table fd) [ none ↦ [] | some p ↦ dels p reading ∷ [] ];
  sent = λ σ. told 3;
  rcount = λ σ. 0;
}

-- The waiter has written 3, and nothing is left to read.
fdevent_subproc_event_func-IsSound_example :
    IsSound (told 3) 0 (fdevent_subproc_event_func 3 true (told 3) 0 busy)
fdevent_subproc_event_func-IsSound_example =
    fdevent_subproc_event_func-IsSound 3 1 true (told 3) 0 busy busy-IsSynced refl
