-- ===== src/Fdevent/Process/Dispatch.antt =====
-- The inner loop of `fdevent_loop`, adbd/src/fdevent.c, up to the call of the callback.
use stm32f429_adbd.Common.{ℕ, ◌≡◌, true, false, some, List, ◌∷◌, arith}
use stm32f429_adbd.Fdevent.{Loop, no_bits, set_fde}
use stm32f429_adbd.Fdevent.Invariant.{IsSynced}
use stm32f429_adbd.Fdevent.Process.{fdevent_plist_dequeue, fdevent_call_fdfunc}

-- The state in which the callback runs.
abbrev pub dispatched : ℕ → List ℕ → Loop → Loop
dispatched p rest σ =
    set_fde p (record (σ.fds p) { events = no_bits; pending = false })
      (record σ { list_pending = rest })

-- The fdevent that has waited longest leaves the list, and its callback gets its descriptor and all
-- its events, which are cleared before that; it is pending no more and the invariant holds.
pub fdevent_call_fdfunc_lem :
    (p : ℕ) (rest : List ℕ) (σ : Loop)
    → IsSynced σ
    → σ.list_pending ≡ p ∷ rest
    → (σ' : Loop) × (fdevent_plist_dequeue σ ≡ some (p, σ'))
      × (fdevent_call_fdfunc p σ' ≡ (some ((σ.fds p).fd, (σ.fds p).events), dispatched p rest σ))
      × IsSynced (dispatched p rest σ)
unfolding fdevent_plist_dequeue fdevent_call_fdfunc
fdevent_call_fdfunc_lem p rest σ s first =
    let waits : (σ.fds p).pending ≡ true = ground (arith, s.queued p, first) in
    (
      record σ { list_pending = rest },
      ground (arith, first),
      ground (arith, waits),
      record {
        entry = λ f q h. ground (arith, s.entry f q h);
        registered = λ q h. ground (arith, s.registered q, h);
        reads = λ f. ground (arith, s.reads f);
        writes = λ f. ground (arith, s.writes f);
        errors = λ f. ground (arith, s.errors f);
        narrow = s.narrow;
        whole = s.whole;
        live = λ q h. ground (arith, s.live q, h);
        queued = λ q. ground (arith, s.queued q, first, waits);
      },
    )
