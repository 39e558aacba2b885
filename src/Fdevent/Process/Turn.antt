-- ===== src/Fdevent/Process/Turn.antt =====
-- The inner loop of `fdevent_loop`, adbd/src/fdevent.c: the callbacks of all pending fdevents. They
-- are one argument: what they make of the state.
use stm32f429_adbd.Common.{
  ℕ, zero, suc, ◌<◌, ◌≡◌, refl, true, Option, none, some, List, [], ◌∷◌, arith, length, ap, ◌∙◌,
}
use stm32f429_adbd.Fdevent.{Bits, Loop}
use stm32f429_adbd.Fdevent.Invariant.{IsSynced}
use stm32f429_adbd.Fdevent.Process.{fdevent_plist_dequeue, fdevent_call_fdfunc}
use stm32f429_adbd.Fdevent.Process.Callback.{Keeps}
use stm32f429_adbd.Fdevent.Process.Dispatch.{dispatched, fdevent_call_fdfunc_lem}

-- A callback returns none where the process exits or uses a null pointer.
unfoldable pub called_back :
    (ℕ → Bits → Loop → Option Loop) → Option (ℕ × Bits) × Loop → Option Loop
called_back callback (none, σ) = some σ
called_back callback (some (fd, events), σ) = callback fd events σ

-- `while((fde = fdevent_plist_dequeue()))`, with fuel for so many fdevents and the last test.
unfoldable pub call_pending : (ℕ → Bits → Loop → Option Loop) → ℕ → Loop → Option Loop
unfolding called_back
call_pending callback zero σ = none
call_pending callback (suc fuel) σ = elim (fdevent_plist_dequeue σ) [
  | none ↦ some σ
  | some (p, σ') ↦ elim (called_back callback (fdevent_call_fdfunc p σ')) [
    | none ↦ none
    | some τ ↦ call_pending callback fuel τ
  ]
]

-- What a callback of an fdevent in the table does: it goes through, keeps the invariant, and
-- makes no fdevent pending.
abbrev pub IsCallback : (ℕ → Bits → Loop → Option Loop) → Type 0
IsCallback callback =
    (fd p : ℕ) (events : Bits) (σ : Loop)
    → IsSynced σ
    → σ.fd_table fd ≡ some p
    → Keeps (callback fd events σ) σ

abbrev went : (ℕ → Bits → Loop → Option Loop) → ℕ → Loop → Option (ℕ × Loop) → Option Loop
went callback fuel σ none = some σ
went callback fuel σ (some (p, σ')) = elim (called_back callback (fdevent_call_fdfunc p σ')) [
  | none ↦ none
  | some τ ↦ call_pending callback fuel τ
]

call_pending-went :
    (callback : ℕ → Bits → Loop → Option Loop) (fuel : ℕ) (σ : Loop)
    → call_pending callback (suc fuel) σ ≡ went callback fuel σ (fdevent_plist_dequeue σ)
unfolding call_pending
call_pending-went callback fuel σ = go (fdevent_plist_dequeue σ)
  where
    go :
        (o : Option (ℕ × Loop))
        → elim o [
          | none ↦ some σ
          | some (p, σ') ↦ elim (called_back callback (fdevent_call_fdfunc p σ')) [
            | none ↦ none
            | some τ ↦ call_pending callback fuel τ
          ]
        ]
          ≡ went callback fuel σ o
    go none = refl
    go (some (p, τ)) = refl

call_pending-first :
    (callback : ℕ → Bits → Loop → Option Loop) (fuel p : ℕ) (rest : List ℕ) (σ τ : Loop)
    → IsSynced σ
    → σ.list_pending ≡ p ∷ rest
    → callback (σ.fds p).fd (σ.fds p).events (dispatched p rest σ) ≡ some τ
    → call_pending callback (suc fuel) σ ≡ call_pending callback fuel τ
unfolding called_back
call_pending-first callback fuel p rest σ τ s first e =
    let (σ', taken, call, _) = fdevent_call_fdfunc_lem p rest σ s first in
    call_pending-went callback fuel σ
    ∙ ap (went callback fuel σ) taken
    ∙ ap (λ (o : Option Loop). elim o [ none ↦ none | some x ↦ call_pending callback fuel x ])
        (ap (called_back callback) call ∙ e)

none_left : (σ : Loop) → σ.list_pending ≡ [] → fdevent_plist_dequeue σ ≡ none
unfolding fdevent_plist_dequeue
none_left σ e = ground (arith, e)

abbrev Drains : (ℕ → Bits → Loop → Option Loop) → ℕ → Loop → Type 0
Drains callback fuel σ =
    (τ : Loop) × (call_pending callback fuel σ ≡ some τ) × IsSynced τ × (τ.list_pending ≡ [])

pending-Drains :
    (callback : ℕ → Bits → Loop → Option Loop) (fuel : ℕ) (σ : Loop)
    → IsCallback callback
    → IsSynced σ
    → ((τ : Loop)
        → IsSynced τ
        → length τ.list_pending < length σ.list_pending
        → Drains callback fuel τ)
    → (list : List ℕ) → σ.list_pending ≡ list
    → Drains callback (suc fuel) σ
pending-Drains callback fuel σ c s again [] e =
    (σ, call_pending-went callback fuel σ ∙ ap (went callback fuel σ) (none_left σ e), s, e)
pending-Drains callback fuel σ c s again (p ∷ rest) e =
    let act : (σ.fds p).active ≡ true = s.live p (ground (arith, s.queued p, e)) in
    let (ρ, run, r, shorter) =
      c (σ.fds p).fd p (σ.fds p).events (dispatched p rest σ)
        (fdevent_call_fdfunc_lem p rest σ s e).3 (s.registered p act) in
    let (τ, run', synced, done) = again ρ r (ground (arith, shorter, e)) in
    (τ, call_pending-first callback fuel p rest σ ρ s e run ∙ run', synced, done)

-- When each callback goes through, keeps the invariant and makes no fdevent pending, the loop
-- over the pending ones ends after one call for each at most; then the list is empty and the
-- invariant holds.
pub call_pending_total :
    (callback : ℕ → Bits → Loop → Option Loop) (fuel : ℕ) (σ : Loop)
    → IsCallback callback
    → IsSynced σ
    → length σ.list_pending < fuel
    → (τ : Loop) × (call_pending callback fuel σ ≡ some τ) × IsSynced τ × (τ.list_pending ≡ [])
call_pending_total callback zero σ c s enough = absurd (omega arith)
call_pending_total callback (suc fuel) σ c s enough =
    pending-Drains callback fuel σ c s
      (λ τ synced less. call_pending_total callback fuel τ c synced (omega arith)) σ.list_pending
      refl
