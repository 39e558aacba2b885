-- ===== src/Fdevent/Process/Run.antt =====
-- `fdevent_loop` and `fdevent_subproc_setup` of adbd/src/fdevent.c. What `select` and `fcntl`
-- answer in a turn may depend on the state; the callbacks are one argument.
use stm32f429_adbd.Common.{
  ℕ, zero, suc, ◌<◌, ◌≡◌, refl, Bool, true, false, Option, none, some, [], arith, length, ap, ◌∙◌,
}
use stm32f429_adbd.Fdevent.{fd_setsize, Bits, Loop, set_fde, fdevent_create, fdevent_add}
use stm32f429_adbd.Fdevent.Invariant.{IsSynced, touch-IsSynced, fdevent_set-IsSynced}
use stm32f429_adbd.Fdevent.Registration.{fdevent_install-IsSynced}
use stm32f429_adbd.Fdevent.Process.{Selected, fdevent_process}
use stm32f429_adbd.Fdevent.Process.Round.{IsHonest, fdevent_process-IsSynced}
use stm32f429_adbd.Fdevent.Process.Subproc.{fde_read}
use stm32f429_adbd.Fdevent.Process.Callback.{create-some}
use stm32f429_adbd.Fdevent.Process.Turn.{call_pending, IsCallback, call_pending_total}

-- `fdevent_subproc_setup`, with the address that malloc gives and one end of the socket pair.
unfoldable pub fdevent_subproc_setup : ℕ → ℕ → Loop → Option Loop
unfolding fdevent_create fdevent_add
fdevent_subproc_setup p fd σ = elim (fdevent_create p fd σ) [
  | none ↦ none
  | some σ' ↦ some (fdevent_add p fde_read σ')
]

-- One turn of the loop of `fdevent_loop`.
unfoldable pub turn :
    (ℕ → Bits → Loop → Option Loop) → (Loop → ℕ → Bool) → (Loop → Selected) → Loop → Option Loop
unfolding fdevent_process call_pending
turn callback is_bad select σ = elim (fdevent_process (is_bad σ) (select σ) σ) [
  | none ↦ none
  | some σ' ↦ call_pending callback (suc (length σ'.list_pending)) σ'
]

-- So many turns of the endless loop.
unfoldable pub turns :
    ℕ → (ℕ → Bits → Loop → Option Loop) → (Loop → ℕ → Bool) → (Loop → Selected) → Loop → Option Loop
unfolding turn
turns zero callback is_bad select σ = some σ
turns (suc n) callback is_bad select σ = elim (turn callback is_bad select σ) [
  | none ↦ none
  | some σ' ↦ turns n callback is_bad select σ'
]

unfoldable pub fdevent_loop :
    ℕ
    → ℕ
    → ℕ
    → (ℕ → Bits → Loop → Option Loop)
    → (Loop → ℕ → Bool)
    → (Loop → Selected)
    → Loop
    → Option Loop
unfolding fdevent_subproc_setup turns
fdevent_loop p fd n callback is_bad select σ = elim (fdevent_subproc_setup p fd σ) [
  | none ↦ none
  | some σ' ↦ turns n callback is_bad select σ'
]

turn-IsSynced :
    (callback : ℕ → Bits → Loop → Option Loop) (is_bad : Loop → ℕ → Bool) (select : Loop → Selected)
    (σ : Loop)
    → IsCallback callback
    → ((τ : Loop) → IsSynced τ → IsHonest (select τ) τ)
    → IsSynced σ
    → (τ : Loop) × (turn callback is_bad select σ ≡ some τ) × IsSynced τ × (τ.list_pending ≡ [])
unfolding turn
turn-IsSynced callback is_bad select σ c honest s =
    let (σ', e, s') = fdevent_process-IsSynced (is_bad σ) (select σ) σ s (honest σ s) in
    let (τ, run, synced, done) =
      call_pending_total callback (suc (length σ'.list_pending)) σ' c s' (omega arith) in
    (
      τ,
      ap
            (λ (o : Option Loop). elim o [
              | none ↦ none
              | some ρ ↦ call_pending callback (suc (length ρ.list_pending)) ρ
            ])
            e
          ∙ run,
      synced,
      done,
    )

turns-first :
    (n : ℕ) (callback : ℕ → Bits → Loop → Option Loop) (is_bad : Loop → ℕ → Bool)
    (select : Loop → Selected) (σ σ' : Loop)
    → turn callback is_bad select σ ≡ some σ'
    → turns (suc n) callback is_bad select σ ≡ turns n callback is_bad select σ'
unfolding turns
turns-first n callback is_bad select σ σ' =
    ap (λ (o : Option Loop). elim o [ none ↦ none | some ρ ↦ turns n callback is_bad select ρ ])

turns-IsSynced :
    (n : ℕ) (callback : ℕ → Bits → Loop → Option Loop) (is_bad : Loop → ℕ → Bool)
    (select : Loop → Selected) (σ : Loop)
    → IsCallback callback
    → ((τ : Loop) → IsSynced τ → IsHonest (select τ) τ)
    → IsSynced σ
    → (τ : Loop) × (turns (suc n) callback is_bad select σ ≡ some τ)
      × IsSynced τ
      × (τ.list_pending ≡ [])
unfolding turns
turns-IsSynced zero callback is_bad select σ c honest s =
    let (τ, run, synced, done) = turn-IsSynced callback is_bad select σ c honest s in
    (τ, turns-first zero callback is_bad select σ τ run, synced, done)
turns-IsSynced (suc n) callback is_bad select σ c honest s =
    let (σ', e, s', _) = turn-IsSynced callback is_bad select σ c honest s in
    let (τ, run, synced, done) = turns-IsSynced n callback is_bad select σ' c honest s' in
    (τ, turns-first (suc n) callback is_bad select σ σ' e ∙ run, synced, done)

fdevent_subproc_setup-IsSynced :
    (p fd : ℕ) (σ : Loop)
    → IsSynced σ
    → (σ.fds p).active ≡ false
    → (σ.fds p).pending ≡ false
    → σ.fd_table fd ≡ none
    → fd < fd_setsize
    → (σ' : Loop) × (fdevent_subproc_setup p fd σ ≡ some σ') × IsSynced σ'
unfolding fdevent_subproc_setup fdevent_add
fdevent_subproc_setup-IsSynced p fd σ s idle quiet free bound =
    let (ρ, e, r, own, _) = fdevent_install-IsSynced p fd σ s idle quiet free bound in
    let τ : Loop = set_fde p (record (ρ.fds p) { created = true }) ρ in
    let t : IsSynced τ =
      touch-IsSynced p (record (ρ.fds p) { created = true }) ρ r refl refl refl refl in
    (
      fdevent_add p fde_read τ,
      ap (λ (o : Option Loop). elim o [ none ↦ none | some x ↦ some (fdevent_add p fde_read x) ])
          (create-some p fd σ ρ e),
      fdevent_set-IsSynced p _ τ t (t.entry fd p own).1,
    )

-- The start of the loop and any number of its turns go through, for such callbacks.
pub fdevent_loop-IsSynced :
    (p fd n : ℕ) (callback : ℕ → Bits → Loop → Option Loop) (is_bad : Loop → ℕ → Bool)
    (select : Loop → Selected) (σ : Loop)
    → IsCallback callback
    → ((τ : Loop) → IsSynced τ → IsHonest (select τ) τ)
    → IsSynced σ
    → (σ.fds p).active ≡ false
    → (σ.fds p).pending ≡ false
    → σ.fd_table fd ≡ none
    → fd < fd_setsize
    → (τ : Loop) × (fdevent_loop p fd (suc n) callback is_bad select σ ≡ some τ)
      × IsSynced τ
      × (τ.list_pending ≡ [])
unfolding fdevent_loop
fdevent_loop-IsSynced p fd n callback is_bad select σ c honest s idle quiet free bound =
    let (σ', e, s') = fdevent_subproc_setup-IsSynced p fd σ s idle quiet free bound in
    let (τ, run, synced, done) = turns-IsSynced n callback is_bad select σ' c honest s' in
    (
      τ,
      ap
            (λ (o : Option Loop). elim o [
              | none ↦ none
              | some ρ ↦ turns (suc n) callback is_bad select ρ
            ])
            e
          ∙ run,
      synced,
      done,
    )
