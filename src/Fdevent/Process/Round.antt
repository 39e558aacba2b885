-- ===== src/Fdevent/Process/Round.antt =====
-- What a whole round of `fdevent_process` does, after each answer of `select`.
use stm32f429_adbd.Common.{
  ℕ, zero, suc, ◌≤◌, ◌≡◌, refl, Bool, true, false, ◌||◌, Option, some, arith, ◌∙◌,
}
use stm32f429_adbd.Fdevent.{Loop, no_bits}
use stm32f429_adbd.Fdevent.Invariant.{IsSynced}
use stm32f429_adbd.Fdevent.Process.{
  Sets, Selected, selected, bad_descriptor, interrupted, other_error, bad_count, bad_set,
  ready_bits, fake_reads, on_selected, fdevent_process,
}
use stm32f429_adbd.Fdevent.Process.Delivery.{AreRegistered, ready_total, hit, mark_from_lem}

-- `select` reports nothing that it was not asked about.
pub record IsAnswer (sets : Sets) (σ : Loop) : Type 0 where
  pub readable_asked : (i : ℕ) → sets.readable i ≡ true → σ.read_fds i ≡ true
  pub writable_asked : (i : ℕ) → sets.writable i ≡ true → σ.write_fds i ≡ true
  pub failing_asked : (i : ℕ) → sets.failing i ≡ true → σ.error_fds i ≡ true

answer-AreRegistered :
    (sets : Sets) (σ : Loop) → IsSynced σ → IsAnswer sets σ → AreRegistered sets σ
answer-AreRegistered sets σ s a i ready missing = ground (
  arith,
  ready,
  missing,
  s.reads i,
  s.writes i,
  s.errors i,
  a.readable_asked i,
  a.writable_asked i,
  a.failing_asked i,
)

-- The descriptors are within the sets.
within_sets :
    (is_bad : ℕ → Bool) (answer : Selected) (σ : Loop)
    → IsSynced σ
    → fdevent_process is_bad answer σ ≡ on_selected is_bad answer σ
unfolding fdevent_process
within_sets is_bad answer σ s = ground (arith, s.narrow)

-- After `select` has reported ready descriptors, and their number, the round succeeds, keeps the
-- invariant, and adds to an installed fdevent exactly the events of its descriptor; it is then
-- pending if there were any.
pub fdevent_process_lem :
    (is_bad : ℕ → Bool) (n : ℕ) (sets : Sets) (σ : Loop) (p : ℕ)
    → IsSynced σ
    → IsAnswer sets σ
    → ready_total sets σ.select_n 0 ≤ suc n
    → (σ.fds p).active ≡ true
    → (σ' : Loop) × (fdevent_process is_bad (selected (suc n) sets) σ ≡ some σ')
      × IsSynced σ'
      × (σ'.fds p ≡ hit (ready_bits sets (σ.fds p).fd) (σ.fds p))
unfolding on_selected
fdevent_process_lem is_bad n sets σ p s a all act =
    let (σ', e, s', got) =
      mark_from_lem sets σ.select_n 0 (suc n) σ s (answer-AreRegistered sets σ s a) all in
    (
      σ',
      within_sets is_bad (selected (suc n) sets) σ s ∙ e,
      s',
      ground (arith, got p act, s.registered p act, s.entry (σ.fds p).fd p (s.registered p act)),
    )

-- What is processed after EBADF: a read of each bad descriptor.
abbrev faked : (ℕ → Bool) → (ℕ → Option ℕ) → Sets
faked is_bad table = record {
  readable = λ i. false || bad_set is_bad table i;
  writable = λ _. false;
  failing = λ _. false;
}

bad_total :
    (is_bad : ℕ → Bool) (table : ℕ → Option ℕ) (left i : ℕ)
    → ready_total (faked is_bad table) left i ≡ bad_count is_bad table left i
unfolding ready_total bad_count bad_set
bad_total is_bad table zero i = refl
bad_total is_bad table (suc left) i = ground (arith, bad_total is_bad table left (suc i))

bad-AreRegistered : (is_bad : ℕ → Bool) (σ : Loop) → AreRegistered (faked is_bad σ.fd_table) σ
unfolding bad_set
bad-AreRegistered is_bad σ i ready missing = ground (arith, ready, missing)

-- After EBADF the round succeeds, keeps the invariant, and fakes a read for an installed fdevent
-- exactly if its descriptor is bad.
pub fdevent_process-bad_descriptor :
    (is_bad : ℕ → Bool) (σ : Loop) (p : ℕ)
    → IsSynced σ
    → (σ.fds p).active ≡ true
    → (σ' : Loop) × (fdevent_process is_bad bad_descriptor σ ≡ some σ')
      × IsSynced σ'
      × (σ'.fds p ≡ hit (record no_bits { read = is_bad (σ.fds p).fd }) (σ.fds p))
unfolding on_selected fake_reads bad_set
fdevent_process-bad_descriptor is_bad σ p s act =
    let (σ', e, s', got) =
      mark_from_lem (faked is_bad σ.fd_table) σ.select_n 0
        (bad_count is_bad σ.fd_table σ.select_n 0) σ s (bad-AreRegistered is_bad σ)
        (omega (arith, bad_total is_bad σ.fd_table σ.select_n 0)) in
    (
      σ',
      within_sets is_bad bad_descriptor σ s ∙ e,
      s',
      ground (arith, got p act, s.registered p act, s.entry (σ.fds p).fd p (s.registered p act)),
    )

-- What `select` can answer: no descriptor that it was not asked about and the number of those that
-- are ready, or an error. Without a timeout it does not answer 0.
abbrev pub IsHonest : Selected → Loop → Type 0
IsHonest (selected zero sets) σ = ⊥
IsHonest (selected (suc n) sets) σ = IsAnswer sets σ × (ready_total sets σ.select_n 0 ≤ suc n)
IsHonest interrupted σ = Unit
IsHonest bad_descriptor σ = Unit
IsHonest other_error σ = Unit

-- A round uses no null pointer and keeps the invariant.
pub fdevent_process-IsSynced :
    (is_bad : ℕ → Bool) (answer : Selected) (σ : Loop)
    → IsSynced σ
    → IsHonest answer σ
    → (σ' : Loop) × (fdevent_process is_bad answer σ ≡ some σ') × IsSynced σ'
unfolding on_selected fake_reads
fdevent_process-IsSynced is_bad (selected zero sets) σ s h = absurd h
fdevent_process-IsSynced is_bad (selected (suc n) sets) σ s h =
    let (σ', e, s', _) =
      mark_from_lem sets σ.select_n 0 (suc n) σ s (answer-AreRegistered sets σ s h.0) h.1 in
    (σ', within_sets is_bad (selected (suc n) sets) σ s ∙ e, s')
fdevent_process-IsSynced is_bad interrupted σ s h = (σ, within_sets is_bad interrupted σ s, s)
fdevent_process-IsSynced is_bad bad_descriptor σ s h =
    let (σ', e, s', _) =
      mark_from_lem (faked is_bad σ.fd_table) σ.select_n 0
        (bad_count is_bad σ.fd_table σ.select_n 0) σ s (bad-AreRegistered is_bad σ)
        (omega (arith, bad_total is_bad σ.fd_table σ.select_n 0)) in
    (σ', within_sets is_bad bad_descriptor σ s ∙ e, s')
fdevent_process-IsSynced is_bad other_error σ s h = (σ, within_sets is_bad other_error σ s, s)
