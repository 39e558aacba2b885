-- ===== src/Fdevent/Process/Delivery.antt =====
-- Which events reach an fdevent, and in which state a round leaves the loop.
use stm32f429_adbd.Common.{
  ℕ, zero, suc, ◌+◌, ◌-◌, ◌≤◌, ◌<◌, ◌≡◌, ◌≢◌, refl, true, false, ◌&&◌, none, some, ◌==◌,
  if◌then◌else◌, arith, sym, ◌∙◌, leb, ltb, Bool-cases, Option-cases, inl, inr, ◌⊎◌,
}
use stm32f429_adbd.Fdevent.{Bits, Fdevent, Loop, both_bits, is_zero}
use stm32f429_adbd.Fdevent.Invariant.{IsSynced, times-append}
use stm32f429_adbd.Fdevent.Process.{Sets, ready_bits, ready_count, mark, mark_from}

pub mark-IsSynced :
    (p : ℕ) (events : Bits) (σ : Loop)
    → IsSynced σ
    → (σ.fds p).active ≡ true
    → IsSynced (mark p events σ)
unfolding mark
mark-IsSynced p events σ s act = go (Bool-cases (σ.fds p).pending)
  where
    go : ((σ.fds p).pending ≡ true) ⊎ ((σ.fds p).pending ≡ false) → IsSynced (mark p events σ)
    go (inl waits) = record {
      entry = λ f q h. ground (arith, s.entry f q, h, waits);
      registered = λ q h. ground (arith, s.registered q, h, waits);
      reads = λ f. ground (arith, s.reads f, waits);
      writes = λ f. ground (arith, s.writes f, waits);
      errors = λ f. ground (arith, s.errors f, waits);
      narrow = ground (arith, s.narrow, waits);
      whole = ground (arith, s.whole, waits);
      live = λ q h. ground (arith, s.live q, h, act, waits);
      queued = λ q. ground (arith, s.queued q, waits);
    }
    go (inr idle) = record {
      entry = λ f q h. ground (arith, s.entry f q, h, idle);
      registered = λ q h. ground (arith, s.registered q, h, idle);
      reads = λ f. ground (arith, s.reads f, idle);
      writes = λ f. ground (arith, s.writes f, idle);
      errors = λ f. ground (arith, s.errors f, idle);
      narrow = ground (arith, s.narrow, idle);
      whole = ground (arith, s.whole, idle);
      live = λ q h. ground (arith, s.live q, h, act, idle);
      queued = λ q. ground (arith, s.queued q, idle, times-append p q σ.list_pending);
    }

-- The ready descriptors are registered.
abbrev pub AreRegistered : Sets → Loop → Type 0
AreRegistered sets σ = (i : ℕ) → is_zero (ready_bits sets i) ≡ false → σ.fd_table i ≢ none

mark-fd_table :
    (p : ℕ) (events : Bits) (σ : Loop) (f : ℕ) → (mark p events σ).fd_table f ≡ σ.fd_table f
unfolding mark
mark-fd_table p events σ f = ground arith

-- The ready events at `left` descriptors from `i` on.
unfoldable pub ready_total : Sets → ℕ → ℕ → ℕ
ready_total sets zero i = 0
ready_total sets (suc left) i = ready_count sets i + ready_total sets left (suc i)

none_ready :
    (sets : Sets) (left i f : ℕ)
    → ready_total sets left i ≡ 0
    → i ≤ f
    → f < i + left
    → is_zero (ready_bits sets f) ≡ true
unfolding ready_total
none_ready sets zero i f h low high = absurd (omega arith)
none_ready sets (suc left) i f h low high = elim (Bool-cases (i == f)) [
  | inl here ↦ ground (arith, here, h)
  | inr later ↦
      none_ready sets left (suc i) f (omega (arith, h)) (ground (arith, later, low)) (omega arith)
]

-- An fdevent with its descriptor's ready events added, pending if there are any.
abbrev pub hit : Bits → Fdevent → Fdevent
hit events x =
    if is_zero events then x else record x { events = both_bits x.events events; pending = true }

mark-fds :
    (q p : ℕ) (events : Bits) (σ : Loop)
    → (mark q events σ).fds p ≡ (
        if q == p
        then record (σ.fds p) { events = both_bits (σ.fds p).events events; pending = true }
        else σ.fds p)
unfolding mark
mark-fds q p events σ = ground arith

step :
    (sets : Sets) (left i : ℕ) (σ σ' : Loop)
    → IsSynced σ
    → (p q : ℕ) → (σ.fds p).active ≡ true
    → σ.fd_table i ≡ some q
    → is_zero (ready_bits sets i) ≡ false
    → {x : Fdevent}
    → x ≡ (
        if q == p
        then record (σ.fds p) {
          events = both_bits (σ.fds p).events (ready_bits sets i);
          pending = true;
        }
        else σ.fds p)
    → (x.active ≡ true
        → σ'.fds p ≡ (
            if leb (suc i) x.fd && ltb x.fd (suc i + left)
            then hit (ready_bits sets x.fd) x
            else x))
    → σ'.fds p ≡ (
        if leb i (σ.fds p).fd && ltb (σ.fds p).fd (i + suc left)
        then hit (ready_bits sets (σ.fds p).fd) (σ.fds p)
        else σ.fds p)
step sets left i σ σ' s p q act h ready {x} hx got = elim (Bool-cases (q == p)) [
  | inl same ↦
      let fd_is : (σ.fds p).fd ≡ i = ground (arith, s.entry i q h, same) in
      let x_is : x ≡ record (σ.fds p) {
        events = both_bits (σ.fds p).events (ready_bits sets i);
        pending = true;
      } =
        ground (arith, hx, same) in
      ground (arith, fd_is, x_is, got, act, ready)
  | inr other ↦
      let same : x ≡ σ.fds p = ground (arith, hx, other) in
      let apart : (σ.fds p).fd ≢ i = λ e. ground (arith, s.registered p act, e, h, other) in
      ground (arith, apart, same, got, act)
]

-- The round goes through, and a registered fdevent gets what its descriptor has among those
-- visited.
pub mark_from_lem :
    (sets : Sets) (left i n : ℕ) (σ : Loop)
    → IsSynced σ
    → AreRegistered sets σ
    → ready_total sets left i ≤ n
    → (σ' : Loop) × (mark_from sets left i n σ ≡ some σ')
      × IsSynced σ'
      × ((p : ℕ)
          → (σ.fds p).active ≡ true
          → σ'.fds p ≡ (
              if leb i (σ.fds p).fd && ltb (σ.fds p).fd (i + left)
              then hit (ready_bits sets (σ.fds p).fd) (σ.fds p)
              else σ.fds p))
unfolding mark_from ready_total
mark_from_lem sets zero i n σ s reg all = (σ, refl, s, λ p act. ground arith)
mark_from_lem sets (suc left) i zero σ s reg all = (
  σ,
  refl,
  s,
  λ p act. ground (arith, none_ready sets (suc left) i (σ.fds p).fd (omega (arith, all))),
)
mark_from_lem sets (suc left) i (suc n) σ s reg all =
    elim (Bool-cases (is_zero (ready_bits sets i))) [
      | inl quiet ↦
          let (σ', e, s', got) =
            mark_from_lem sets left (suc i) (suc n) σ s reg (omega (arith, all)) in
          (σ', ground (arith, quiet, e), s', λ p act. ground (arith, quiet, got p act))
      | inr ready ↦ elim (Option-cases (σ.fd_table i)) [
        | inl missing ↦ absurd (reg i ready missing)
        | inr found ↦
            let (q, h) = found in
            let (σ', e, s', got) =
              mark_from_lem sets left (suc i) (suc n - ready_count sets i)
                (mark q (ready_bits sets i) σ)
                (mark-IsSynced q (ready_bits sets i) σ s (s.entry i q h).1)
                (λ f r m. reg f r (sym (mark-fd_table q (ready_bits sets i) σ f) ∙ m))
                (omega (arith, all)) in
            (
              σ',
              ground (arith, ready, h, e),
              s',
              λ p act.
                  step sets left i σ σ' s p q act h ready (mark-fds q p (ready_bits sets i) σ)
                    (got p),
            )
      ]
    ]
