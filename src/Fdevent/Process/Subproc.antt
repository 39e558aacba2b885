-- ===== src/Fdevent/Process/Subproc.antt =====
-- `fdevent_subproc_event_func` of adbd/src/fdevent.c: the waiter of a subprocess has written the
-- descriptor whose reader must see the end. What `readx` and FIONREAD answer are arguments.
use stm32f429_adbd.Common.{
  ℕ, ◌≡◌, refl, Bool, true, false, not, Option, none, some, ◌==◌, if◌then◌else◌, leb, arith,
  Bool-cases, inl, inr, ap, fun_ext, ◌∙◌, sym, subst, if-branches,
}
use stm32f429_adbd.Fdevent.{Bits, Loop, no_bits, both_bits, set_fde, fdevent_add}
use stm32f429_adbd.Fdevent.Invariant.{IsSynced, touch-IsSynced, fdevent_set-IsSynced}
use stm32f429_adbd.Fdevent.Process.{fdevent_call_fdfunc}

-- What `readx` puts into `subproc_fd`, if it returns 0.
pub data Told : Type 0 where
  broken negative : Told
  told : ℕ → Told

-- The handler exits by FATAL, uses a null pointer, returns, or calls the callback of the
-- subprocess's fdevent with a descriptor and events.
pub data Handled : Type 0 where
  fatal crashes : Handled
  returns : Loop → Handled
  calls : ℕ → Bits → Loop → Handled

abbrev pub fde_read : Bits
fde_read = record no_bits { read = true }

unfoldable pub called : Option (ℕ × Bits) × Loop → Handled
called (none, σ) = returns σ
called (some (fd, events), σ) = calls fd events σ

-- From `subproc_fde->events |= FDE_READ` on.
unfoldable pub fake_read : ℕ → Loop → Handled
unfolding called
fake_read q σ =
    let σ' = set_fde q (record (σ.fds q) { events = both_bits (σ.fds q).events fde_read }) σ in
    if (σ'.fds q).pending
    then returns σ'
    else called (fdevent_call_fdfunc q (set_fde q (record (σ'.fds q) { pending = true }) σ'))

-- From `subproc_fde->force_eof = 1` on; `rcount` bytes are left to read.
unfoldable pub force_end : ℕ → ℕ → Loop → Handled
unfolding fake_read
force_end q rcount σ =
    let σ' = set_fde q (record (σ.fds q) { force_eof = true }) σ in
    if not (rcount == 0) then returns σ' else fake_read q σ'

unfoldable pub on_told : Told → ℕ → Loop → Handled
unfolding force_end
on_told broken rcount σ = fatal
on_told negative rcount σ = returns σ
on_told (told g) rcount σ = if leb σ.fd_table_max g then returns σ else elim (σ.fd_table g) [
  | none ↦ returns σ
  | some q ↦ if not ((σ.fds q).fd == g) then returns σ else force_end q rcount σ
]

unfoldable pub fdevent_subproc_event_func : ℕ → Bool → Told → ℕ → Loop → Handled
unfolding on_told
fdevent_subproc_event_func fd readable sent rcount σ =
    if leb σ.fd_table_max fd then fatal else elim (σ.fd_table fd) [
      | none ↦ crashes
      | some p ↦
          let σ' = fdevent_add p fde_read σ in
          if readable then on_told sent rcount σ' else returns σ'
    ]

-- It exits only when the pipe is broken. Else the invariant holds when it returns, and when it
-- calls the callback: of the fdevent of the descriptor that was told, when nothing is left to read,
-- with a read among the events, none of which stays behind, and with the end forced.
abbrev pub IsSound : Told → ℕ → Handled → Type 0
IsSound sent rcount fatal = sent ≡ broken
IsSound sent rcount crashes = ⊥
IsSound sent rcount (returns τ) = IsSynced τ
IsSound sent rcount (calls g events τ) =
    IsSynced τ
    × (sent ≡ told g)
    × (rcount ≡ 0)
    × (events.read ≡ true)
    × ((q : ℕ) × (τ.fd_table g ≡ some q)
        × ((τ.fds q).force_eof ≡ true)
        × ((τ.fds q).events ≡ no_bits)
        × ((τ.fds q).pending ≡ false))

-- The fdevent when its callback is called: rewritten three times, it is what was written last.
abbrev pub rested : ℕ → Loop → Loop
rested q σ = set_fde q (record (σ.fds q) { events = no_bits; pending = false }) σ

ended-rested :
    (q : ℕ) (σ : Loop)
    → (let σ' = set_fde q (record (σ.fds q) { events = both_bits (σ.fds q).events fde_read }) σ in
        let σ'' = set_fde q (record (σ'.fds q) { pending = true }) σ' in
        set_fde q (record (σ''.fds q) { events = no_bits; pending = false }) σ'')
      ≡ rested q σ
ended-rested q σ = ap (λ f. record σ { fds = f }) (fun_ext λ x. ground arith)

pub fake_read-waits :
    (q : ℕ) (σ : Loop)
    → (σ.fds q).pending ≡ true
    → fake_read q σ
      ≡ returns (set_fde q (record (σ.fds q) { events = both_bits (σ.fds q).events fde_read }) σ)
unfolding fake_read
fake_read-waits q σ waits = ground (arith, waits)

pub fake_read-idle :
    (q : ℕ) (σ : Loop)
    → (σ.fds q).pending ≡ false
    → fake_read q σ ≡ calls (σ.fds q).fd (both_bits (σ.fds q).events fde_read) (rested q σ)
unfolding fake_read fdevent_call_fdfunc called
fake_read-idle q σ idle =
    ground (arith, idle)
    ∙ ap (calls (σ.fds q).fd (both_bits (σ.fds q).events fde_read)) (ended-rested q σ)

fake_read-IsSound :
    (g q : ℕ) (σ : Loop)
    → IsSynced σ
    → σ.fd_table g ≡ some q
    → (σ.fds q).fd ≡ g
    → (σ.fds q).force_eof ≡ true
    → IsSound (told g) 0 (fake_read q σ)
fake_read-IsSound g q σ s entry fd forced = elim (Bool-cases (σ.fds q).pending) [
  | inl waits ↦ subst (IsSound (told g) 0) (sym (fake_read-waits q σ waits)) (
      touch-IsSynced q (record (σ.fds q) { events = both_bits (σ.fds q).events fde_read }) σ s refl
        refl refl refl)
  | inr idle ↦ subst (IsSound (told g) 0) (sym (fake_read-idle q σ idle)) (
    touch-IsSynced q (record (σ.fds q) { events = no_bits; pending = false }) σ s refl refl refl
        (sym idle),
    ap told (sym fd),
    refl,
    ground arith,
    (q, ap σ.fd_table fd ∙ entry, ground (arith, forced), ground arith, ground arith),
  )
]

force_end-IsSound :
    (g q rcount : ℕ) (σ : Loop)
    → IsSynced σ
    → σ.fd_table g ≡ some q
    → (σ.fds q).fd ≡ g
    → IsSound (told g) rcount (force_end q rcount σ)
unfolding force_end
force_end-IsSound g q rcount σ s entry fd =
    if-branches (IsSound (told g) rcount) (not (rcount == 0)) (λ _. forced)
      λ none_left.
        subst (λ n. IsSound (told g) n (fake_read q σ')) (ground (arith, none_left))
          (fake_read-IsSound g q σ' forced entry (ground (arith, fd)) (ground arith))
  where
    σ' : Loop
    σ' = set_fde q (record (σ.fds q) { force_eof = true }) σ

    forced : IsSynced σ'
    forced = touch-IsSynced q (record (σ.fds q) { force_eof = true }) σ s refl refl refl refl

on_told-IsSound :
    (sent : Told) (rcount : ℕ) (σ : Loop) → IsSynced σ → IsSound sent rcount (on_told sent rcount σ)
unfolding on_told
on_told-IsSound broken rcount σ s = refl
on_told-IsSound negative rcount σ s = s
on_told-IsSound (told g) rcount σ s =
    if-branches (IsSound (told g) rcount) (leb σ.fd_table_max g) (λ _. s)
      λ _. entered (σ.fd_table g) refl
  where
    entered :
        (o : Option ℕ)
        → σ.fd_table g ≡ o
        → IsSound (told g) rcount (elim o [
          | none ↦ returns σ
          | some q ↦ if not ((σ.fds q).fd == g) then returns σ else force_end q rcount σ
        ])
    entered none e = s
    entered (some q) e =
        if-branches (IsSound (told g) rcount) (not ((σ.fds q).fd == g)) (λ _. s)
          λ _. force_end-IsSound g q rcount σ s e (s.entry g q e).0

-- What the waiter of a subprocess has written names the descriptor whose reader must see the end.
-- In a loop that keeps the invariant, the handler finds the fdevent of its own descriptor, so it
-- does not use a null pointer, and exits only when the pipe is broken. Else the invariant holds
-- when it returns, and when it calls the callback: of the fdevent of the descriptor that was
-- named, when nothing is left to read there, with a read among the events, and with the end
-- forced.
pub fdevent_subproc_event_func-IsSound :
    (fd p : ℕ) (readable : Bool) (sent : Told) (rcount : ℕ) (σ : Loop)
    → IsSynced σ
    → σ.fd_table fd ≡ some p
    → IsSound sent rcount (fdevent_subproc_event_func fd readable sent rcount σ)
unfolding fdevent_subproc_event_func fdevent_add
fdevent_subproc_event_func-IsSound fd p readable sent rcount σ s entry =
    if-branches (IsSound sent rcount) (leb σ.fd_table_max fd)
      (λ out. absurd (ground (arith, (s.entry fd p entry).3, out)))
      (λ _. entered (σ.fd_table fd) entry)
  where
    σ' : Loop
    σ' = fdevent_add p fde_read σ

    kept : IsSynced σ'
    kept = fdevent_set-IsSynced p _ σ s (s.entry fd p entry).1

    same : (q : ℕ) → some q ≡ some p → p ≡ q
    same q e = cc

    entered :
        (o : Option ℕ)
        → o ≡ some p
        → IsSound sent rcount (elim o [
          | none ↦ crashes
          | some q ↦
              if readable
              then on_told sent rcount (fdevent_add q fde_read σ)
              else returns (fdevent_add q fde_read σ)
        ])
    entered none e = absurd cc
    entered (some q) e =
        if-branches (IsSound sent rcount) readable
          (λ _.
            subst (λ x. IsSound sent rcount (on_told sent rcount (fdevent_add x fde_read σ)))
              (same q e) (on_told-IsSound sent rcount σ' kept))
          (λ _. subst (λ x. IsSynced (fdevent_add x fde_read σ)) (same q e) kept)
