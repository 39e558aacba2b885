-- ===== src/Fdevent/Invariant.antt =====
-- The invariant of the event loop: the sets passed to `select` are the events that the registered
-- fdevents want, no descriptor is past their end and nothing was written there, the table and the
-- fdevents agree, and the pending ones are installed and stand in the list once.
use stm32f429_adbd.Common.{
  ℕ, zero, suc, ◌-◌, ◌≤◌, ◌<◌, ◌≡◌, refl, Bool, true, false, Option, none, some, List, [], ◌∷◌,
  ◌++◌, arith, ◌==◌, if◌then◌else◌, if-branches, subst, length, Bool-cases, inl, inr,
}
use stm32f429_adbd.Rings.{unlink}
use stm32f429_adbd.Fdevent.{
  Bits, Fdevent, Loop, fd_setsize, without_bits, is_zero, same_bits, set_fde, dequeued, last_used,
  fdevent_update, forget, fdevent_set,
}

-- Whether the descriptor has an fdevent that wants the event.
abbrev pub asks : (Bits → Bool) → Loop → ℕ → Bool
asks event σ f = elim (σ.fd_table f) [ none ↦ false | some p ↦ event (σ.fds p).wanted ]

abbrev pub times : ℕ → List ℕ → ℕ
times p [] = 0
times p (q ∷ list) = if q == p then suc (times p list) else times p list

pub record IsSynced (σ : Loop) : Type 0 where
  pub entry :
      (f p : ℕ)
      → σ.fd_table f ≡ some p
      → ((σ.fds p).fd ≡ f) × ((σ.fds p).active ≡ true) × (f < σ.select_n) × (f < σ.fd_table_max)
  pub registered : (p : ℕ) → (σ.fds p).active ≡ true → σ.fd_table (σ.fds p).fd ≡ some p
  pub reads : (f : ℕ) → σ.read_fds f ≡ asks (λ b. b.read) σ f
  pub writes : (f : ℕ) → σ.write_fds f ≡ asks (λ b. b.write) σ f
  pub errors : (f : ℕ) → σ.error_fds f ≡ asks (λ b. b.error) σ f
  pub narrow : σ.select_n ≤ fd_setsize
  pub whole : σ.overrun ≡ false
  pub live : (p : ℕ) → (σ.fds p).pending ≡ true → (σ.fds p).active ≡ true
  pub queued : (p : ℕ) → times p σ.list_pending ≡ (if (σ.fds p).pending then 1 else 0)

pub times-unlink :
    (p q : ℕ) (list : List ℕ)
    → times q (unlink p list) ≡ (if p == q then times q list - 1 else times q list)
unfolding unlink
times-unlink p q [] = ground arith
times-unlink p q (x ∷ list) = ground (arith, times-unlink p q list)

pub length-unlink : (p : ℕ) (list : List ℕ) → length (unlink p list) ≤ length list
unfolding unlink
length-unlink p [] = omega arith
length-unlink p (x ∷ list) = ground (arith, length-unlink p list)

pub times-append :
    (p q : ℕ) (list : List ℕ)
    → times q (list ++ (p ∷ [])) ≡ (if p == q then suc (times q list) else times q list)
times-append p q [] = ground arith
times-append p q (x ∷ list) = ground (arith, times-append p q list)

-- The bound for `select` after a descriptor is gone is above every one that is left.
pub last_used_bound :
    (table : ℕ → Option ℕ) (n f p : ℕ) → table f ≡ some p → f < n → f ≤ last_used table n
unfolding last_used
last_used_bound table zero f p h lt = absurd (omega arith)
last_used_bound table (suc n) f p h lt = elim (Bool-cases (n == f)) [
  | inl last ↦ ground (arith, last, h)
  | inr before ↦ ground (arith, before, last_used_bound table n f p h, lt)
]

pub last_used_less : (table : ℕ → Option ℕ) (n : ℕ) → 0 < n → last_used table n < n
unfolding last_used
last_used_less table zero some_n = absurd (omega arith)
last_used_less table (suc zero) some_n = ground arith
last_used_less table (suc (suc n)) some_n =
    ground (arith, last_used_less table (suc n) (omega arith))

-- An fdevent rewritten at its address, what the sets and the list rest on unchanged.
pub touch-IsSynced :
    (p : ℕ) (x : Fdevent) (σ : Loop)
    → IsSynced σ
    → x.fd ≡ (σ.fds p).fd
    → x.active ≡ (σ.fds p).active
    → x.wanted ≡ (σ.fds p).wanted
    → x.pending ≡ (σ.fds p).pending
    → IsSynced (set_fde p x σ)
touch-IsSynced p x σ s fd active wanted pending = record {
  entry = λ f q h. ground (arith, s.entry f q h, fd, active);
  registered = λ q h. ground (arith, s.registered q, h, fd, active);
  reads = λ f. ground (arith, s.reads f, wanted);
  writes = λ f. ground (arith, s.writes f, wanted);
  errors = λ f. ground (arith, s.errors f, wanted);
  narrow = s.narrow;
  whole = s.whole;
  live = λ q h. ground (arith, s.live q, h, active, pending);
  queued = λ q. ground (arith, s.queued q, pending);
}

update-IsSynced :
    (p : ℕ) (events : Bits) (σ : Loop)
    → IsSynced σ
    → (σ.fds p).active ≡ true
    → IsSynced (fdevent_update p events σ)
unfolding fdevent_update
update-IsSynced p events σ s act = record {
  entry = λ f q h. ground (arith, s.entry f q h);
  registered = λ q h. ground (arith, s.registered q, h);
  reads = λ f. ground (arith, s.reads f, s.registered p act, s.entry f p);
  writes = λ f. ground (arith, s.writes f, s.registered p act, s.entry f p);
  errors = λ f. ground (arith, s.errors f, s.registered p act, s.entry f p);
  narrow = s.narrow;
  whole = ground (arith, s.whole, s.registered p act, s.entry (σ.fds p).fd p, s.narrow);
  live = λ q h. ground (arith, s.live q, h);
  queued = λ q. ground (arith, s.queued q);
}

if-IsSynced :
    (b : Bool) (σ σ' : Loop)
    → (b ≡ true → IsSynced σ)
    → (b ≡ false → IsSynced σ')
    → IsSynced (if b then σ else σ')
if-IsSynced true σ σ' h h' = h refl
if-IsSynced false σ σ' h h' = h' refl

-- An fdevent that leaves the list is pending no more.
drop-IsSynced :
    (p : ℕ) (x : Fdevent) (σ : Loop)
    → IsSynced σ
    → x.fd ≡ (σ.fds p).fd
    → x.active ≡ (σ.fds p).active
    → x.wanted ≡ (σ.fds p).wanted
    → (σ.fds p).pending ≡ true
    → x.pending ≡ false
    → IsSynced (dequeued p (set_fde p x σ))
drop-IsSynced p x σ s fd active wanted waits idle = record {
  entry = λ f q h. ground (arith, s.entry f q h, fd, active);
  registered = λ q h. ground (arith, s.registered q, h, fd, active);
  reads = λ f. ground (arith, s.reads f, wanted);
  writes = λ f. ground (arith, s.writes f, wanted);
  errors = λ f. ground (arith, s.errors f, wanted);
  narrow = s.narrow;
  whole = s.whole;
  live = λ q h. ground (arith, s.live q, h, active, idle);
  queued = λ q. ground (arith, times-unlink p q σ.list_pending, s.queued q, waits, idle);
}

forget-IsSynced :
    (p : ℕ) (events : Bits) (σ : Loop)
    → IsSynced σ
    → (σ.fds p).pending ≡ true
    → IsSynced (forget p events σ)
unfolding forget
forget-IsSynced p events σ s waits =
    if-IsSynced (is_zero (without_bits (σ.fds p).events events)) _ _
      (λ _.
        drop-IsSynced p
          (record (σ.fds p) { events = without_bits (σ.fds p).events events; pending = false }) σ s
          refl refl refl waits refl)
      (λ _.
        touch-IsSynced p (record (σ.fds p) { events = without_bits (σ.fds p).events events }) σ s
          refl refl refl refl)

-- `fdevent_set` on an installed fdevent keeps the invariant, for any events.
pub fdevent_set-IsSynced :
    (p : ℕ) (events : Bits) (σ : Loop)
    → IsSynced σ
    → (σ.fds p).active ≡ true
    → IsSynced (fdevent_set p events σ)
unfolding fdevent_set fdevent_update
fdevent_set-IsSynced p events σ s act =
    if-IsSynced (same_bits (σ.fds p).wanted events) _ _ (λ _. s) λ _. updated (σ.fds p).active act
  where
    σ' : Loop
    σ' =
        set_fde p (record ((fdevent_update p events σ).fds p) { wanted = events })
          (fdevent_update p events σ)

    updated :
        (b : Bool)
        → b ≡ true
        → IsSynced (
            let σ' = if b then fdevent_update p events σ else σ in
            let σ'' = set_fde p (record (σ'.fds p) { wanted = events }) σ' in
            if (σ''.fds p).pending then forget p events σ'' else σ'')
    updated false e = absurd cc
    updated true e =
        if-IsSynced (σ'.fds p).pending _ _ (λ waits. forget-IsSynced p events σ' again waits)
          (λ _. again)
      where
        again : IsSynced σ'
        again =
            touch-IsSynced p (record ((fdevent_update p events σ).fds p) { wanted = events })
              (fdevent_update p events σ) (update-IsSynced p events σ s act) refl refl
              (ground arith) refl

-- A list of pending fdevents that has not grown beyond `n`.
abbrev IsShorter : ℕ → Loop → Type 0
IsShorter n σ = length σ.list_pending ≤ n

same_length : (n : ℕ) → n ≤ n
same_length n = omega arith

forget-IsShorter :
    (p : ℕ) (events : Bits) (σ : Loop) → IsShorter (length σ.list_pending) (forget p events σ)
unfolding forget
forget-IsShorter p events σ =
    if-branches (IsShorter (length σ.list_pending)) (is_zero (without_bits (σ.fds p).events events))
      (λ _. length-unlink p σ.list_pending) (λ _. same_length (length σ.list_pending))

-- No change of events makes an fdevent pending.
pub fdevent_set-length :
    (p : ℕ) (events : Bits) (σ : Loop)
    → length (fdevent_set p events σ).list_pending ≤ length σ.list_pending
unfolding fdevent_set fdevent_update
fdevent_set-length p events σ =
    if-branches (IsShorter n) (same_bits (σ.fds p).wanted events) (λ _. same_length n)
      λ _. rest (if (σ.fds p).active then fdevent_update p events σ else σ) (
        if-branches (λ (τ : Loop). length τ.list_pending ≡ n) (σ.fds p).active (λ _. refl)
          (λ _. refl))
  where
    n : ℕ
    n = length σ.list_pending

    rest :
        (σ' : Loop)
        → length σ'.list_pending ≡ n
        → let σ'' = set_fde p (record (σ'.fds p) { wanted = events }) σ' in
          IsShorter n (if (σ''.fds p).pending then forget p events σ'' else σ'')
    rest σ' same =
        let σ'' : Loop = set_fde p (record (σ'.fds p) { wanted = events }) σ' in
        subst (λ m. IsShorter m (if (σ''.fds p).pending then forget p events σ'' else σ'')) same
          (if-branches (IsShorter (length σ'.list_pending)) (σ''.fds p).pending
            (λ _. forget-IsShorter p events σ'') (λ _. same_length (length σ'.list_pending)))
