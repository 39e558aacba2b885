-- ===== src/Fdevent/Registration.antt =====
-- Installing and removing an fdevent, and the invariant of the event loop.
use stm32f429_adbd.Common.{
  ℕ, ◌≤◌, ◌<◌, ◌≡◌, refl, true, false, none, some, List, [], ◌∷◌, ◌++◌, arith, leb, ◌==◌,
  if◌then◌else◌, Bool-cases, Option-cases, inl, inr, ◌⊎◌, length,
}
use stm32f429_adbd.Engine.Monad.{update}
use stm32f429_adbd.Rings.{unlink}
use stm32f429_adbd.Fdevent.{
  Fdevent, Loop, fd_setsize, set_fde, cleared, fresh_fde, fdevent_connect, fdevent_disconnect,
  fdevent_register, fdevent_unregister, fdevent_install, fdevent_remove, expand, fdevent_init,
}
use stm32f429_adbd.Fdevent.Growth.{expand_total, grown}
use stm32f429_adbd.Fdevent.Invariant.{
  IsSynced, times, times-unlink, last_used_bound, last_used_less, length-unlink,
}

-- A new fdevent in a table with room.
abbrev placed : ℕ → ℕ → Loop → Loop
placed p fd σ =
    fdevent_connect fd
      (record (set_fde p (fresh_fde fd) σ) { fd_table = update σ.fd_table fd (some p) })

placed-IsSynced :
    (p fd : ℕ) (σ : Loop)
    → IsSynced σ
    → (σ.fds p).active ≡ false
    → (σ.fds p).pending ≡ false
    → σ.fd_table fd ≡ none
    → fd < σ.fd_table_max
    → fd < fd_setsize
    → IsSynced (placed p fd σ)
unfolding fdevent_connect
placed-IsSynced p fd σ s idle quiet free room bound = record {
  entry = λ f q h. ground (arith, s.entry f q, h, idle, room);
  registered = λ q h. ground (arith, s.registered q, h, free);
  reads = λ f. ground (arith, s.reads f, s.entry f p, idle, free);
  writes = λ f. ground (arith, s.writes f, s.entry f p, idle, free);
  errors = λ f. ground (arith, s.errors f, s.entry f p, idle, free);
  narrow = ground (arith, s.narrow, bound);
  whole = ground (arith, s.whole);
  live = λ q h. ground (arith, s.live q, h);
  queued = λ q. ground (arith, s.queued q, quiet);
}

within : (σ : Loop) → IsSynced σ → (f : ℕ) → (σ.fd_table f ≡ none) ⊎ (f < σ.fd_table_max)
within σ s f = elim (Option-cases (σ.fd_table f)) [
  | inl free ↦ inl free
  | inr taken ↦ let (p, h) = taken in let (_, _, _, room) = s.entry f p h in inr room
]

grown-IsSynced : (m : ℕ) (σ : Loop) → IsSynced σ → σ.fd_table_max ≤ m → IsSynced (grown m σ)
unfolding fdevent_init
grown-IsSynced m σ s larger = record {
  entry = λ f q h. ground (arith, s.entry f q, h, larger);
  registered = λ q h. ground (arith, s.registered q, h, s.entry (σ.fds q).fd q);
  reads = λ f. ground (arith, s.reads f, within σ s f);
  writes = λ f. ground (arith, s.writes f, within σ s f);
  errors = λ f. ground (arith, s.errors f, within σ s f);
  narrow = ground (arith, s.narrow);
  whole = ground (arith, s.whole);
  live = λ q h. ground (arith, s.live q, h);
  queued = λ q. ground (arith, s.queued q);
}

grown-set_fde :
    (m p : ℕ) (x : Fdevent) (σ : Loop) → grown m (set_fde p x σ) ≡ set_fde p x (grown m σ)
unfolding fdevent_init
grown-set_fde m p x σ = ground arith

-- Installing an fdevent that is not in use, on a descriptor below FD_SETSIZE that has none,
-- succeeds, puts it in the table, keeps the invariant, and makes no fdevent pending.
pub fdevent_install-IsSynced :
    (p fd : ℕ) (σ : Loop)
    → IsSynced σ
    → (σ.fds p).active ≡ false
    → (σ.fds p).pending ≡ false
    → σ.fd_table fd ≡ none
    → fd < fd_setsize
    → (σ' : Loop) × (fdevent_install p fd σ ≡ some σ')
      × IsSynced σ'
      × (σ'.fd_table fd ≡ some p)
      × (σ'.list_pending ≡ σ.list_pending)
unfolding fdevent_install fdevent_register fdevent_connect
fdevent_install-IsSynced p fd σ s idle quiet free bound =
    elim (Bool-cases (leb σ.fd_table_max fd)) [
      | inr room ↦ (
        placed p fd σ,
        ground (arith, room),
        placed-IsSynced p fd σ s idle quiet free (ground (arith, room)) bound,
        ground arith,
        ground arith,
      )
      | inl small ↦
          let (m, grew, large, _) =
            expand_total fd (set_fde p (fresh_fde fd) σ) (omega (arith, bound))
              (ground (arith, small)) in
          (
            placed p fd (grown m σ),
            grow_then small m grew,
            placed-IsSynced p fd (grown m σ) (grown-IsSynced m σ s (ground (arith, small, large)))
                (ground (arith, idle)) (ground (arith, quiet)) (ground (arith, small, large)) large
                bound,
            ground arith,
            ground arith,
          )
    ]
  where
    grow_then :
        leb σ.fd_table_max fd ≡ true
        → (m : ℕ)
        → expand fd (set_fde p (fresh_fde fd) σ) ≡ some (grown m (set_fde p (fresh_fde fd) σ))
        → fdevent_install p fd σ ≡ some (placed p fd (grown m σ))
    grow_then small m grew =
        let same : grown m (set_fde p (fresh_fde fd) σ) ≡ set_fde p (fresh_fde fd) (grown m σ) =
          grown-set_fde m p (fresh_fde fd) σ in
        ground (arith, small, grew, same)

-- The state that `fdevent_remove` leaves, the list apart.
abbrev removed : ℕ → List ℕ → List ℕ → Loop → Loop
removed p list closed σ =
    record (fdevent_disconnect (σ.fds p).fd (set_fde p (cleared (σ.fds p)) σ)) {
      fd_table = update σ.fd_table (σ.fds p).fd none;
      list_pending = list;
      closed = closed;
    }

removed-IsSynced :
    (p : ℕ) (list closed : List ℕ) (σ : Loop)
    → IsSynced σ
    → (σ.fds p).active ≡ true
    → ((q : ℕ) → times q list ≡ (if p == q then 0 else times q σ.list_pending))
    → IsSynced (removed p list closed σ)
unfolding fdevent_disconnect
removed-IsSynced p list closed σ s act out = record {
  entry = λ f q h. ground (
    arith,
    s.entry f q,
    h,
    s.registered p act,
    s.entry f p,
    last_used_bound σ.fd_table σ.select_n f q,
  );
  registered = λ q h. ground (arith, s.registered q, s.registered p act, h);
  reads = λ f. ground (arith, s.reads f, s.registered p act, s.entry f p);
  writes = λ f. ground (arith, s.writes f, s.registered p act, s.entry f p);
  errors = λ f. ground (arith, s.errors f, s.registered p act, s.entry f p);
  narrow = omega (
    arith,
    s.narrow,
    last_used_less σ.fd_table σ.select_n
        (omega (arith, (s.entry (σ.fds p).fd p (s.registered p act)).2)),
  );
  whole = ground (arith, s.whole, s.entry (σ.fds p).fd p (s.registered p act), s.narrow);
  live = λ q h. ground (arith, s.live q, h);
  queued = λ q. ground (arith, s.queued q, out q);
}

remove_to :
    (p : ℕ) (σ : Loop)
    → IsSynced σ
    → (σ.fds p).active ≡ true
    → ((σ.fds p).pending ≡ true) ⊎ ((σ.fds p).pending ≡ false)
    → fdevent_remove p σ
      ≡ some (
          removed p
            (if (σ.fds p).pending then unlink p σ.list_pending else σ.list_pending)
            (if (σ.fds p).wanted.dont_close then σ.closed else σ.closed ++ ((σ.fds p).fd ∷ []))
            σ)
unfolding fdevent_remove fdevent_unregister fdevent_disconnect
remove_to p σ s act (inl waits) =
    ground (arith, waits, act, s.registered p act, s.entry (σ.fds p).fd p (s.registered p act))
remove_to p σ s act (inr idle) =
    ground (arith, idle, act, s.registered p act, s.entry (σ.fds p).fd p (s.registered p act))

-- Removing an installed fdevent, pending or not, succeeds and keeps the invariant; its descriptor
-- is closed, unless the fdevent says otherwise, its place in the table is free, it is no longer in
-- the list, and the list has not grown.
pub fdevent_remove-IsSynced :
    (p : ℕ) (σ : Loop)
    → IsSynced σ
    → (σ.fds p).active ≡ true
    → (σ' : Loop) × (fdevent_remove p σ ≡ some σ')
      × IsSynced σ'
      × (σ'.fd_table (σ.fds p).fd ≡ none)
      × (times p σ'.list_pending ≡ 0)
      × (length σ'.list_pending ≤ length σ.list_pending)
      × (σ'.closed
          ≡ (if (σ.fds p).wanted.dont_close then σ.closed else σ.closed ++ ((σ.fds p).fd ∷ [])))
unfolding fdevent_remove fdevent_unregister fdevent_disconnect
fdevent_remove-IsSynced p σ s act =
    let closed : List ℕ =
      if (σ.fds p).wanted.dont_close then σ.closed else σ.closed ++ ((σ.fds p).fd ∷ []) in
    let list : List ℕ = if (σ.fds p).pending then unlink p σ.list_pending else σ.list_pending in
    let out : (q : ℕ) → times q list ≡ (if p == q then 0 else times q σ.list_pending) =
      λ q. ground (arith, s.queued q, s.queued p, times-unlink p q σ.list_pending) in
    (
      removed p list closed σ,
      remove_to p σ s act (Bool-cases (σ.fds p).pending),
      removed-IsSynced p list closed σ s act out,
      ground arith,
      ground (arith, out p),
      ground (arith, length-unlink p σ.list_pending),
      refl,
    )
