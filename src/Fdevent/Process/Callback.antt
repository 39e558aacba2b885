-- ===== src/Fdevent/Process/Callback.antt =====
-- What the callbacks of the daemon do to the event loop. Those of adb.c, adb_auth_client.c,
-- jdwp_service.c, sockets.c and transport.c change it by calls of functions of adbd/src/fdevent.c
-- only; which calls they make in a state is an argument.
use stm32f429_adbd.Common.{
  ℕ, ◌≤◌, ◌<◌, ◌≡◌, refl, true, false, Option, none, some, List, [], ◌∷◌, arith, length, ap, ◌∙◌,
}
use stm32f429_adbd.Fdevent.{
  Bits, Loop, fd_setsize, set_fde, both_bits, without_bits, fdevent_install, fdevent_create,
  fdevent_remove, fdevent_set, fdevent_add, fdevent_del,
}
use stm32f429_adbd.Fdevent.Invariant.{
  IsSynced, touch-IsSynced, fdevent_set-IsSynced, fdevent_set-length,
}
use stm32f429_adbd.Fdevent.Registration.{fdevent_install-IsSynced, fdevent_remove-IsSynced}

-- A call of a function of the event loop: the fdevent's address comes first.
pub data Operation : Type 0 where
  installs creates : ℕ → ℕ → Operation
  sets adds dels : ℕ → Bits → Operation
  removes : ℕ → Operation

unfoldable pub perform : Operation → Loop → Option Loop
unfolding fdevent_install fdevent_create fdevent_set fdevent_add fdevent_del fdevent_remove
perform (installs p fd) σ = fdevent_install p fd σ
perform (creates p fd) σ = fdevent_create p fd σ
perform (sets p events) σ = some (fdevent_set p events σ)
perform (adds p events) σ = some (fdevent_add p events σ)
perform (dels p events) σ = some (fdevent_del p events σ)
perform (removes p) σ = fdevent_remove p σ

unfoldable pub performs : List Operation → Loop → Option Loop
unfolding perform
performs [] σ = some σ
performs (op ∷ ops) σ = elim (perform op σ) [ none ↦ none | some σ' ↦ performs ops σ' ]

-- An fdevent is installed when it is not in use, on a descriptor that has none and is within the
-- sets, and it is changed or removed when it is installed.
abbrev pub IsProper : Operation → Loop → Type 0
IsProper (installs p fd) σ =
    ((σ.fds p).active ≡ false)
    × ((σ.fds p).pending ≡ false)
    × (σ.fd_table fd ≡ none)
    × (fd < fd_setsize)
IsProper (creates p fd) σ =
    ((σ.fds p).active ≡ false)
    × ((σ.fds p).pending ≡ false)
    × (σ.fd_table fd ≡ none)
    × (fd < fd_setsize)
IsProper (sets p events) σ = (σ.fds p).active ≡ true
IsProper (adds p events) σ = (σ.fds p).active ≡ true
IsProper (dels p events) σ = (σ.fds p).active ≡ true
IsProper (removes p) σ = (σ.fds p).active ≡ true

-- Each call is made in a state in which it is proper.
abbrev pub AreProper : List Operation → Loop → Type 0
AreProper [] σ = Unit {0}
AreProper (op ∷ ops) σ = IsProper op σ × ((τ : Loop) → perform op σ ≡ some τ → AreProper ops τ)

-- The code goes through, keeps the invariant and makes no fdevent pending.
abbrev pub Keeps : Option Loop → Loop → Type 0
Keeps o σ = (τ : Loop) × (o ≡ some τ) × IsSynced τ × (length τ.list_pending ≤ length σ.list_pending)

at_most :
    (σ τ : Loop) → τ.list_pending ≡ σ.list_pending → length τ.list_pending ≤ length σ.list_pending
at_most σ τ same = omega (arith, ap length same)

pub create-some :
    (p fd : ℕ) (σ ρ : Loop)
    → fdevent_install p fd σ ≡ some ρ
    → fdevent_create p fd σ ≡ some (set_fde p (record (ρ.fds p) { created = true }) ρ)
unfolding fdevent_create
create-some p fd σ ρ = ap (λ (o : Option Loop). elim o [
  | none ↦ none
  | some x ↦ some (set_fde p (record (x.fds p) { created = true }) x)
])

perform-Keeps : (op : Operation) (σ : Loop) → IsSynced σ → IsProper op σ → Keeps (perform op σ) σ
unfolding perform fdevent_add fdevent_del
perform-Keeps (installs p fd) σ s (idle, quiet, free, bound) =
    let (ρ, e, r, _, same) = fdevent_install-IsSynced p fd σ s idle quiet free bound in
    (ρ, e, r, at_most σ ρ same)
perform-Keeps (creates p fd) σ s (idle, quiet, free, bound) =
    let (ρ, e, r, _, same) = fdevent_install-IsSynced p fd σ s idle quiet free bound in
    (
      set_fde p (record (ρ.fds p) { created = true }) ρ,
      create-some p fd σ ρ e,
      touch-IsSynced p (record (ρ.fds p) { created = true }) ρ r refl refl refl refl,
      at_most σ ρ same,
    )
perform-Keeps (sets p events) σ s act = (
  fdevent_set p events σ,
  refl,
  fdevent_set-IsSynced p events σ s act,
  fdevent_set-length p events σ,
)
perform-Keeps (adds p events) σ s act =
    let all : Bits = both_bits (σ.fds p).wanted events in
    (fdevent_set p all σ, refl, fdevent_set-IsSynced p all σ s act, fdevent_set-length p all σ)
perform-Keeps (dels p events) σ s act =
    let left : Bits = without_bits (σ.fds p).wanted events in
    (fdevent_set p left σ, refl, fdevent_set-IsSynced p left σ s act, fdevent_set-length p left σ)
perform-Keeps (removes p) σ s act =
    let (ρ, e, r, _, _, shorter, _) = fdevent_remove-IsSynced p σ s act in (ρ, e, r, shorter)

pub performs-Keeps :
    (ops : List Operation) (σ : Loop) → IsSynced σ → AreProper ops σ → Keeps (performs ops σ) σ
unfolding performs
performs-Keeps [] σ s proper = (σ, refl, s, omega arith)
performs-Keeps (op ∷ ops) σ s (first, rest) =
    let (σ', e, s', shorter) = perform-Keeps op σ s first in
    let (τ, e', t, shorter') = performs-Keeps ops σ' s' (rest σ' e) in
    (
      τ,
      ap (λ (o : Option Loop). elim o [ none ↦ none | some x ↦ performs ops x ]) e ∙ e',
      t,
      omega (arith, shorter, shorter'),
    )
