-- ===== src/Orderly/Ring.antt =====
-- A ring of adbd/src/sockets.c on which no socket stands twice.
use stm32f429_adbd.Common.{ℕ, ◌≡◌, refl, true, false, List, [], ◌∷◌, ◌++◌, arith}
use stm32f429_adbd.Rings.{member, unlink}
use stm32f429_adbd.Rings.Identifiers.{member-append}

abbrev pub Once : List ℕ → Type 0
Once [] = Unit {0}
Once (x ∷ xs) = (member x xs ≡ false) × Once xs

pub Once-append :
    (p : ℕ) (ring : List ℕ) → Once ring → member p ring ≡ false → Once (ring ++ (p ∷ []))
unfolding member
Once-append p [] o away = (refl, tt)
Once-append p (x ∷ ring) o away = (
  ground (arith, away, o.0, member-append x p ring),
  Once-append p ring o.1 (ground (arith, away)),
)

pub member-unlink :
    (q p : ℕ) (ring : List ℕ) → member q (unlink p ring) ≡ true → member q ring ≡ true
unfolding member unlink
member-unlink q p [] h = h
member-unlink q p (x ∷ ring) h = ground (arith, h, member-unlink q p ring)

pub unlink_off :
    (q p : ℕ) (ring : List ℕ) → member q ring ≡ false → member q (unlink p ring) ≡ false
unfolding member unlink
unlink_off q p [] h = h
unlink_off q p (x ∷ ring) h = ground (arith, h, unlink_off q p ring)

pub Once-unlink : (p : ℕ) (ring : List ℕ) → Once ring → Once (unlink p ring)
unfolding unlink
Once-unlink p [] o = tt
Once-unlink p (x ∷ ring) o = ground (arith, o, unlink_off x p ring, Once-unlink p ring)

pub unlink_gone : (p : ℕ) (ring : List ℕ) → Once ring → member p (unlink p ring) ≡ false
unfolding member unlink
unlink_gone p [] o = refl
unlink_gone p (x ∷ ring) o = ground (arith, o, unlink_gone p ring)
