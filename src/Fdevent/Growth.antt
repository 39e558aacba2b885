-- ===== src/Fdevent/Growth.antt =====
-- The doubling of the descriptor table, `fdevent_register` of adbd/src/fdevent.c.
use stm32f429_adbd.Common.{
  ℕ, zero, suc, ◌+◌, ◌*◌, ◌≤◌, ◌<◌, ◌≡◌, refl, none, some, arith, leb, ltb, ◌&&◌, ◌==◌,
  if◌then◌else◌, Bool-cases, inl, inr, ◌⊎◌,
}
use stm32f429_adbd.Fdevent.{Loop, grow, expand, fdevent_init}

-- The doubling from a positive size ends within the fuel, at a size that has room for the
-- descriptor and is the old size or at most twice the descriptor.
pub grow_total :
    (n size fd : ℕ)
    → 1 ≤ size
    → 1 ≤ n
    → suc (suc fd) ≤ n + size
    → (m : ℕ) × (grow n size fd ≡ some m) × (fd < m) × ((m ≡ size) ⊎ (m ≤ 2 * fd))
unfolding grow
grow_total zero size fd h h' enough = absurd (omega arith)
grow_total (suc n) size fd h h' enough = elim (Bool-cases (leb size fd)) [
  | inr fits ↦ (size, ground (arith, fits), ground (arith, fits), inl refl)
  | inl small ↦
      let (m, grown, room, least) =
        grow_total n (size * 2) fd (omega arith) (ground (arith, small)) (ground (arith, small)) in
      (m, ground (arith, small, grown), room, inr (ground (arith, small, least)))
]

-- The state that the growth leaves behind.
abbrev pub grown : ℕ → Loop → Loop
grown m σ =
    let start = if σ.fd_table_max == 0 then record (fdevent_init σ) { fd_table_max = 256 } else σ in
    record start {
      fd_table_max = m;
      fd_table = λ f. if leb σ.fd_table_max f && ltb f m then none else σ.fd_table f;
    }

-- A descriptor up to 32000 that the table has no room for gets it, in a table of at most 64000
-- entries.
pub expand_total :
    (fd : ℕ) (σ : Loop)
    → fd ≤ 32000
    → σ.fd_table_max ≤ fd
    → (m : ℕ) × (expand fd σ ≡ some (grown m σ)) × (fd < m) × (m ≤ 64000)
unfolding expand
expand_total fd σ bound small = elim (Bool-cases (σ.fd_table_max == 0)) [
  | inl empty ↦
      let (m, grew, room, least) =
        grow_total (suc fd) 256 fd (omega arith) (omega arith) (omega arith) in
      (m, ground (arith, empty, grew), room, ground (arith, least))
  | inr full ↦
      let (m, grew, room, least) =
        grow_total (suc fd) σ.fd_table_max fd (ground (arith, full)) (omega arith)
          (ground (arith, full)) in
      (m, ground (arith, full, grew), room, ground (arith, least, small))
]
