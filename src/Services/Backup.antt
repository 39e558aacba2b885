-- ===== src/Services/Backup.antt =====
-- What a backup leaves open, adbd/src/backup_service.c.
use stm32f429_adbd.Common.{ℕ, ◌+◌, ◌≡◌, ◌≢◌, List, [], ◌∷◌, ◌++◌}
use stm32f429_adbd.Services.{Kernel, Process, Fds, no_fds, two, adb_close}
use stm32f429_adbd.Services.Accounts.{count, given, owned}

-- As `IsAccounted`, but that the descriptors of `twice` are closed once more than they were opened.
abbrev pub IsShared : {D Z : Type 0} → List ℕ → List ℕ → Process D Z → Type 0
IsShared twice held s =
    (x : ℕ)
    → count x s.opened + count x twice ≡ count x s.closed + count x (owned s.threads) + count x held

-- What has no owner when the function ends, and what has two.
abbrev Left : {D Z : Type 0} → Fds → Process D Z → Type 0
Left r s =
    (lost : List ℕ) × (twice : List ℕ) × IsShared twice (given r ++ lost) s
    × (r ≢ no_fds
        → (d : ℕ) × (parent : ℕ) × (dummy : ℕ) × (r ≡ two parent dummy)
          × (lost ≡ d ∷ [])
          × (twice ≡ parent ∷ []))

module _ {D Z : Type 0} (k : Kernel D Z) where
  -- The state after three closes.
  abbrev after3 : ℕ → ℕ → ℕ → Process D Z → Process D Z
  after3 a b c s = (adb_close k c (adb_close k b (adb_close k a s).1).1).1
