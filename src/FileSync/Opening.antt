-- ===== src/FileSync/Opening.antt =====
-- That reading a message and opening a file keep the sync service's invariant,
-- adbd/src/file_sync_service.c.
use stm32f429_adbd.Common.{
  ℕ, ◌-◌, ◌≤◌, ◌≡◌, ◌≢◌, refl, Bool, true, false, not, Option, none, some, List, [], ◌∷◌, ◌++◌,
  if◌then◌else◌, ltb, ◌==◌, length, arith, if-branches, ◌⊎◌, inl, inr,
}
use stm32f429_adbd.FileSync.{
  sync_data_max, id_data, id_done, enoent, eexist, Call, done, denied, System, Sync, Return,
  ok_zero, minus_one, no_fuel, Prog, readx_pipe, writex_pipe,
}
use stm32f429_adbd.FileSync.Send.{
  lost, chunk_of, by_header, after_header, read_chunk, send_okay, fail_with, mkdir_then, step_dir,
  mkdirs_from, mkdirs, after_enoent, after_eexist, open_target,
}
use stm32f429_adbd.FileSync.Invariant.{
  IsSound, readx_pipe-IsSound, readx_pipe-some, readx_buffer-IsSound, writex_pipe-IsSound,
  fail_message-IsSound, on_disk-IsSound, fd_of, adb_open_mode-IsSound,
}

-- A list of at most one descriptor.
abbrev pub held_of : Option ℕ → List ℕ
held_of none = []
held_of (some fd) = fd ∷ []

-- The descriptor that a chunk leaves open.
abbrev pub kept_of : Option (Option ℕ) → List ℕ
kept_of none = []
kept_of (some fd) = held_of fd

module _ {D : Type 0} where
  -- A program that keeps the invariant, and one that also returns, with nothing open.
  abbrev pub Keeps : {A : Type 0} → List ℕ → ℕ → Prog D A → Type 0
  Keeps held n m = (s : Sync D) → IsSound held n s → IsSound held n (m s).1

  abbrev pub Ends : List ℕ → ℕ → Prog D Return → Type 0
  Ends held n m = (s : Sync D) → IsSound held n s → ((m s).0 ≢ no_fuel) × IsSound [] n (m s).1

  pub send_okay-Ends : (n : ℕ) → Ends [] n send_okay
  unfolding send_okay
  send_okay-Ends n s i = (by_write (writex_pipe _ s).0, writex_pipe-IsSound [] n _ s i)
    where
      by_write : (r : Bool) → (if r then ok_zero else minus_one) ≢ no_fuel
      by_write true e = ground (arith, e)
      by_write false e = ground (arith, e)

  pub fail_with-Ends : (n : ℕ) (reason : List ℕ) → Ends [] n (fail_with reason)
  unfolding fail_with
  fail_with-Ends n reason s i = ((λ e. ground (arith, e)), fail_message-IsSound [] n reason s i)

  chunk_of-Keeps : (held : List ℕ) (n : ℕ) (r : Option (List ℕ)) → Keeps held n (chunk_of r)
  unfolding chunk_of
  chunk_of-Keeps held n none s i = i
  chunk_of-Keeps held n (some b) s i = i

  by_header-Keeps : (held : List ℕ) (n id size : ℕ) → Keeps held n (by_header id size)
  unfolding by_header
  by_header-Keeps held n id size =
      if-branches (Keeps held n) (not (id == id_data))
        (λ _. if-branches (Keeps held n) (id == id_done) (λ _ s i. i) (λ _ s i. i))
        (λ _.
          if-branches (Keeps held n) (ltb sync_data_max size) (λ _ s i. i)
            (λ h s i.
              chunk_of-Keeps held n _ _ (readx_buffer-IsSound held n size s (ground (arith, h)) i)))

  after_header-Keeps : (held : List ℕ) (n : ℕ) (r : Option (List ℕ)) → Keeps held n (after_header r)
  unfolding after_header
  after_header-Keeps held n none s i = i
  after_header-Keeps held n (some m) s i = by_header-Keeps held n _ _ s i

  pub read_chunk-Keeps : (held : List ℕ) (n : ℕ) → Keeps held n read_chunk
  unfolding read_chunk
  read_chunk-Keeps held n s i = after_header-Keeps held n _ _ (readx_pipe-IsSound held n 8 s i)

  -- A message takes bytes off the pipe, unless the pipe has ended.
  pub read_chunk-IsSound :
      (held : List ℕ) (n : ℕ) (s : Sync D)
      → IsSound held n s
      → ((read_chunk s).0 ≡ lost) ⊎ ((8 ≤ n) × IsSound held (n - 8) (read_chunk s).1)
  unfolding read_chunk after_header
  read_chunk-IsSound held n s i = by_reply (readx_pipe 8 s).0 (readx_pipe-some held n 8 s)
    where
      by_reply :
          (r : Option (List ℕ))
          → ((b : List ℕ)
              → r ≡ some b
              → IsSound held n s
              → (length b ≡ 8) × (8 ≤ n) × IsSound held (n - 8) (readx_pipe 8 s).1)
          → ((after_header r (readx_pipe 8 s).1).0 ≡ lost)
            ⊎ ((8 ≤ n) × IsSound held (n - 8) (after_header r (readx_pipe 8 s).1).1)
      by_reply none h = inl refl
      by_reply (some m) h = inr ((h m refl i).1, by_header-Keeps held _ _ _ _ (h m refl i).2)

  module _ (sys : System D) where
    mkdir_then-Keeps :
        (held : List ℕ) (n : ℕ) (next : Prog D Bool) (r : Call (Unit {0}))
        → Keeps held n next
        → Keeps held n (mkdir_then sys next r)
    unfolding mkdir_then
    mkdir_then-Keeps held n next (done _) k = k
    mkdir_then-Keeps held n next (denied errno) k =
        if-branches (Keeps held n) (not (errno == eexist)) (λ _ s i. i) (λ _. k)

    step_dir-Keeps :
        (held : List ℕ) (n : ℕ) (c : Bool) (before : List ℕ) (next : Prog D Bool)
        → Keeps held n next
        → Keeps held n (step_dir sys c before next)
    unfolding step_dir
    step_dir-Keeps held n false before next k s i = k s i
    step_dir-Keeps held n true before next k s i =
        mkdir_then-Keeps held n next _ k _ (on_disk-IsSound held n (sys.mkdir before 509) s i)

    mkdirs_from-Keeps :
        (held : List ℕ) (n : ℕ) (before path : List ℕ) → Keeps held n (mkdirs_from sys before path)
    unfolding mkdirs_from
    mkdirs_from-Keeps held n before [] s i = i
    mkdirs_from-Keeps held n before (c ∷ x) s i =
        step_dir-Keeps held n (c == b'/') before _ (mkdirs_from-Keeps held n (before ++ (c ∷ [])) x)
          s i

    pub mkdirs-Keeps : (held : List ℕ) (n : ℕ) (path : List ℕ) → Keeps held n (mkdirs sys path)
    unfolding mkdirs
    mkdirs-Keeps held n [] s i = i
    mkdirs-Keeps held n (c ∷ x) s i =
        if-branches (Keeps held n) (not (c == b'/')) (λ _ s i. i)
          (λ _. mkdirs_from-Keeps held n (c ∷ []) x) s i

    -- What holds after an open: the descriptor that it returned is held.
    abbrev Opens : ℕ → Prog D (Call ℕ) → Type 0
    Opens n m = (s : Sync D) → IsSound [] n s → IsSound (fd_of (m s).0) n (m s).1

    after_enoent-IsSound :
        (n : ℕ) (path : List ℕ) (mode : ℕ) (r : Call ℕ) (s : Sync D)
        → IsSound (fd_of r) n s
        → IsSound (fd_of (after_enoent sys path mode r s).0) n (after_enoent sys path mode r s).1
    unfolding after_enoent
    after_enoent-IsSound n path mode (done fd) s i = i
    after_enoent-IsSound n path mode (denied errno) s i =
        if-branches (Opens n) (errno == enoent)
          (λ _ s i. adb_open_mode-IsSound sys n path true mode _ (mkdirs-Keeps [] n path s i))
          (λ _ s i. i) s i

    after_eexist-IsSound :
        (n : ℕ) (path : List ℕ) (mode : ℕ) (r : Call ℕ) (s : Sync D)
        → IsSound (fd_of r) n s
        → IsSound (fd_of (after_eexist sys path mode r s).0) n (after_eexist sys path mode r s).1
    unfolding after_eexist
    after_eexist-IsSound n path mode (done fd) s i = i
    after_eexist-IsSound n path mode (denied errno) s i =
        if-branches (Opens n) (errno == eexist)
          (λ _ s i. adb_open_mode-IsSound sys n path false mode s i) (λ _ s i. i) s i

    pub open_target-IsSound :
        (n : ℕ) (path : List ℕ) (mode : ℕ) → Opens n (open_target sys path mode)
    unfolding open_target
    open_target-IsSound n path mode s i =
        after_eexist-IsSound n path mode _ _
          (after_enoent-IsSound n path mode _ _ (adb_open_mode-IsSound sys n path true mode s i))
