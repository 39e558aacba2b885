-- ===== src/Jdwp/Queue.antt =====
-- The array of descriptors of a process as a queue, adbd/src/jdwp_service.c.
use stm32f429_adbd.Common.{
  ℕ, zero, suc, ◌-◌, ◌≤◌, ◌<◌, ◌≡◌, ◌≢◌, refl, ap, ◌∙◌, true, false, not, none, some, List, [], ◌∷◌,
  ◌++◌, ◌==◌, if◌then◌else◌, leb, arith, length, take, set, get_or, length-set, ◌⊎◌, inl, inr,
  Bool-cases,
}
use stm32f429_adbd.Io.{WriteReply, accepted, write_failed, eintr, eagain, other_errno}
use stm32f429_adbd.Jdwp.{JdwpProcess, kept, shift_fds, sends, write_stage, push_fd, max_out_fds}

-- The array has its size, the count is within it, and write events are wanted while one waits.
pub record IsQueue (p : JdwpProcess) : Type 0 where
  pub size : length p.out_fds ≡ max_out_fds
  pub within : p.out_count ≤ max_out_fds
  pub wants : p.want_write ≡ not (p.out_count == 0)

-- The descriptors that wait, the next one first.
abbrev pub queue : JdwpProcess → List ℕ
queue p = take p.out_count p.out_fds

take-set :
    (n v : ℕ) (xs : List ℕ) → n < length xs → take (suc n) (set xs n v) ≡ take n xs ++ (v ∷ [])
take-set n v [] h = absurd (omega arith)
take-set zero v (x ∷ xs) h = refl
take-set (suc n) v (x ∷ xs) h = ap (◌∷◌ x) (take-set n v xs (omega arith))

take-shift_fds :
    (n : ℕ) (xs : List ℕ)
    → suc n ≤ length xs
    → take (suc n) xs ≡ get_or xs 0 0 ∷ take n (shift_fds (suc n) xs)
unfolding shift_fds
take-shift_fds n [] h = absurd (omega arith)
take-shift_fds zero (x ∷ xs) h = refl
take-shift_fds (suc n) (x ∷ []) h = absurd (omega arith)
take-shift_fds (suc n) (x ∷ y ∷ xs) h = ap (◌∷◌ x) (take-shift_fds n (y ∷ xs) (omega arith))

length-shift_fds : (n : ℕ) (xs : List ℕ) → length (shift_fds n xs) ≡ length xs
unfolding shift_fds
length-shift_fds zero xs = refl
length-shift_fds (suc zero) xs = refl
length-shift_fds (suc (suc n)) [] = refl
length-shift_fds (suc (suc n)) (x ∷ []) = refl
length-shift_fds (suc (suc n)) (x ∷ y ∷ xs) = ap suc (length-shift_fds (suc n) (y ∷ xs))

-- A connection to a process is refused exactly when four descriptors wait for it already; otherwise
-- its descriptor waits behind the others, inside the array, and write events are wanted.
pub push_fd_lem :
    (fd : ℕ) (p : JdwpProcess)
    → IsQueue p
    → ((push_fd fd p ≡ none) × (p.out_count ≡ max_out_fds))
      ⊎ ((q : JdwpProcess) × (push_fd fd p ≡ some q) × IsQueue q × (queue q ≡ queue p ++ (fd ∷ [])))
unfolding push_fd
push_fd_lem fd p s = elim (Bool-cases (leb max_out_fds p.out_count)) [
  | inl full ↦ inl (ground (arith, full), ground (arith, full, s.within))
  | inr room ↦ inr (
    record p {
      out_fds = set p.out_fds p.out_count fd;
      out_count = suc p.out_count;
      want_write = if suc p.out_count == 1 then true else p.want_write;
    },
    ground (arith, room),
    record {
      size = length-set p.out_fds p.out_count fd ∙ s.size;
      within = ground (arith, room);
      wants = ground (arith, s.wants);
    },
    take-set p.out_count fd p.out_fds (ground (arith, room, s.size)),
  )
]

-- What is sent is what was put into the message.
sends-control :
    (control : List ℕ) (replies : List WriteReply)
    → sends control replies ≢ none
    → sends control replies ≡ some control
unfolding sends
sends-control control [] ok = absurd (ok refl)
sends-control control (accepted n ∷ replies) ok = refl
sends-control control (write_failed eintr ∷ replies) ok = sends-control control replies ok
sends-control control (write_failed eagain ∷ replies) ok = absurd (ok refl)
sends-control control (write_failed other_errno ∷ replies) ok = absurd (ok refl)

-- When descriptors wait and the system calls succeed, a write event puts the one that has waited
-- longest into the message to the process, closes that one here and no other, and leaves the others
-- in order; it stops wanting write events with the last one.
pub write_stage_lem :
    (replies : List WriteReply) (p : JdwpProcess)
    → IsQueue p
    → p.out_count ≢ 0
    → sends (get_or p.out_fds 0 0 ∷ []) replies ≢ none
    → (fd : ℕ) × (q : JdwpProcess) × (write_stage true true true replies p
        ≡ kept (fd ∷ []) (fd ∷ []) q)
      × IsQueue q
      × (queue p ≡ fd ∷ queue q)
unfolding write_stage
write_stage_lem replies p s some_wait ok = go p.out_count refl
  where
    next : JdwpProcess
    next = record p {
      out_fds = shift_fds p.out_count p.out_fds;
      out_count = p.out_count - 1;
      want_write = if p.out_count - 1 == 0 then false else p.want_write;
    }

    go :
        (n : ℕ)
        → p.out_count ≡ n
        → (fd : ℕ) × (q : JdwpProcess) × (write_stage true true true replies p
            ≡ kept (fd ∷ []) (fd ∷ []) q)
          × IsQueue q
          × (queue p ≡ fd ∷ queue q)
    go zero e = absurd (some_wait e)
    go (suc n) e = (
      get_or p.out_fds 0 0,
      next,
      ground (arith, e, sends-control (get_or p.out_fds 0 0 ∷ []) replies ok),
      record {
        size = length-shift_fds p.out_count p.out_fds ∙ s.size;
        within = omega (arith, s.within);
        wants = ground (arith, e, s.wants);
      },
      let one_less : suc n - 1 ≡ n = omega arith in
          rw (e, one_less) (take-shift_fds n p.out_fds (omega (arith, e, s.size, s.within))),
    )
