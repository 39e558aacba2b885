-- ===== src/Jdwp/Known.antt =====
-- The text of the known processes, `jdwp_process_list` and `jdwp_process_list_msg` of
-- adbd/src/jdwp_service.c.
use stm32f429_adbd.Common.{
  ℕ, zero, suc, ◌+◌, ◌-◌, ◌*◌, ◌/◌, ◌%◌, ◌^◌, ◌≤◌, ◌<◌, ◌≡◌, ◌⊎◌, inl, inr, refl, ap, none, some,
  List, [], ◌∷◌, ◌++◌, if◌then◌else◌, leb, ltb, length, take, drop, length-append, arith,
  Bool-cases, Option-cases, leb→le,
}
use stm32f429_adbd.Hex.{hex4, unhex, unhex-hex4}
use stm32f429_adbd.Jdwp.{JdwpProcess}

-- `%d` of a number that is not negative, with as many rounds as the number has digits at most.
unfoldable pub digits : ℕ → ℕ → List ℕ
digits zero n = []
digits (suc rounds) n =
    let rest = digits rounds (n / 10) in
    if ltb n 10 then (b'0' + n) ∷ [] else rest ++ ((b'0' + n % 10) ∷ [])

-- The number that decimal digits stand for.
abbrev pub value_from : ℕ → List ℕ → ℕ
value_from n [] = n
value_from n (c ∷ s) = value_from (10 * n + (c - b'0')) s

value_from-snoc :
    (n c : ℕ) (s : List ℕ) → value_from n (s ++ (c ∷ [])) ≡ 10 * value_from n s + (c - b'0')
value_from-snoc n c [] = refl
value_from-snoc n c (d ∷ s) = value_from-snoc (10 * n + (d - b'0')) c s

-- More rounds than the number are enough.
digits_lem : (rounds n : ℕ) → n < rounds → value_from 0 (digits rounds n) ≡ n
unfolding digits
digits_lem zero n h = absurd (omega arith)
digits_lem (suc rounds) n h = elim (Bool-cases (ltb n 10)) [
  | inl one ↦ rw one (omega arith)
  | inr more ↦
      let big : 10 ≤ n = ground (arith, more) in
      rw more (
        omega (
          arith,
          value_from-snoc 0 (b'0' + n % 10) (digits rounds (n / 10)),
          digits_lem rounds (n / 10) (omega (arith, big)),
        ))
]

-- `"%d\n"`
unfoldable pub pid_line : ℕ → List ℕ
unfolding digits
pid_line pid = digits (suc pid) pid ++ (b'\n' ∷ [])

-- The loop of `jdwp_process_list` with `room` bytes from `p` to `end`: a process whose pid is not
-- read yet is skipped, and the first line that does not fit ends the text.
unfoldable pub list_from : List JdwpProcess → ℕ → List ℕ
unfolding pid_line
list_from [] room = []
list_from (proc ∷ procs) room = elim proc.pid [
  | none ↦ list_from procs room
  | some pid ↦
      let line = pid_line pid in
      let rest = list_from procs (room - length line) in
      if leb room (length line) then [] else line ++ rest
]

unfoldable pub jdwp_process_list : List JdwpProcess → ℕ → List ℕ
unfolding list_from
jdwp_process_list procs bufferlen = list_from procs bufferlen

-- What is in the buffer up to the value that is returned.
unfoldable pub jdwp_process_list_msg : List JdwpProcess → ℕ → List ℕ
unfolding jdwp_process_list
jdwp_process_list_msg procs bufferlen =
    let text = jdwp_process_list procs (bufferlen - 4) in hex4 (length text) ++ text

-- The pids that are known, in order, and their lines.
abbrev pub known : List JdwpProcess → List ℕ
known [] = []
known (proc ∷ procs) = elim proc.pid [ none ↦ known procs | some pid ↦ pid ∷ known procs ]

abbrev pub lines : List ℕ → List ℕ
lines [] = []
lines (pid ∷ pids) = pid_line pid ++ lines pids

-- The text is the lines of the first pids, it leaves room for its NUL, and either no pid is left
-- out or the line of the next one would not leave that room.
abbrev pub IsLongest : List ℕ → ℕ → List ℕ → Type 0
IsLongest text room pids =
    (shown : List ℕ) × (left : List ℕ) × (pids ≡ shown ++ left)
    × (text ≡ lines shown)
    × (length text < room)
    × ((left ≡ [])
        ⊎ ((next : ℕ) × (more : List ℕ) × (left ≡ next ∷ more)
            × (room ≤ length text + length (pid_line next))))

full-IsLongest :
    (pid room : ℕ) (pids : List ℕ)
    → 0 < room
    → room ≤ length (pid_line pid)
    → IsLongest [] room (pid ∷ pids)
full-IsLongest pid room pids h full =
    ([], pid ∷ pids, refl, refl, h, inr (pid, pids, refl, omega (arith, full)))

line-IsLongest :
    (pid room : ℕ) (text pids : List ℕ)
    → length (pid_line pid) < room
    → IsLongest text (room - length (pid_line pid)) pids
    → IsLongest (pid_line pid ++ text) room (pid ∷ pids)
line-IsLongest pid room text pids fits (shown, left, split, is, short, end) = (
  pid ∷ shown,
  left,
  ap (◌∷◌ pid) split,
  ap (◌++◌ (pid_line pid)) is,
  omega (arith, length-append (pid_line pid) text),
  elim end [
    | inl e ↦ inl e
    | inr (next, more, e, full) ↦
        inr (next, more, e, omega (arith, full, length-append (pid_line pid) text))
  ],
)

list_from-IsLongest :
    (procs : List JdwpProcess) (room : ℕ)
    → 0 < room
    → IsLongest (list_from procs room) room (known procs)
unfolding list_from
list_from-IsLongest [] room h = ([], [], refl, refl, h, inl refl)
list_from-IsLongest (proc ∷ procs) room h = elim (Option-cases proc.pid) [
  | inl e ↦ rw e (list_from-IsLongest procs room h)
  | inr (pid, e) ↦ rw e (elim (Bool-cases (leb room (length (pid_line pid)))) [
    | inl full ↦ rw full (full-IsLongest pid room (known procs) h (leb→le _ _ full))
    | inr fits ↦ rw fits (
        line-IsLongest pid room _ (known procs) (ground (arith, fits))
          (list_from-IsLongest procs (room - length (pid_line pid)) (ground (arith, fits))))
  ])
]

-- The message fits in a buffer of more than 4 and at most 2^16 bytes. Its first four characters
-- are the number of those that follow, as `unhex` reads it, and what follows is the lines of the
-- first pids that are known, in order: of all, unless the next line and a NUL would not fit.
pub jdwp_process_list_msg_lem :
    (procs : List JdwpProcess) (bufferlen : ℕ)
    → 4 < bufferlen
    → bufferlen ≤ 2 ^ 16
    → let msg = jdwp_process_list_msg procs bufferlen in
      (length msg < bufferlen)
      × (unhex (take 4 msg) ≡ length (drop 4 msg))
      × IsLongest (drop 4 msg) (bufferlen - 4) (known procs)
unfolding jdwp_process_list_msg jdwp_process_list hex4
jdwp_process_list_msg_lem procs bufferlen enough small =
    let text = list_from procs (bufferlen - 4) in
    let longest = list_from-IsLongest procs (bufferlen - 4) (omega arith) in
    let (_, _, _, _, short, _) = longest in
    (omega (arith, short), unhex-hex4 (length text) (omega (arith, short)), longest)
