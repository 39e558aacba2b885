-- ===== src/Jdwp/Control.antt =====
-- The control socket of adbd/src/jdwp_service.c: how it is made, and how connections to it become
-- processes. What the system calls return is an argument.
use stm32f429_adbd.Common.{
  ℕ, ◌≡◌, inl, inr, refl, Bool, true, false, not, Option, none, some, List, [], ◌∷◌, ◌++◌,
  if◌then◌else◌, leb, length, arith, Option-cases,
}
use stm32f429_adbd.Jdwp.{JdwpProcess, jdwp_process_alloc}
use stm32f429_adbd.Jdwp.Known.{known}

-- `sizeof(addr.sun_path)`
abbrev pub maxpath : ℕ
maxpath = 108

-- What `socket` returns, and whether `bind`, `listen` and `fdevent_create` succeed.
pub record ControlCalls : Type 0 where
  pub socket : Option ℕ
  pub binds : Bool
  pub listens : Bool
  pub creates : Bool

-- The return value, as whether it is 0; the descriptor whose fdevent waits for connections; and the
-- descriptors that were closed.
pub record Started : Type 0 where
  pub is_ok : Bool
  pub watched : Option ℕ
  pub closed : List ℕ

abbrev failed_with : List ℕ → Started
failed_with fds = record { is_ok = false; watched = none; closed = fds }

unfoldable pub jdwp_control_init : List ℕ → ControlCalls → Started
jdwp_control_init sockname c =
    if leb maxpath (length sockname) then failed_with [] else elim c.socket [
      | none ↦ failed_with []
      | some s ↦
          if not c.binds
          then failed_with (s ∷ [])
          else if not c.listens
          then failed_with (s ∷ [])
          else if not c.creates
          then failed_with (s ∷ [])
          else record { is_ok = true; watched = some s; closed = [] }
    ]

-- The return of one `accept`.
pub data AcceptReply : Type 0 where
  accepted_fd : ℕ → AcceptReply
  interrupted aborted accept_failed : AcceptReply

-- The `do` loop: the connection, or none where the handler returns. It blocks nowhere: the
-- descriptor is readable, and after the replies that are listed a call fails.
unfoldable pub accept_next : List AcceptReply → Option ℕ
accept_next [] = none
accept_next (accepted_fd s ∷ replies) = some s
accept_next (interrupted ∷ replies) = accept_next replies
accept_next (aborted ∷ replies) = none
accept_next (accept_failed ∷ replies) = none

-- `jdwp_control_event`: the new process joins the end of the list, if there is memory for it and
-- its fdevent. If not, its descriptor stays open.
unfoldable pub jdwp_control_event :
    Bool → List AcceptReply → Bool → List JdwpProcess → List JdwpProcess
unfolding accept_next
jdwp_control_event readable replies allocates procs =
    if not readable then procs else elim (accept_next replies) [
      | none ↦ procs
      | some s ↦ if allocates then procs ++ (jdwp_process_alloc s ∷ []) else procs
    ]

known-append :
    (procs : List JdwpProcess) (s : ℕ) → known (procs ++ (jdwp_process_alloc s ∷ [])) ≡ known procs
unfolding jdwp_process_alloc
known-append [] s = refl
known-append (p ∷ procs) s = ground (arith, known-append procs s)

-- A connection does not change the list of pids: a process is shown when its pid has been read.
pub known-jdwp_control_event :
    (readable : Bool) (replies : List AcceptReply) (allocates : Bool) (procs : List JdwpProcess)
    → known (jdwp_control_event readable replies allocates procs) ≡ known procs
unfolding jdwp_control_event
known-jdwp_control_event false replies allocates procs = refl
known-jdwp_control_event true replies allocates procs = elim (Option-cases (accept_next replies)) [
  | inl e ↦ rw e refl
  | inr (s, e) ↦ rw e (joined s allocates)
]
  where
    joined :
        (s : ℕ) (allocates : Bool)
        → known (if allocates then procs ++ (jdwp_process_alloc s ∷ []) else procs) ≡ known procs
    joined s true = known-append procs s
    joined s false = refl
