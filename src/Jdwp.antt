-- ===== src/Jdwp.antt =====
-- The processes of adbd/src/jdwp_service.c: reading a pid, and the descriptors that wait to be
-- passed to a process. What `recv`, `sendmsg`, `fcntl`, `sscanf` and `socketpair` return are
-- parameters.
pub mod Queue
pub mod Known
pub mod Control
pub mod Trackers
use stm32f429_adbd.Common.{
  ℕ, zero, suc, ◌+◌, ◌-◌, Bool, true, false, not, Option, none, some, List, [], ◌∷◌, ◌++◌, ◌==◌,
  if◌then◌else◌, leb, length, take, set, get_or,
}
use stm32f429_adbd.Io.{
  ReadReply, got, read_failed, WriteReply, accepted, write_failed, eintr, eagain, other_errno,
}
use stm32f429_adbd.Stream.{fill}

abbrev pub max_out_fds : ℕ
max_out_fds = 4

-- A negative pid is none. `in_buff` holds the `in_len` characters that were read; `out_fds` is the
-- whole array. `want_write` is FDE_WRITE of the fdevent.
pub record JdwpProcess : Type 0 where
  pub pid : Option ℕ
  pub socket : ℕ
  pub in_buff : List ℕ
  pub out_fds : List ℕ
  pub out_count : ℕ
  pub want_write : Bool

-- `jdwp_process_alloc`
unfoldable pub jdwp_process_alloc : ℕ → JdwpProcess
jdwp_process_alloc socket = record {
  pid = none;
  socket = socket;
  in_buff = [];
  out_fds = 0 ∷ 0 ∷ 0 ∷ 0 ∷ [];
  out_count = 0;
  want_write = false;
}

-- The descriptors that `jdwp_process_free` closes, in order.
unfoldable pub jdwp_process_free : JdwpProcess → List ℕ
jdwp_process_free p = p.socket ∷ take p.out_count p.out_fds

-- A process after an event, with the descriptors that were sent to it and those that were closed:
-- kept, or freed.
pub data Outcome : Type 0 where
  kept : List ℕ → List ℕ → JdwpProcess → Outcome
  freed : List ℕ → List ℕ → Outcome

-- The reading half: the handler returns, goes on to the writing half, or closes the process.
pub data Stage : Type 0 where
  returns goes_on : JdwpProcess → Stage
  closes : Stage

-- The pid, from four characters that arrive in any pieces.
unfoldable pub read_pid : (List ℕ → Option (Option ℕ)) → List ReadReply → JdwpProcess → Stage
read_pid sscanf replies p =
    let r = fill replies (4 - length p.in_buff) in
    let text = p.in_buff ++ r.stored in
    if r.is_eof
    then closes
    else if not (length text == 4)
    then returns (record p { in_buff = text })
    else elim (sscanf text) [
      | none ↦ closes
      | some pid ↦ goes_on (record p { in_buff = text; pid = pid })
    ]

-- Once the pid is known: whether the connection has ended.
unfoldable pub has_ended : List ReadReply → Bool
has_ended [] = false
has_ended (got [] ∷ replies) = true
has_ended (got (b ∷ bs) ∷ replies) = has_ended replies
has_ended (read_failed eintr ∷ replies) = has_ended replies
has_ended (read_failed eagain ∷ replies) = false
has_ended (read_failed other_errno ∷ replies) = true

unfoldable pub read_stage : (List ℕ → Option (Option ℕ)) → List ReadReply → JdwpProcess → Stage
unfolding read_pid has_ended
read_stage sscanf replies p = elim p.pid [
  | none ↦ read_pid sscanf replies p
  | some _ ↦ if has_ended replies then closes else returns p
]

-- `for(n = 1; n < out_count; n++) out_fds[n - 1] = out_fds[n]`
unfoldable pub shift_fds : ℕ → List ℕ → List ℕ
shift_fds zero fds = fds
shift_fds (suc zero) fds = fds
shift_fds (suc (suc n)) [] = []
shift_fds (suc (suc n)) (a ∷ []) = a ∷ []
shift_fds (suc (suc n)) (a ∷ b ∷ fds) = b ∷ shift_fds (suc n) (b ∷ fds)

-- The loop around `sendmsg`: the descriptors in the control message, if it was sent. The socket
-- blocks there; after the replies that are listed, a call fails.
unfoldable pub sends : List ℕ → List WriteReply → Option (List ℕ)
sends control [] = none
sends control (accepted n ∷ replies) = some control
sends control (write_failed eintr ∷ replies) = sends control replies
sends control (write_failed _ ∷ replies) = none

-- The writing half. The first two of the tests are the `fcntl`s before the loop, the last is the
-- one after it.
unfoldable pub write_stage : Bool → Bool → Bool → List WriteReply → JdwpProcess → Outcome
unfolding shift_fds sends jdwp_process_free
write_stage gets_flags clears_flag restores_flag replies p =
    let fd = get_or p.out_fds 0 0 in
    let shifted = record p { out_fds = shift_fds p.out_count p.out_fds } in
    if p.out_count == 0
    then kept [] [] p
    else if not gets_flags
    then freed [] (jdwp_process_free p)
    else if not clears_flag
    then freed [] (jdwp_process_free p)
    else elim (sends (fd ∷ []) replies) [
      | none ↦ freed [] (jdwp_process_free p)
      | some handed ↦
          if not restores_flag
          then freed handed (fd ∷ jdwp_process_free shifted)
          else kept handed (fd ∷ []) (record shifted {
            out_count = p.out_count - 1;
            want_write = if p.out_count - 1 == 0 then false else p.want_write;
          })
    ]

-- What the system calls return in one event.
pub record Calls : Type 0 where
  pub sscanf : List ℕ → Option (Option ℕ)
  pub received : List ReadReply
  pub gets_flags : Bool
  pub clears_flag : Bool
  pub restores_flag : Bool
  pub sent : List WriteReply

unfoldable pub jdwp_process_event : Calls → Bool → Bool → JdwpProcess → Outcome
unfolding read_stage write_stage
jdwp_process_event c readable writable p =
    elim (if readable then read_stage c.sscanf c.received p else goes_on p) [
      | closes ↦ freed [] (jdwp_process_free p)
      | returns q ↦ kept [] [] q
      | goes_on q ↦
          if writable
          then write_stage c.gets_flags c.clears_flag c.restores_flag c.sent q
          else kept [] [] q
    ]

-- A descriptor joins the process's; none is the refusal.
unfoldable pub push_fd : ℕ → JdwpProcess → Option JdwpProcess
push_fd fd p =
    if leb max_out_fds p.out_count
    then none
    else some (record p {
      out_fds = set p.out_fds p.out_count fd;
      out_count = suc p.out_count;
      want_write = if suc p.out_count == 1 then true else p.want_write;
    })

abbrev same_pid : Option ℕ → Option ℕ → Bool
same_pid none none = true
same_pid none (some b) = false
same_pid (some a) none = false
same_pid (some a) (some b) = a == b

-- `create_jdwp_connection_fd` over the list, with the pair that `socketpair` makes: the descriptor
-- that is returned (none is -1), and the list.
unfoldable pub create_jdwp_connection_fd :
    Option ℕ → Option (ℕ × ℕ) → List JdwpProcess → Option ℕ × List JdwpProcess
unfolding push_fd
create_jdwp_connection_fd pid pair [] = (none, [])
create_jdwp_connection_fd pid pair (p ∷ procs) =
    let rest = create_jdwp_connection_fd pid pair procs in
    if same_pid p.pid pid
    then elim pair [
      | none ↦ (none, p ∷ procs)
      | some fds ↦ elim (push_fd fds.1 p) [
        | none ↦ (none, p ∷ procs)
        | some q ↦ (some fds.0, q ∷ procs)
      ]
    ]
    else (rest.0, p ∷ rest.1)
