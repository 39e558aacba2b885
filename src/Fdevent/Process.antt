-- ===== src/Fdevent/Process.antt =====
-- One round of the loop: `fdevent_process`, `fdevent_fd_check`, the list of pending fdevents and
-- `fdevent_call_fdfunc`, adbd/src/fdevent.c. What `select` and `fcntl` answer are parameters.
pub mod Delivery
pub mod Round
pub mod Dispatch
pub mod Subproc
pub mod Callback
pub mod Daemon
pub mod Turn
pub mod Run
use stm32f429_adbd.Common.{
  ℕ, zero, suc, ◌+◌, ◌-◌, Bool, true, false, not, ◌&&◌, ◌||◌, Option, none, some, List, [], ◌∷◌,
  ◌++◌, ◌==◌, if◌then◌else◌, ltb,
}
use stm32f429_adbd.Fdevent.{Bits, Fdevent, Loop, fd_setsize, no_bits, both_bits, is_zero, set_fde}

-- Three `fd_set`s, as tests of a descriptor.
pub record Sets : Type 0 where
  pub readable : ℕ → Bool
  pub writable : ℕ → Bool
  pub failing : ℕ → Bool

-- What `select` answers: descriptors that are ready and their count, or an error.
pub data Selected : Type 0 where
  selected : ℕ → Sets → Selected
  interrupted bad_descriptor other_error : Selected

abbrev one_if : Bool → ℕ
one_if b = if b then 1 else 0

-- `fdevent_fd_check` on `left` descriptors from `i` on: how many are registered and bad.
unfoldable pub bad_count : (ℕ → Bool) → (ℕ → Option ℕ) → ℕ → ℕ → ℕ
bad_count is_bad table zero i = 0
bad_count is_bad table (suc left) i =
    elim (table i) [ none ↦ 0 | some _ ↦ one_if (is_bad i) ] + bad_count is_bad table left (suc i)

-- The set of those.
unfoldable pub bad_set : (ℕ → Bool) → (ℕ → Option ℕ) → ℕ → Bool
bad_set is_bad table i = elim (table i) [ none ↦ false | some _ ↦ is_bad i ]

abbrev pub ready_bits : Sets → ℕ → Bits
ready_bits sets i = record {
  read = sets.readable i;
  write = sets.writable i;
  error = sets.failing i;
  timeout = false;
  dont_close = false;
}

abbrev pub ready_count : Sets → ℕ → ℕ
ready_count sets i = one_if (sets.readable i) + (one_if (sets.writable i) + one_if (sets.failing i))

-- `fdevent_plist_enqueue`
abbrev pub enqueued : ℕ → Loop → Loop
enqueued p σ = record σ { list_pending = σ.list_pending ++ (p ∷ []) }

-- The events join those of the fdevent, which joins the list unless it is pending already.
unfoldable pub mark : ℕ → Bits → Loop → Loop
mark p events σ =
    let x = σ.fds p in
    if x.pending
    then set_fde p (record x { events = both_bits x.events events }) σ
    else enqueued p (set_fde p (record x { events = both_bits x.events events; pending = true }) σ)

-- The loop over the descriptors: `left` of them from `i` on, `n` events still to be found.
unfoldable pub mark_from : Sets → ℕ → ℕ → ℕ → Loop → Option Loop
unfolding mark
mark_from sets zero i n σ = some σ
mark_from sets (suc left) i zero σ = some σ
mark_from sets (suc left) i (suc n) σ = elim (is_zero (ready_bits sets i)) [
  | true ↦ mark_from sets left (suc i) (suc n) σ
  | false ↦ elim (σ.fd_table i) [
    | none ↦ none
    | some p ↦
        mark_from sets left (suc i) (suc n - ready_count sets i) (mark p (ready_bits sets i) σ)
  ]
]

-- `n <= 0`: a read is faked for each bad descriptor; after EBADF the sets are empty before that.
unfoldable pub fake_reads : (ℕ → Bool) → Sets → Loop → Option Loop
unfolding mark_from bad_set bad_count
fake_reads is_bad sets σ =
    mark_from (record sets { readable = λ i. sets.readable i || bad_set is_bad σ.fd_table i })
      σ.select_n 0 (bad_count is_bad σ.fd_table σ.select_n 0) σ

unfoldable pub on_selected : (ℕ → Bool) → Selected → Loop → Option Loop
unfolding mark_from fake_reads
on_selected is_bad (selected zero sets) σ = fake_reads is_bad sets σ
on_selected is_bad (selected (suc n) sets) σ = mark_from sets σ.select_n 0 (suc n) σ
on_selected is_bad interrupted σ = some σ
on_selected is_bad bad_descriptor σ =
    fake_reads is_bad
      (record { readable = λ _. false; writable = λ _. false; failing = λ _. false }) σ
on_selected is_bad other_error σ = some σ

-- None stands for a null pointer, and for sets that `select`, FD_ISSET and FD_SET would use past
-- their end.
unfoldable pub fdevent_process : (ℕ → Bool) → Selected → Loop → Option Loop
unfolding on_selected
fdevent_process is_bad answer σ =
    let rest = on_selected is_bad answer σ in if ltb fd_setsize σ.select_n then none else rest

unfoldable pub fdevent_plist_dequeue : Loop → Option (ℕ × Loop)
fdevent_plist_dequeue σ = elim σ.list_pending [
  | [] ↦ none
  | p ∷ list ↦ some (p, record σ { list_pending = list })
]

-- `fdevent_call_fdfunc` up to the callback: what it is called with, if it is called.
unfoldable pub fdevent_call_fdfunc : ℕ → Loop → Option (ℕ × Bits) × Loop
fdevent_call_fdfunc p σ =
    let x = σ.fds p in
    if x.pending
    then (some (x.fd, x.events), set_fde p (record x { events = no_bits; pending = false }) σ)
    else (none, set_fde p (record x { events = no_bits }) σ)
