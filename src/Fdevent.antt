-- ===== src/Fdevent.antt =====
-- The event loop of adbd/src/fdevent.c over `select`: the table of descriptors, the sets that it
-- watches and the list of pending events. Events and state bits are Booleans.
pub mod Growth
pub mod Invariant
pub mod Process
pub mod Registration
use stm32f429_adbd.Common.{
  ℕ, zero, suc, ◌+◌, ◌-◌, ◌*◌, Bool, true, false, not, ◌||◌, ◌&&◌, Option, none, some, List, [],
  ◌∷◌, ◌++◌, ◌==◌, if◌then◌else◌, leb, ltb,
}
use stm32f429_adbd.Engine.Monad.{update}
use stm32f429_adbd.Rings.{unlink}

-- The bits FDE_READ, FDE_WRITE, FDE_ERROR, FDE_TIMEOUT and FDE_DONT_CLOSE, all of FDE_EVENTMASK.
pub record Bits : Type 0 where
  pub read : Bool
  pub write : Bool
  pub error : Bool
  pub timeout : Bool
  pub dont_close : Bool

abbrev pub no_bits : Bits
no_bits = record { read = false; write = false; error = false; timeout = false; dont_close = false }

-- `a | b`, `a & ~b`, and the tests for zero and for equality.
abbrev pub both_bits : Bits → Bits → Bits
both_bits a b = record {
  read = a.read || b.read;
  write = a.write || b.write;
  error = a.error || b.error;
  timeout = a.timeout || b.timeout;
  dont_close = a.dont_close || b.dont_close;
}

abbrev pub without_bits : Bits → Bits → Bits
without_bits a b = record {
  read = a.read && not b.read;
  write = a.write && not b.write;
  error = a.error && not b.error;
  timeout = a.timeout && not b.timeout;
  dont_close = a.dont_close && not b.dont_close;
}

abbrev pub is_zero : Bits → Bool
is_zero a = not (a.read || (a.write || (a.error || (a.timeout || a.dont_close))))

abbrev pub same_bit : Bool → Bool → Bool
same_bit a b = if a then b else not b

abbrev pub same_bits : Bits → Bits → Bool
same_bits a b =
    same_bit a.read b.read
    && (same_bit a.write b.write
        && (same_bit a.error b.error
            && (same_bit a.timeout b.timeout && same_bit a.dont_close b.dont_close)))

-- `wanted` is `state & FDE_EVENTMASK`; `active`, `pending` and `created` are the other bits of
-- `state`; `events` are those that occurred.
pub record Fdevent : Type 0 where
  pub fd : ℕ
  pub force_eof : Bool
  pub wanted : Bits
  pub active : Bool
  pub pending : Bool
  pub created : Bool
  pub events : Bits

-- How many bits an `fd_set` of the C library has.
abbrev pub fd_setsize : ℕ
fd_setsize = 1024

-- `fds` is the fdevent at each address. `fd_table` maps a descriptor to such an address.
-- `overrun` says that FD_SET or FD_CLR has written past the end of a set; what the bits of the sets
-- are after that is not known, and nothing is proved of it.
pub record Loop : Type 0 where
  pub fds : ℕ → Fdevent
  pub fd_table : ℕ → Option ℕ
  pub fd_table_max : ℕ
  pub read_fds : ℕ → Bool
  pub write_fds : ℕ → Bool
  pub error_fds : ℕ → Bool
  pub select_n : ℕ
  pub list_pending : List ℕ
  pub closed : List ℕ
  pub overrun : Bool

abbrev pub set_fde : ℕ → Fdevent → Loop → Loop
set_fde p x σ = record σ { fds = update σ.fds p x }

unfoldable pub fdevent_init : Loop → Loop
fdevent_init σ = record σ { read_fds = λ _. false; write_fds = λ _. false; error_fds = λ _. false }

unfoldable pub fdevent_connect : ℕ → Loop → Loop
fdevent_connect fd σ = if leb σ.select_n fd then record σ { select_n = suc fd } else σ

-- The loop of `fdevent_disconnect`: `n` after so many rounds.
unfoldable pub last_used : (ℕ → Option ℕ) → ℕ → ℕ
last_used table zero = 0
last_used table (suc i) = elim (table i) [ some _ ↦ i | none ↦ last_used table i ]

unfoldable pub fdevent_disconnect : ℕ → Loop → Loop
unfolding last_used
fdevent_disconnect fd σ = record σ {
  read_fds = update σ.read_fds fd false;
  write_fds = update σ.write_fds fd false;
  error_fds = update σ.error_fds fd false;
  select_n = suc (last_used σ.fd_table σ.select_n);
  overrun = σ.overrun || leb fd_setsize fd;
}

unfoldable pub fdevent_update : ℕ → Bits → Loop → Loop
fdevent_update p events σ = record (set_fde p (record (σ.fds p) { wanted = events }) σ) {
  read_fds = update σ.read_fds (σ.fds p).fd events.read;
  write_fds = update σ.write_fds (σ.fds p).fd events.write;
  error_fds = update σ.error_fds (σ.fds p).fd events.error;
  overrun = σ.overrun || leb fd_setsize (σ.fds p).fd;
}

-- `while(fd_table_max <= fde->fd) fd_table_max *= 2`
unfoldable pub grow : ℕ → ℕ → ℕ → Option ℕ
grow zero size fd = none
grow (suc n) size fd = let rest = grow n (size * 2) fd in if leb size fd then rest else some size

-- The growth of the table; none is FATAL. The fuel is one more than the descriptor.
unfoldable pub expand : ℕ → Loop → Option Loop
unfolding fdevent_init grow
expand fd σ =
    if ltb 32000 fd
    then none
    else let start =
        if σ.fd_table_max == 0 then record (fdevent_init σ) { fd_table_max = 256 } else σ in
      elim (grow (suc fd) start.fd_table_max fd) [
        | none ↦ none
        | some size ↦ some (record start {
          fd_table_max = size;
          fd_table = λ f. if leb σ.fd_table_max f && ltb f size then none else σ.fd_table f;
        })
      ]

unfoldable pub fdevent_register : ℕ → Loop → Option Loop
unfolding expand
fdevent_register p σ =
    elim (if leb σ.fd_table_max (σ.fds p).fd then expand (σ.fds p).fd σ else some σ) [
      | none ↦ none
      | some σ' ↦ some (record σ' { fd_table = update σ'.fd_table (σ.fds p).fd (some p) })
    ]

unfoldable pub fdevent_unregister : ℕ → Loop → Option Loop
fdevent_unregister p σ =
    if leb σ.fd_table_max (σ.fds p).fd then none else elim (σ.fd_table (σ.fds p).fd) [
      | none ↦ none
      | some q ↦
          if not (q == p)
          then none
          else some (record σ {
            fd_table = update σ.fd_table (σ.fds p).fd none;
            closed =
                if (σ.fds p).wanted.dont_close then σ.closed else σ.closed ++ ((σ.fds p).fd ∷ []);
          })
    ]

-- What `fdevent_install` makes of the memory.
abbrev pub fresh_fde : ℕ → Fdevent
fresh_fde fd = record {
  fd = fd;
  force_eof = false;
  wanted = no_bits;
  active = true;
  pending = false;
  created = false;
  events = no_bits;
}

unfoldable pub fdevent_install : ℕ → ℕ → Loop → Option Loop
unfolding fdevent_register fdevent_connect
fdevent_install p fd σ = elim (fdevent_register p (set_fde p (fresh_fde fd) σ)) [
  | none ↦ none
  | some σ' ↦ some (fdevent_connect fd σ')
]

-- `fdevent_create`, on the address that malloc gives.
unfoldable pub fdevent_create : ℕ → ℕ → Loop → Option Loop
unfolding fdevent_install
fdevent_create p fd σ = elim (fdevent_install p fd σ) [
  | none ↦ none
  | some σ' ↦ some (set_fde p (record (σ'.fds p) { created = true }) σ')
]

abbrev pub dequeued : ℕ → Loop → Loop
dequeued p σ = record σ { list_pending = unlink p σ.list_pending }

-- The last lines of `fdevent_remove`: `state = 0` and `events = 0`.
abbrev pub cleared : Fdevent → Fdevent
cleared x = record x {
  wanted = no_bits;
  active = false;
  pending = false;
  created = false;
  events = no_bits;
}

unfoldable pub fdevent_remove : ℕ → Loop → Option Loop
unfolding fdevent_disconnect fdevent_unregister
fdevent_remove p σ =
    let σ' = if (σ.fds p).pending then dequeued p σ else σ in
    elim (if (σ'.fds p).active
      then fdevent_unregister p (fdevent_disconnect (σ'.fds p).fd σ')
      else some σ') [ none ↦ none | some σ'' ↦ some (set_fde p (cleared (σ''.fds p)) σ'') ]

unfoldable pub fdevent_destroy : ℕ → Loop → Option Loop
unfolding fdevent_remove
fdevent_destroy p σ = if (σ.fds p).created then fdevent_remove p σ else none

-- The branch of `fdevent_set` for a pending fdevent.
unfoldable pub forget : ℕ → Bits → Loop → Loop
forget p events σ =
    let left = without_bits (σ.fds p).events events in
    if is_zero left
    then dequeued p (set_fde p (record (σ.fds p) { events = left; pending = false }) σ)
    else set_fde p (record (σ.fds p) { events = left }) σ

unfoldable pub fdevent_set : ℕ → Bits → Loop → Loop
unfolding fdevent_update forget
fdevent_set p events σ =
    if same_bits (σ.fds p).wanted events
    then σ
    else let σ' = if (σ.fds p).active then fdevent_update p events σ else σ in
      let σ'' = set_fde p (record (σ'.fds p) { wanted = events }) σ' in
      if (σ''.fds p).pending then forget p events σ'' else σ''

unfoldable pub fdevent_add : ℕ → Bits → Loop → Loop
unfolding fdevent_set
fdevent_add p events σ = fdevent_set p (both_bits (σ.fds p).wanted events) σ

unfoldable pub fdevent_del : ℕ → Bits → Loop → Loop
unfolding fdevent_set
fdevent_del p events σ = fdevent_set p (without_bits (σ.fds p).wanted events) σ
