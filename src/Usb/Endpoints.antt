-- ===== src/Usb/Endpoints.antt =====
-- The threads of adbd/src/usb_linux_client.c that open the USB endpoints, and the kicks that close
-- them. what successive calls of `adb_open`, and of `adb_write` on the control endpoint, return is
-- part of the state. The thread waits while the endpoints are open and a kick wakes it, so that the
-- two alternate.
pub mod Held
pub mod Registered
pub mod Life
use stm32f429_adbd.Common.{
  ℕ, zero, suc, Bool, true, false, Option, none, some, List, [], ◌∷◌, ◌++◌, if◌then◌else◌,
}
use stm32f429_adbd.Common.Programs.{◌>>=◌, ◌>>◌, pure}

-- A usb_handle, with -1 as none, and what was done: `fd` is for the older driver. `opened` and
-- `closed` are the descriptors in the order in which they were; `registered` counts the calls of
-- `register_usb_transport`.
pub record UsbHandle : Type 0 where
  pub fd : Option ℕ
  pub control : Option ℕ
  pub bulk_out : Option ℕ
  pub bulk_in : Option ℕ
  pub opens : List (Option ℕ)
  pub writes : List Bool
  pub opened : List ℕ
  pub closed : List ℕ
  pub registered : ℕ

abbrev pub Prog : Type 0 → Type 0
Prog A = UsbHandle → A × UsbHandle

-- `adb_open`: none is a value below 0, also after the answers that are listed.
unfoldable pub open_endpoint : Prog (Option ℕ)
open_endpoint h = elim h.opens [
  | [] ↦ (none, h)
  | r ∷ opens ↦ elim r [
    | none ↦ (none, record h { opens = opens })
    | some fd ↦ (some fd, record h { opens = opens; opened = h.opened ++ (fd ∷ []) })
  ]
]

-- `adb_write` on the control endpoint: whether the value is not below 0.
unfoldable pub write_control : Prog Bool
write_control h = elim h.writes [
  | [] ↦ (false, h)
  | done ∷ writes ↦ (done, record h { writes = writes })
]

unfoldable pub close_endpoint : Option ℕ → Prog (Unit {0})
close_endpoint none h = (tt, h)
close_endpoint (some fd) h = (tt, record h { closed = h.closed ++ (fd ∷ []) })

abbrev put : (UsbHandle → UsbHandle) → Prog (Unit {0})
put f h = (tt, f h)

-- `> 0`
unfoldable pub is_positive : Option ℕ → Bool
is_positive none = false
is_positive (some zero) = false
is_positive (some (suc fd)) = true

-- The label `err`.
unfoldable pub close_endpoints : Prog (Unit {0})
unfolding close_endpoint is_positive
close_endpoints h =
    (do
      (if is_positive h.bulk_in
          then (do close_endpoint h.bulk_in; put (λ g. record g { bulk_in = none }))
          else pure tt)
      (if is_positive h.bulk_out
          then (do close_endpoint h.bulk_out; put (λ g. record g { bulk_out = none }))
          else pure tt)
      if is_positive h.control
          then (do close_endpoint h.control; put (λ g. record g { control = none }))
          else pure tt)
      h

unfoldable pub or_close : Option ℕ → Prog (Unit {0}) → Prog (Unit {0})
unfolding close_endpoints
or_close none next = close_endpoints
or_close (some fd) next = next

unfoldable pub open_bulk_in : Prog (Unit {0})
unfolding open_endpoint or_close
open_bulk_in = do fd ← open_endpoint; put (λ g. record g { bulk_in = fd }); or_close fd (pure tt)

unfoldable pub open_bulk_out : Prog (Unit {0})
unfolding open_endpoint or_close open_bulk_in
open_bulk_out = do
  fd ← open_endpoint
  put (λ g. record g { bulk_out = fd })
  or_close fd open_bulk_in

-- The descriptors and the strings go to the control endpoint.
unfoldable pub write_descriptors : Prog (Unit {0})
unfolding write_control close_endpoints open_bulk_out
write_descriptors = do
  descriptors ← write_control
  if descriptors
      then (do strings ← write_control; if strings then open_bulk_out else close_endpoints)
      else close_endpoints

unfoldable pub init_functionfs : Prog (Unit {0})
unfolding open_endpoint or_close write_descriptors
init_functionfs = do
  fd ← open_endpoint
  put (λ g. record g { control = fd })
  or_close fd write_descriptors

unfoldable pub register_usb_transport : Prog (Unit {0})
register_usb_transport = put (λ g. record g { registered = suc g.registered })

-- The body of `usb_ffs_open_thread` once it has woken, with at most that many rounds: whether it
-- came to register a transport.
unfoldable pub usb_ffs_open : ℕ → Prog Bool
unfolding init_functionfs register_usb_transport
usb_ffs_open zero h = (false, h)
usb_ffs_open (suc n) h =
    let tried = (init_functionfs h).1 in
    let rest = usb_ffs_open n tried in
    elim tried.control [ none ↦ rest | some fd ↦ (true, (register_usb_transport tried).1) ]

unfoldable pub usb_ffs_kick : Prog (Unit {0})
unfolding close_endpoint
usb_ffs_kick h =
    (do
      close_endpoint h.control
      close_endpoint h.bulk_out
      close_endpoint h.bulk_in
      put (λ g. record g { control = none; bulk_out = none; bulk_in = none }))
      h

-- `usb_ffs_init`: `calloc` clears the handle, and `bulk_out` is set to -1 twice, `bulk_in` never.
unfoldable pub usb_ffs_init : List (Option ℕ) → List Bool → UsbHandle
usb_ffs_init opens writes = record {
  fd = some 0;
  control = none;
  bulk_out = none;
  bulk_in = some 0;
  opens = opens;
  writes = writes;
  opened = [];
  closed = [];
  registered = 0;
}

-- The older driver tries two names, until one opens.
unfoldable pub open_either : Prog (Option ℕ)
unfolding open_endpoint
open_either = do fd ← open_endpoint; elim fd [ none ↦ open_endpoint | some d ↦ pure (some d) ]

unfoldable pub usb_adb_open : ℕ → Prog Bool
unfolding open_either register_usb_transport
usb_adb_open zero h = (false, h)
usb_adb_open (suc n) h =
    let (fd, tried) = open_either h in
    let rest = usb_adb_open n tried in
    elim fd [
      | none ↦ rest
      | some d ↦ (true, (register_usb_transport (record tried { fd = some d })).1)
    ]

unfoldable pub usb_adb_kick : Prog (Unit {0})
unfolding close_endpoint
usb_adb_kick h = (do close_endpoint h.fd; put (λ g. record g { fd = none })) h
