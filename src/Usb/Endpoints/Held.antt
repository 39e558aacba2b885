-- ===== src/Usb/Endpoints/Held.antt =====
-- Every endpoint of adbd/src/usb_linux_client.c that is opened is closed once, or held by the
-- handle.
use stm32f429_adbd.Common.{
  ℕ, zero, suc, ◌+◌, ◌<◌, ◌≡◌, ◌⊎◌, inl, inr, refl, subst, true, false, Option, none, some, List,
  [], ◌∷◌, ◌++◌, ◌==◌, if◌then◌else◌, arith, Bool-cases,
}
use stm32f429_adbd.Services.Accounts.{count, count-append}
use stm32f429_adbd.Usb.Endpoints.{
  UsbHandle, Prog, open_endpoint, write_control, is_positive, close_endpoints, or_close,
  open_bulk_in, open_bulk_out, write_descriptors, init_functionfs,
}

-- No open returns descriptor 0, which the daemon has from its start.
abbrev pub ArePositive : List (Option ℕ) → Type 0
ArePositive [] = Unit {0}
ArePositive (none ∷ opens) = ArePositive opens
ArePositive (some fd ∷ opens) = (0 < fd) × ArePositive opens

abbrev pub one : ℕ → Option ℕ → ℕ
one d none = 0
one d (some fd) = if fd == d then 1 else 0

-- Each descriptor but 0 was opened as often as it was closed and is held.
abbrev pub IsHeld : UsbHandle → Type 0
IsHeld h =
    (d : ℕ)
    → count (suc d) h.opened
      ≡ count (suc d) h.closed
        + one (suc d) h.control
        + one (suc d) h.bulk_out
        + one (suc d) h.bulk_in

-- No endpoint is open.
abbrev pub IsIdle : UsbHandle → Type 0
IsIdle h = (h.control ≡ none) × (h.bulk_out ≡ none) × (is_positive h.bulk_in ≡ false)

-- All three are.
abbrev pub IsReady : UsbHandle → Type 0
IsReady h =
    (is_positive h.control ≡ true)
    × (is_positive h.bulk_out ≡ true)
    × (is_positive h.bulk_in ≡ true)

-- What an `int` that `adb_open` returned is.
abbrev pub IsSound : Option ℕ → Type 0
IsSound o = (o ≡ none) ⊎ (is_positive o ≡ true)

pub count-snoc :
    (d fd : ℕ) (fds : List ℕ)
    → count d (fds ++ (fd ∷ [])) ≡ count d fds + (if fd == d then 1 else 0)
unfolding count
count-snoc d fd fds = omega (arith, count-append d fds (fd ∷ []))

close_endpoints-IsHeld : (h : UsbHandle) → IsHeld h → IsHeld (close_endpoints h).1
unfolding close_endpoints
close_endpoints-IsHeld h held d = grind (arith, held d, count-snoc)

close_endpoints-IsIdle :
    (h : UsbHandle) → IsSound h.control → IsSound h.bulk_out → IsIdle (close_endpoints h).1
unfolding close_endpoints
close_endpoints-IsIdle h c o = ground (arith, c, o)

close_endpoints-opens : (h : UsbHandle) → (close_endpoints h).1.opens ≡ h.opens
unfolding close_endpoints
close_endpoints-opens h = ground arith

abbrev pub IsSettled : UsbHandle → Type 0
IsSettled h = IsHeld h × ArePositive h.opens × (IsIdle h ⊎ IsReady h)

close_endpoints-IsSettled :
    (h : UsbHandle)
    → IsHeld h
    → ArePositive h.opens
    → IsSound h.control
    → IsSound h.bulk_out
    → IsSettled (close_endpoints h).1
close_endpoints-IsSettled h held pos c o = (
  close_endpoints-IsHeld h held,
  rw (close_endpoints-opens h) pos,
  inl (close_endpoints-IsIdle h c o),
)

rest_positive :
    (h : UsbHandle) (r : Option ℕ) (opens : List (Option ℕ))
    → h.opens ≡ r ∷ opens
    → ArePositive (r ∷ opens)
    → ArePositive (open_endpoint h).1.opens
unfolding open_endpoint
rest_positive h none opens e pos = rw e pos
rest_positive h (some fd) opens e pos = rw e pos.1

no_more : (h : UsbHandle) → h.opens ≡ [] → ArePositive (open_endpoint h).1.opens
unfolding open_endpoint
no_more h e = ground (arith, e)

-- An endpoint that was not open gets what `adb_open` returned.
module _ (h : UsbHandle) (held : IsHeld h) (pos : ArePositive h.opens) where
  opened-pos : ArePositive (open_endpoint h).1.opens
  opened-pos =
      elim h.opens as (λ l. h.opens ≡ l → ArePositive (open_endpoint h).1.opens) [
        | [] ↦ λ e. no_more h e
        | r ∷ opens ↦ λ e. rest_positive h r opens e (subst ArePositive e pos)
      ]
        refl

  opened-IsSound : IsSound (open_endpoint h).0
  unfolding open_endpoint is_positive
  opened-IsSound = ground (arith, pos)

  bulk_in-IsHeld :
      is_positive h.bulk_in ≡ false
      → IsHeld (record ((open_endpoint h).1) { bulk_in = (open_endpoint h).0 })
  unfolding open_endpoint is_positive
  bulk_in-IsHeld shut d = grind (arith, held d, count-snoc)

  bulk_out-IsHeld :
      h.bulk_out ≡ none → IsHeld (record ((open_endpoint h).1) { bulk_out = (open_endpoint h).0 })
  unfolding open_endpoint
  bulk_out-IsHeld shut d = grind (arith, held d, count-snoc)

  control-IsHeld :
      h.control ≡ none → IsHeld (record ((open_endpoint h).1) { control = (open_endpoint h).0 })
  unfolding open_endpoint
  control-IsHeld shut d = grind (arith, held d, count-snoc)

kept_endpoints :
    (h : UsbHandle)
    → ((open_endpoint h).1.control ≡ h.control)
      × ((open_endpoint h).1.bulk_out ≡ h.bulk_out)
      × ((open_endpoint h).1.bulk_in ≡ h.bulk_in)
unfolding open_endpoint
kept_endpoints h = ground arith

-- What follows the opening of an endpoint.
or_close-IsSettled :
    (fd : Option ℕ) (next : Prog (Unit {0})) (h : UsbHandle)
    → IsSound fd
    → (is_positive fd ≡ true → IsSettled (next h).1)
    → (fd ≡ none → IsSettled (close_endpoints h).1)
    → IsSettled (or_close fd next h).1
unfolding or_close is_positive
or_close-IsSettled none next h sound goes fails = fails refl
or_close-IsSettled (some zero) next h sound goes fails = absurd (ground (arith, sound))
or_close-IsSettled (some (suc fd)) next h sound goes fails = goes refl

open_bulk_in-IsSettled :
    (h : UsbHandle)
    → IsHeld h
    → ArePositive h.opens
    → is_positive h.control ≡ true
    → is_positive h.bulk_out ≡ true
    → is_positive h.bulk_in ≡ false
    → IsSettled (open_bulk_in h).1
unfolding open_bulk_in
open_bulk_in-IsSettled h held pos c o shut =
    let (kc, ko, _) = kept_endpoints h in
    let now = bulk_in-IsHeld h held pos shut in
    let more = opened-pos h held pos in
    or_close-IsSettled (open_endpoint h).0 _ _ (opened-IsSound h held pos)
      (λ fd. (now, more, inr (rw kc c, rw ko o, fd)))
      (λ _. close_endpoints-IsSettled _ now more (inr (rw kc c)) (inr (rw ko o)))

open_bulk_out-IsSettled :
    (h : UsbHandle)
    → IsHeld h
    → ArePositive h.opens
    → is_positive h.control ≡ true
    → h.bulk_out ≡ none
    → is_positive h.bulk_in ≡ false
    → IsSettled (open_bulk_out h).1
unfolding open_bulk_out
open_bulk_out-IsSettled h held pos c o shut =
    let (kc, _, ki) = kept_endpoints h in
    let now = bulk_out-IsHeld h held pos o in
    let more = opened-pos h held pos in
    or_close-IsSettled (open_endpoint h).0 _ _ (opened-IsSound h held pos)
      (λ fd. open_bulk_in-IsSettled _ now more (rw kc c) fd (rw ki shut))
      (λ e. close_endpoints-IsSettled _ now more (inr (rw kc c)) (inl e))

write_control_kept :
    (h : UsbHandle)
    → ((write_control h).1.opens ≡ h.opens)
      × ((write_control h).1.opened ≡ h.opened)
      × ((write_control h).1.closed ≡ h.closed)
      × ((write_control h).1.control ≡ h.control)
      × ((write_control h).1.bulk_out ≡ h.bulk_out)
      × ((write_control h).1.bulk_in ≡ h.bulk_in)
unfolding write_control
write_control_kept h = ground arith

-- A handle whose control endpoint is open, and no other.
abbrev HasControl : UsbHandle → Type 0
HasControl h =
    IsHeld h
    × ArePositive h.opens
    × (is_positive h.control ≡ true)
    × (h.bulk_out ≡ none)
    × (is_positive h.bulk_in ≡ false)

write_control-HasControl : (h : UsbHandle) → HasControl h → HasControl (write_control h).1
write_control-HasControl h (held, pos, c, o, i) =
    let (es, eo, ec, kc, ko, ki) = write_control_kept h in
    (λ d. rw (eo, ec, kc, ko, ki) (held d), rw es pos, rw kc c, rw ko o, rw ki i)

HasControl-close_endpoints : (h : UsbHandle) → HasControl h → IsSettled (close_endpoints h).1
HasControl-close_endpoints h (held, pos, c, o, i) =
    close_endpoints-IsSettled h held pos (inr c) (inl o)

write_descriptors-IsSettled : (h : UsbHandle) → HasControl h → IsSettled (write_descriptors h).1
unfolding write_descriptors
write_descriptors-IsSettled h has =
    let first = write_control-HasControl h has in
    let second = write_control-HasControl (write_control h).1 first in
    elim (Bool-cases (write_control h).0) [
      | inr bad ↦ rw bad (HasControl-close_endpoints _ first)
      | inl good ↦ elim (Bool-cases (write_control (write_control h).1).0) [
        | inr bad ↦ rw (good, bad) (HasControl-close_endpoints _ second)
        | inl good' ↦
            let (held, pos, c, o, i) = second in
            rw (good, good')
              (open_bulk_out-IsSettled (write_control (write_control h).1).1 held pos c o i)
      ]
    ]

-- `init_functionfs` on a handle with no endpoint open, when no open returns 0, leaves either all
-- three open, or none and every one that it opened closed again.
pub init_functionfs-IsSettled :
    (h : UsbHandle) → IsHeld h → IsIdle h → ArePositive h.opens → IsSettled (init_functionfs h).1
unfolding init_functionfs
init_functionfs-IsSettled h held (c, o, i) pos =
    let (_, ko, ki) = kept_endpoints h in
    let now = control-IsHeld h held pos c in
    let more = opened-pos h held pos in
    or_close-IsSettled (open_endpoint h).0 _ _ (opened-IsSound h held pos)
      (λ fd.
        write_descriptors-IsSettled (record ((open_endpoint h).1) { control = (open_endpoint h).0 })
          (now, more, fd, rw ko o, rw ki i))
      (λ e. close_endpoints-IsSettled _ now more (inl e) (inl (rw ko o)))
