-- ===== src/Usb/Endpoints/Registered.antt =====
-- How many transports the threads of adbd/src/usb_linux_client.c register.
use stm32f429_adbd.Common.{
  ℕ, zero, suc, ◌≡◌, ◌≢◌, refl, Bool, true, Option, none, some, arith, Bool-cases, ap, ◌∙◌, inl,
  inr, sym,
}
use stm32f429_adbd.Usb.Endpoints.{
  UsbHandle, Prog, open_endpoint, write_control, close_endpoints, or_close, close_endpoint,
  open_bulk_in, open_bulk_out, write_descriptors, init_functionfs, register_usb_transport,
  usb_ffs_open, usb_ffs_kick,
}

close_endpoints-registered : (h : UsbHandle) → (close_endpoints h).1.registered ≡ h.registered
unfolding close_endpoints
close_endpoints-registered h = ground arith

open_endpoint-registered : (h : UsbHandle) → (open_endpoint h).1.registered ≡ h.registered
unfolding open_endpoint
open_endpoint-registered h = ground arith

write_control-registered : (h : UsbHandle) → (write_control h).1.registered ≡ h.registered
unfolding write_control
write_control-registered h = ground arith

or_close-registered :
    (fd : Option ℕ) (next : Prog (Unit {0})) (h : UsbHandle)
    → (next h).1.registered ≡ h.registered
    → (or_close fd next h).1.registered ≡ h.registered
unfolding or_close
or_close-registered none next h same = close_endpoints-registered h
or_close-registered (some fd) next h same = same

open_bulk_out-registered : (h : UsbHandle) → (open_bulk_out h).1.registered ≡ h.registered
unfolding open_bulk_out open_bulk_in
open_bulk_out-registered h =
    or_close-registered (open_endpoint h).0 open_bulk_in _ (
      or_close-registered (open_endpoint tried).0 (λ g. (tt, g)) _ refl
      ∙ open_endpoint-registered tried)
    ∙ open_endpoint-registered h
  where
    tried : UsbHandle
    tried = record ((open_endpoint h).1) { bulk_out = (open_endpoint h).0 }

write_descriptors-registered : (h : UsbHandle) → (write_descriptors h).1.registered ≡ h.registered
unfolding write_descriptors
write_descriptors-registered h = elim (Bool-cases (write_control h).0) [
  | inr bad ↦ rw bad (close_endpoints-registered first ∙ write_control-registered h)
  | inl good ↦ elim (Bool-cases (write_control (write_control h).1).0) [
    | inr bad ↦ rw (good, bad) (close_endpoints-registered second ∙ twice)
    | inl good' ↦ rw (good, good') (open_bulk_out-registered second ∙ twice)
  ]
]
  where
    first : UsbHandle
    first = (write_control h).1

    second : UsbHandle
    second = (write_control first).1

    twice : second.registered ≡ h.registered
    twice = write_control-registered (write_control h).1 ∙ write_control-registered h

pub init_functionfs-registered : (h : UsbHandle) → (init_functionfs h).1.registered ≡ h.registered
unfolding init_functionfs
init_functionfs-registered h =
    or_close-registered (open_endpoint h).0 write_descriptors tried
      (write_descriptors-registered tried)
    ∙ open_endpoint-registered h
  where
    tried : UsbHandle
    tried = record ((open_endpoint h).1) { control = (open_endpoint h).0 }

pub kick-registered : (h : UsbHandle) → (usb_ffs_kick h).1.registered ≡ h.registered
unfolding usb_ffs_kick close_endpoint
kick-registered h = ground arith

register-adds : (h : UsbHandle) → (register_usb_transport h).1.registered ≡ suc h.registered
unfolding register_usb_transport
register-adds h = refl

register-control : (h : UsbHandle) → (register_usb_transport h).1.control ≡ h.control
unfolding register_usb_transport
register-control h = refl

-- What is opened at last is registered once.
abbrev IsDone : UsbHandle → Bool × UsbHandle → Type 0
IsDone h r = r.0 ≡ true → (r.1.registered ≡ suc h.registered) × (r.1.control ≢ none)

round-IsDone :
    (h tried : UsbHandle) (rest : Bool × UsbHandle) (c : Option ℕ)
    → tried.registered ≡ h.registered
    → tried.control ≡ c
    → IsDone tried rest
    → IsDone h (elim c [ none ↦ rest | some fd ↦ (true, (register_usb_transport tried).1) ])
round-IsDone h tried rest none same e again done =
    let (one_more, open_) = again done in (one_more ∙ ap suc same, open_)
round-IsDone h tried rest (some fd) same e again done = (
  register-adds tried ∙ ap suc same,
  λ shut. some-none fd (sym e ∙ sym (register-control tried) ∙ shut),
)
  where
    some-none : (fd : ℕ) → some fd ≢ none
    some-none fd e = cc

pub open-registered : (n : ℕ) (h : UsbHandle) → IsDone h (usb_ffs_open n h)
unfolding usb_ffs_open
open-registered zero h = λ done. absurd cc
open-registered (suc n) h =
    round-IsDone h (init_functionfs h).1 (usb_ffs_open n (init_functionfs h).1)
      (init_functionfs h).1.control (init_functionfs-registered h) refl
      (open-registered n (init_functionfs h).1)
