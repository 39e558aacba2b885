-- ===== src/Usb/Endpoints/Life.antt =====
-- The life of a usb_handle of adbd/src/usb_linux_client.c on FunctionFS.
use stm32f429_adbd.Common.{
  ℕ, zero, suc, ◌+◌, ◌≡◌, ◌≢◌, ◌⊎◌, inl, inr, refl, Bool, true, Option, none, some, List, arith, ap,
  ◌∙◌,
}
use stm32f429_adbd.Services.Accounts.{count}
use stm32f429_adbd.Usb.Endpoints.{
  UsbHandle, is_positive, close_endpoint, init_functionfs, register_usb_transport, usb_ffs_open,
  usb_ffs_kick, usb_ffs_init,
}
use stm32f429_adbd.Usb.Endpoints.Registered.{kick-registered, open-registered}
use stm32f429_adbd.Usb.Endpoints.Held.{
  ArePositive, one, IsHeld, IsIdle, IsReady, IsSettled, count-snoc, init_functionfs-IsSettled,
}

-- The handle is made, the thread opens the endpoints and registers a transport when none is open,
-- and the transport that it registered is kicked, so many times.
pub data Life : ℕ → UsbHandle → Type 0 where
  made :
      (opens : List (Option ℕ)) (writes : List Bool)
      → ArePositive opens
      → Life 0 (usb_ffs_init opens writes)
  opened :
      (n : ℕ) {kicks : ℕ} {h : UsbHandle}
      → Life kicks h
      → h.control ≡ none
      → (usb_ffs_open n h).0 ≡ true
      → Life kicks (usb_ffs_open n h).1
  kicked :
      {kicks : ℕ} {h : UsbHandle}
      → Life kicks h
      → h.control ≢ none
      → Life (suc kicks) (usb_ffs_kick h).1

-- No endpoint is open and every transport that was registered was kicked, or all three are open and
-- there is one transport more.
abbrev pub IsServed : ℕ → UsbHandle → Type 0
IsServed kicks h = (IsIdle h × (h.registered ≡ kicks)) ⊎ (IsReady h × (h.registered ≡ suc kicks))

IsReady-open : (h : UsbHandle) → IsIdle h ⊎ IsReady h → h.control ≢ none → IsReady h
IsReady-open h (inl idle) open_ = absurd (open_ idle.0)
IsReady-open h (inr ready) open_ = ready

IsIdle-shut : (h : UsbHandle) → IsIdle h ⊎ IsReady h → h.control ≡ none → IsIdle h
unfolding is_positive
IsIdle-shut h (inl idle) shut = idle
IsIdle-shut h (inr ready) shut = absurd (ground (arith, ready.0, shut))

registered-IsSettled :
    (tried : UsbHandle) (rest : Bool × UsbHandle) (c : Option ℕ)
    → IsSettled tried
    → (c ≡ none → IsSettled rest.1)
    → let r : Bool × UsbHandle = elim c [
      | none ↦ rest
      | some fd ↦ (true, (register_usb_transport tried).1)
    ] in
      IsSettled r.1
unfolding register_usb_transport
registered-IsSettled tried rest none settled again = again refl
registered-IsSettled tried rest (some fd) settled again = settled

usb_ffs_open-IsSettled :
    (n : ℕ) (h : UsbHandle) → IsSettled h → h.control ≡ none → IsSettled (usb_ffs_open n h).1
unfolding usb_ffs_open
usb_ffs_open-IsSettled zero h settled shut = settled
usb_ffs_open-IsSettled (suc n) h settled shut =
    let tried = init_functionfs-IsSettled h settled.0 (IsIdle-shut h settled.2 shut) settled.1 in
    registered-IsSettled (init_functionfs h).1 (usb_ffs_open n (init_functionfs h).1)
      (init_functionfs h).1.control tried (usb_ffs_open-IsSettled n (init_functionfs h).1 tried)

kick-IsHeld : (h : UsbHandle) → IsHeld h → IsReady h → IsHeld (usb_ffs_kick h).1
unfolding usb_ffs_kick close_endpoint is_positive
kick-IsHeld h held ready d = grind (arith, held d, count-snoc, ready)

kick-IsIdle : (h : UsbHandle) → IsIdle (usb_ffs_kick h).1
unfolding usb_ffs_kick is_positive
kick-IsIdle h = (refl, refl, refl)

kick-opens : (h : UsbHandle) → (usb_ffs_kick h).1.opens ≡ h.opens
unfolding usb_ffs_kick close_endpoint
kick-opens h = ground arith

IsServed-idle :
    (kicks : ℕ) (h : UsbHandle) → IsServed kicks h → h.control ≡ none → h.registered ≡ kicks
unfolding is_positive
IsServed-idle kicks h (inl (idle, same)) shut = same
IsServed-idle kicks h (inr (ready, more)) shut = absurd (ground (arith, ready.0, shut))

IsServed-ready :
    (kicks : ℕ) (h : UsbHandle) → IsServed kicks h → h.control ≢ none → h.registered ≡ suc kicks
IsServed-ready kicks h (inl (idle, same)) open_ = absurd (open_ idle.0)
IsServed-ready kicks h (inr (ready, more)) open_ = more

IsServed-settled : (kicks : ℕ) (h : UsbHandle) → IsServed kicks h → IsIdle h ⊎ IsReady h
IsServed-settled kicks h (inl (idle, _)) = inl idle
IsServed-settled kicks h (inr (ready, _)) = inr ready

-- Whatever the system answers, if no open returns 0: after so many kicks, at each stage of a
-- handle's life, every descriptor but 0 was opened as often as it was closed and is held by the
-- handle; and either no endpoint is open and as many transports were registered as were kicked, or
-- all three are open and one more was registered.
pub endpoints-Life :
    (kicks : ℕ) (h : UsbHandle)
    → Life kicks h
    → ((d : ℕ)
        → count (suc d) h.opened
          ≡ count (suc d) h.closed
            + one (suc d) h.control
            + one (suc d) h.bulk_out
            + one (suc d) h.bulk_in)
      × ArePositive h.opens
      × IsServed kicks h
unfolding usb_ffs_init count is_positive
endpoints-Life kicks h (made opens writes pos) =
    (λ d. ground arith, pos, inl ((refl, refl, refl), refl))
endpoints-Life kicks h (opened n {h = g} before shut done) =
    let (held, pos, state) = endpoints-Life kicks g before in
    let (held', pos', state') =
      usb_ffs_open-IsSettled n g (held, pos, IsServed-settled kicks g state) shut in
    let (one_more, open_) = open-registered n g done in
    (
      held',
      pos',
      inr (
        IsReady-open (usb_ffs_open n g).1 state' open_,
        one_more ∙ ap suc (IsServed-idle kicks g state shut),
      ),
    )
endpoints-Life kicks h (kicked {kicks = before_kicks} {h = g} before open_) =
    let (held, pos, state) = endpoints-Life before_kicks g before in
    (
      kick-IsHeld g held (IsReady-open g (IsServed-settled before_kicks g state) open_),
      rw (kick-opens g) pos,
      inl (kick-IsIdle g, kick-registered g ∙ IsServed-ready before_kicks g state open_),
    )
