-- ===== src/Listeners/Bindings.antt =====
-- The listeners as a map from local names to what they forward to, adbd/src/adb.c.
use stm32f429_adbd.Common.{
  ℕ, ◌&&◌, if-branches, codes, ◌≡◌, refl, Bool, true, false, Option, none, some, List, [], ◌∷◌,
  ◌++◌, if◌then◌else◌, same_text, same_text_iff, arith, ◌↔◌,
}
use stm32f429_adbd.Listeners.{
  Listener, Listeners, InstallStatus, install_ok, internal_error, cannot_bind, cannot_rebind,
  install_crash, relinked, bound_listener, install_at, remove_at, is_special, find_listener, change,
  rebound, relink, rebind, same_transport, add_listener, install_listener, free_listener,
  remove_listener,
}
use stm32f429_adbd.Listeners.Names.{
  binding, has_name, IsDistinct, binding-change, binding-append, has_name-find, has_name-binding,
  IsDistinct-change, IsDistinct-append, binding-take_off, IsDistinct-take_off, find_listener-some,
}

-- Whether the status is INSTALL_STATUS_OK.
abbrev pub is_ok : InstallStatus → Bool
is_ok install_ok = true
is_ok _ = false

abbrev Installs : List ℕ → List ℕ → Option ℕ → Listeners → InstallStatus × Listeners → Type 0
Installs name connect_to transport s (status, s') =
    IsDistinct s'.ring
    × ((n : List ℕ)
        → binding n s'.ring ≡ (
            if is_ok status && same_text name n
            then some (connect_to, transport)
            else binding n s.ring))

unchanged :
    (name connect_to : List ℕ) (transport : Option ℕ) (s : Listeners) (status : InstallStatus)
    → IsDistinct s.ring
    → is_ok status ≡ false
    → Installs name connect_to transport s (status, s)
unchanged name connect_to transport s status d fails = (d, λ n. ground (arith, fails))

rebind_lem :
    (name connect_to : List ℕ) (transport : Option ℕ) (no_rebind : Bool) (l : Listener)
    (s : Listeners)
    → IsDistinct s.ring
    → find_listener name s.ring ≡ some l
    → Installs name connect_to transport s (rebind name connect_to transport no_rebind l s)
unfolding rebind relinked
rebind_lem name connect_to transport no_rebind l s d found =
    if-branches P (is_special l.connect_to)
      (λ _. unchanged name connect_to transport s internal_error d refl)
      (λ _.
        if-branches P no_rebind (λ _. unchanged name connect_to transport s cannot_rebind d refl)
          (λ _.
            if-branches P (same_transport l.transport transport) (λ _. changed s.links)
              (λ _. by_links (relink name l.transport transport s.links))))
  where
    P : InstallStatus × Listeners → Type 0
    P = Installs name connect_to transport s

    changed :
        (links : List (ℕ × List ℕ))
        → P (
          install_ok,
          record s { ring = change name (rebound connect_to transport) s.ring; links = links },
        )
    changed links = (
      IsDistinct-change name connect_to transport s.ring d,
      λ n. binding-change name connect_to transport n l s.ring found,
    )

    by_links : (o : Option (List (ℕ × List ℕ))) → P (relinked name connect_to transport s o)
    by_links none = unchanged name connect_to transport s install_crash d refl
    by_links (some links) = changed links

add_listener_lem :
    (name connect_to : List ℕ) (transport : Option ℕ) (fd : ℕ) (s : Listeners)
    → IsDistinct s.ring
    → find_listener name s.ring ≡ none
    → Installs name connect_to transport s (install_ok, add_listener name connect_to transport fd s)
unfolding add_listener binding
add_listener_lem name connect_to transport fd s d found =
    let absent = (has_name-find name s.ring).0 found in
    (IsDistinct-append l s.ring d absent, λ n. bound n absent)
  where
    l : Listener
    l = record {
      local_name = name;
      connect_to = connect_to;
      fd = fd;
      transport = transport;
      for_smart_sockets = same_text connect_to (codes "*smartsocket*");
    }

    bound :
        (n : List ℕ)
        → has_name name s.ring ≡ false
        → binding n (s.ring ++ (l ∷ []))
          ≡ (if same_text name n then some (connect_to, transport) else binding n s.ring)
    bound n absent = ground (
      arith,
      absent,
      binding-append n l s.ring,
      has_name-binding n s.ring,
      same_text_iff n name,
      same_text_iff name n,
    )

-- `install_listener` on a ring with distinct names keeps them distinct. If it returns
-- INSTALL_STATUS_OK, the name is bound to the destination and transport that were asked for, and
-- every other name to what it was; with any other status every name is bound to what it was.
pub install_listener_lem :
    (bind : List ℕ → Option ℕ) (name connect_to : List ℕ) (transport : Option ℕ) (no_rebind : Bool)
    (s : Listeners)
    → IsDistinct s.ring
    → let (status, s') = install_listener bind name connect_to transport no_rebind s in
      IsDistinct s'.ring
      × ((n : List ℕ)
          → binding n s'.ring ≡ (
              if is_ok status && same_text name n
              then some (connect_to, transport)
              else binding n s.ring))
unfolding install_listener bound_listener install_at
install_listener_lem bind name connect_to transport no_rebind s d =
    by_found (find_listener name s.ring) refl
  where
    by_bind :
        (o : Option ℕ)
        → find_listener name s.ring ≡ none
        → Installs name connect_to transport s (bound_listener name connect_to transport s o)
    by_bind none e = unchanged name connect_to transport s cannot_bind d refl
    by_bind (some fd) e = add_listener_lem name connect_to transport fd s d e

    by_found :
        (o : Option Listener)
        → find_listener name s.ring ≡ o
        → Installs name connect_to transport s
            (install_at bind name connect_to transport no_rebind s o)
    by_found none e = by_bind (bind name) e
    by_found (some l) e = rebind_lem name connect_to transport no_rebind l s d e

-- The closed descriptors after the listener that was found, if any, is freed.
abbrev pub closed_by : Option Listener → List ℕ → List ℕ
closed_by none closed = closed
closed_by (some l) closed = closed ++ (l.fd ∷ [])

-- `remove_listener` on such a ring keeps the names distinct. It returns 0 exactly if the name was
-- bound. Then the name is bound no more, and the descriptor of the listener that was found is
-- closed, and no other; else none is. Every other name keeps its binding.
pub remove_listener_lem :
    (name : List ℕ) (s : Listeners)
    → IsDistinct s.ring
    → let (removed, s') = remove_listener name s in
      IsDistinct s'.ring
      × ((removed ≡ false) ↔ (binding name s.ring ≡ none))
      × ((n : List ℕ) → binding n s'.ring ≡ (if same_text name n then none else binding n s.ring))
      × (s'.closed ≡ closed_by (find_listener name s.ring) s.closed)
unfolding remove_listener remove_at free_listener
remove_listener_lem name s d = by_found (find_listener name s.ring) refl
  where
    by_found :
        (o : Option Listener)
        → find_listener name s.ring ≡ o
        → let (removed, s') = remove_at s o in
          IsDistinct s'.ring
          × ((removed ≡ false) ↔ (binding name s.ring ≡ none))
          × ((n : List ℕ)
              → binding n s'.ring ≡ (if same_text name n then none else binding n s.ring))
          × (s'.closed ≡ closed_by o s.closed)
    by_found none e =
        let free : binding name s.ring ≡ none =
          (has_name-binding name s.ring).1 ((has_name-find name s.ring).0 e) in
        (d, (λ _. free, λ _. refl), λ n. grind (arith, free, same_text_iff name n), refl)
    by_found (some l) e =
        let (named, bound) = find_listener-some name s.ring l e in
        (
          IsDistinct-take_off l.local_name s.ring d,
          (λ f. absurd (ground (arith, f)), λ f. absurd (bound f)),
          λ n. rw named (binding-take_off name n s.ring d),
          refl,
        )
