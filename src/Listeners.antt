-- ===== src/Listeners.antt =====
-- The listeners of adbd/src/adb.c: local names at which connections are accepted, each forwarded
-- to a name on a transport. The ring is the list of its members from the head on. Binding a name
-- is the system's; memory does not run out.
pub mod Names
pub mod Bindings
use stm32f429_adbd.Common.{
  ℕ, Bool, true, false, not, ◌&&◌, Option, none, some, List, [], ◌∷◌, ◌++◌, if◌then◌else◌, ◌==◌,
  same_text, codes,
}

-- `alistener`. Its callback is the one for smart sockets, or the one that connects to `connect_to`.
pub record Listener : Type 0 where
  pub local_name : List ℕ
  pub connect_to : List ℕ
  pub fd : ℕ
  pub transport : Option ℕ
  pub for_smart_sockets : Bool

-- `links` holds the transports' disconnect callbacks, each with the name of its listener;
-- `closed` the descriptors that were closed, `watched` those that the event loop reads.
pub record Listeners : Type 0 where
  pub ring : List Listener
  pub links : List (ℕ × List ℕ)
  pub watched : List ℕ
  pub closed : List ℕ

-- The status of `install_listener`; the last is an access through a null pointer.
pub data InstallStatus : Type 0 where
  install_ok internal_error cannot_bind cannot_rebind install_crash : InstallStatus

-- `connect_to[0] == '*'`
unfoldable pub is_special : List ℕ → Bool
is_special [] = false
is_special (c ∷ text) = c == b'*'

unfoldable pub find_listener : List ℕ → List Listener → Option Listener
find_listener name [] = none
find_listener name (l ∷ ring) =
    if same_text name l.local_name then some l else find_listener name ring

-- What stands at the first listener of that name changes.
unfoldable pub change : List ℕ → (Listener → Listener) → List Listener → List Listener
change name f [] = []
change name f (l ∷ ring) =
    if same_text name l.local_name then f l ∷ ring else l ∷ change name f ring

unfoldable pub take_off : List ℕ → List Listener → List Listener
take_off name [] = []
take_off name (l ∷ ring) = if same_text name l.local_name then ring else l ∷ take_off name ring

unfoldable pub unlink_disconnect : ℕ → List ℕ → List (ℕ × List ℕ) → List (ℕ × List ℕ)
unlink_disconnect t name [] = []
unlink_disconnect t name (k ∷ links) =
    if k.0 == t && same_text k.1 name then links else k ∷ unlink_disconnect t name links

unfoldable pub same_transport : Option ℕ → Option ℕ → Bool
same_transport none none = true
same_transport (some a) (some b) = a == b
same_transport _ _ = false

unfoldable pub unwatch : ℕ → List ℕ → List ℕ
unwatch fd [] = []
unwatch fd (x ∷ xs) = if x == fd then xs else x ∷ unwatch fd xs

abbrev pub rebound : List ℕ → Option ℕ → Listener → Listener
rebound connect_to transport l = record l { connect_to = connect_to; transport = transport }

-- The rebinding of a listener to another transport: both must be there.
unfoldable pub relink :
    List ℕ → Option ℕ → Option ℕ → List (ℕ × List ℕ) → Option (List (ℕ × List ℕ))
relink name (some old) (some new) links =
    some (unlink_disconnect old name links ++ ((new, name) ∷ []))
relink name _ _ links = none

unfoldable pub relinked :
    List ℕ → List ℕ → Option ℕ → Listeners → Option (List (ℕ × List ℕ)) → InstallStatus × Listeners
relinked name connect_to transport s none = (install_crash, s)
relinked name connect_to transport s (some links) = (
  install_ok,
  record s { ring = change name (rebound connect_to transport) s.ring; links = links },
)

unfoldable pub rebind :
    List ℕ → List ℕ → Option ℕ → Bool → Listener → Listeners → InstallStatus × Listeners
rebind name connect_to transport no_rebind l s =
    if is_special l.connect_to
    then (internal_error, s)
    else if no_rebind
    then (cannot_rebind, s)
    else if same_transport l.transport transport
    then (install_ok, record s { ring = change name (rebound connect_to transport) s.ring })
    else relinked name connect_to transport s (relink name l.transport transport s.links)

unfoldable pub link_to : Option ℕ → List ℕ → List (ℕ × List ℕ)
link_to none name = []
link_to (some t) name = (t, name) ∷ []

unfoldable pub add_listener : List ℕ → List ℕ → Option ℕ → ℕ → Listeners → Listeners
add_listener name connect_to transport fd s = record s {
  ring =
      s.ring
      ++ (record {
        local_name = name;
        connect_to = connect_to;
        fd = fd;
        transport = transport;
        for_smart_sockets = same_text connect_to (codes "*smartsocket*");
      }
          ∷ []);
  links = s.links ++ link_to transport name;
  watched = s.watched ++ (fd ∷ []);
}

-- `l->fd = local_name_to_fd(local_name)` and what follows.
unfoldable pub bound_listener :
    List ℕ → List ℕ → Option ℕ → Listeners → Option ℕ → InstallStatus × Listeners
bound_listener name connect_to transport s none = (cannot_bind, s)
bound_listener name connect_to transport s (some fd) =
    (install_ok, add_listener name connect_to transport fd s)

-- `bind` is `local_name_to_fd`; the last argument is the listener that the walk has found.
unfoldable pub install_at :
    (List ℕ → Option ℕ)
    → List ℕ
    → List ℕ
    → Option ℕ
    → Bool
    → Listeners
    → Option Listener
    → InstallStatus × Listeners
install_at bind name connect_to transport no_rebind s (some l) =
    rebind name connect_to transport no_rebind l s
install_at bind name connect_to transport no_rebind s none =
    bound_listener name connect_to transport s (bind name)

unfoldable pub install_listener :
    (List ℕ → Option ℕ) → List ℕ → List ℕ → Option ℕ → Bool → Listeners → InstallStatus × Listeners
install_listener bind name connect_to transport no_rebind s =
    install_at bind name connect_to transport no_rebind s (find_listener name s.ring)

-- `listener_disconnect`, of the first listener of a name.
unfoldable pub free_listener : Listener → Listeners → Listeners
free_listener l s = record s {
  ring = take_off l.local_name s.ring;
  watched = unwatch l.fd s.watched;
  closed = s.closed ++ (l.fd ∷ []);
  links = elim l.transport [ none ↦ s.links | some t ↦ unlink_disconnect t l.local_name s.links ];
}

unfoldable pub remove_at : Listeners → Option Listener → Bool × Listeners
remove_at s none = (false, s)
remove_at s (some l) = (true, free_listener l s)

-- True for 0.
unfoldable pub remove_listener : List ℕ → Listeners → Bool × Listeners
remove_listener name s = remove_at s (find_listener name s.ring)

-- The walk of `remove_all_listeners`.
unfoldable pub remove_each : List Listener → Listeners → Listeners
remove_each [] s = s
remove_each (l ∷ ring) s =
    remove_each ring (if is_special l.connect_to then s else free_listener l s)

unfoldable pub remove_all_listeners : Listeners → Listeners
remove_all_listeners s = remove_each s.ring s
